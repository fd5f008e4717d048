-- ===== src/Machine/Answers.antt =====
-- The answer of a gate: what the gate's own region records of it, and what the gate's targets do.
use workflow_control.Prelude.{
  String, ℕ, suc, Option, none, some, Bool, true, false, not, ◌&&◌, List, [], ◌∷◌, ◌≡◌, refl, sym,
  subst, ◌↔◌, ◌⊎◌, inl, inr, eq_iff, eq_self, includes, includes_iff, not_includes, set_add,
  set_add_iff, set_add-Distinct, Distinct, any, all, In, In-append, Bool-cases, arith,
  if◌then◌else◌, length, nat_eq,
}
use workflow_control.Ir.{RouteTarget}
use workflow_control.Structural.Stages.{targets_of}
use workflow_control.Machine.{
  was_finalized, is_gate, new_skips, add_picked, gate_answered_assign, executing_on, is_unpicked,
  siblings_of, all_delivered, has_dropped, wire_settled, wire_delivers, enter_done, is_finalized,
}
use workflow_control.Machine.Context.{
  MachineContext, gate_answered, Region, Phase, waiting, executing, done, error, Reaction, go,
  go_raise, forward_interrupt, InboundWire, outcome_done, outcome_error,
}
use workflow_control.Machine.Waiting.{
  react, react_always, waiting_on, waiting_always, waiting_answered,
}
use workflow_control.Machine.Reactions.{not_taken}

add_picked_iff :
    (l picked : List String) (n : String) → In n (add_picked l picked) ↔ (In n l ⊎ In n picked)
unfolding add_picked
add_picked_iff l [] n = ground arith
add_picked_iff l (t ∷ ts) n = ground (arith, add_picked_iff (set_add l t) ts n, set_add_iff l t n)

add_picked-Distinct : (l picked : List String) → Distinct l → Distinct (add_picked l picked)
unfolding add_picked
add_picked-Distinct l [] d = d
add_picked-Distinct l (t ∷ ts) d = add_picked-Distinct (set_add l t) ts (set_add-Distinct l t d)

new_skips_iff :
    (picked skipped siblings : List String) (n : String)
    → In n (new_skips picked skipped siblings) ↔ (In n siblings × ¬ In n picked × ¬ In n skipped)
unfolding new_skips
new_skips_iff picked skipped [] n = ground arith
new_skips_iff picked skipped (t ∷ ts) n = ground (
  arith,
  new_skips_iff picked skipped ts n,
  includes_iff picked t,
  includes_iff skipped t,
  eq_iff t n,
)

-- Either the name is in the list or it is not.
in_or_not : (l : List String) (n : String) → In n l ⊎ ¬ In n l
in_or_not l n = elim (Bool-cases (includes l n)) [
  | inl e ↦ inl ((includes_iff l n).0 e)
  | inr e ↦ inr (not_includes l n e)
]

-- The gate knows the targets that were picked.
abbrev pub is_known : Region → (gate : String) → (picked : List String) → Bool
is_known r g picked = all (includes (siblings_of r g)) picked

-- Recording a gate's answer authorizes the targets that were picked, and keeps those authorized
-- before; when the gate knows all of them, it also marks as skipped its targets that were not picked,
-- and else marks nothing more.
pub gate_answered_assign_lem :
    (r : Region) (g : String) (picked : List String) (c : MachineContext) (n : String)
    → (In n (gate_answered_assign r g picked c).gate_authorized_targets
        ↔ (In n c.gate_authorized_targets ⊎ In n picked))
      × (In n (gate_answered_assign r g picked c).gate_skipped_targets ↔ (
          In n c.gate_skipped_targets
          ⊎ ((is_known r g picked ≡ true) × In n (siblings_of r g) × ¬ In n picked)))
unfolding gate_answered_assign
gate_answered_assign_lem r g picked c n = (
  add_picked_iff c.gate_authorized_targets picked n,
  elim (Bool-cases (is_known r g picked)) [
    | inl e ↦ rw e (
        ground (
          arith,
          In-append n c.gate_skipped_targets
              (new_skips picked c.gate_skipped_targets (siblings_of r g)),
          new_skips_iff picked c.gate_skipped_targets (siblings_of r g) n,
          in_or_not c.gate_skipped_targets n,
        ))
    | inr e ↦ rw e (ground arith)
  ],
)

-- The wires of a stage that neither all deliver nor are dead.
unsettled :
    (r : Region) (values : List (String × String)) (ws : List InboundWire)
    → all (λ w. wire_settled w values) ws ≡ true
    → all (λ w. wire_delivers r w values) ws ≡ false
    → any (λ w. not (wire_delivers r w values)) ws ≡ true
unsettled r values [] h k = cc
unsettled r values (w ∷ ws) h k = ground (arith, unsettled r values ws)

dead_or_unsettled :
    (r : Region) (values : List (String × String)) (ws : List InboundWire)
    → all (λ w. wire_delivers r w values) ws ≡ false
    → (not (nat_eq (length ws) 0)
        && (all (λ w. wire_settled w values) ws && any (λ w. not (wire_delivers r w values)) ws))
      ≡ false
    → all (λ w. wire_settled w values) ws ≡ false
dead_or_unsettled r values [] u v = cc
dead_or_unsettled r values (w ∷ ws) u v =
    elim (Bool-cases (all (λ w. wire_settled w values) (w ∷ ws))) [
      | inl e ↦ let a = unsettled r values (w ∷ ws) e u in dropped (length ws) _ _ v a
      | inr e ↦ e
    ]
  where
    dropped :
        (n : ℕ) (x y : Bool) → (not (nat_eq (suc n) 0) && (x && y)) ≡ false → y ≡ true → x ≡ false
    dropped n x y e f = ground arith

-- A waiting target that the gate's answer picks goes on waiting only while a wire into it has no
-- value at its source.
pub answered-stays :
    (r : Region) (id g answer : String) (target : RouteTarget) (c : MachineContext)
    → react r (gate_answered id g answer target) waiting c ≡ none
    → In r.name (targets_of target)
    → all (λ w. wire_settled w c.port_values) r.meta.inbound ≡ false
unfolding react waiting_on waiting_answered
answered-stays r id g answer target c h i =
    let m = (includes_iff (targets_of target) r.name).1 i in
    let a = not_taken (is_unpicked r g (targets_of target)) _ _ h in
    let b = not_taken (includes (targets_of target) r.name && all_delivered r c) _ _ a.1 in
    let d = not_taken (includes (targets_of target) r.name && has_dropped r c) _ _ b.1 in
    settled_not (and_false _ _ m b.0) (and_false _ _ m d.0)
  where
    and_false : (x y : Bool) → x ≡ true → (x && y) ≡ false → y ≡ false
    and_false x y e f = ground arith

    settled_not :
        all_delivered r c ≡ false
        → has_dropped r c ≡ false
        → all (λ w. wire_settled w c.port_values) r.meta.inbound ≡ false
    settled_not u v = dead_or_unsettled r c.port_values r.meta.inbound u v

-- The reaction ends the region.
abbrev pub Ends : Option Reaction → Type 0
Ends none = ⊥
Ends (some (go p c)) = (p ≡ done) ⊎ (p ≡ error)
Ends (some (go_raise p c retry)) = ⊥
Ends (some forward_interrupt) = ⊥

skipped-Ends :
    (q : Region) (c : MachineContext)
    → In q.name c.gate_skipped_targets
    → Ends (react_always q waiting c)
unfolding react_always waiting_always
skipped-Ends q c m = choose _ _ _ (was_finalized c q.name outcome_done) (inl refl) (
    choose _ _ _ (was_finalized c q.name outcome_error) (inr refl)
      (rw ((includes_iff c.gate_skipped_targets q.name).1 m) (inl refl)))
  where
    choose :
        (p : Phase) (d : MachineContext) (o : Option Reaction) (t : Bool)
        → (p ≡ done) ⊎ (p ≡ error)
        → Ends o
        → Ends (if t then some (go p d) else o)
    choose p d o true h k = h
    choose p d o false h k = k

enter_done_keeps :
    (r : Region) (c : MachineContext)
    → ((enter_done r c).gate_authorized_targets ≡ c.gate_authorized_targets)
      × ((enter_done r c).gate_skipped_targets ≡ c.gate_skipped_targets)
unfolding enter_done
enter_done_keeps r c = elim (Bool-cases (is_finalized c r.name)) [
  | inl e ↦ rw e (refl, refl)
  | inr e ↦ rw e (refl, refl)
]

-- A gate that executes and is answered is done; afterwards each target that was picked is authorized,
-- and, when the gate knows all targets that were picked, each of its targets that was not picked and
-- still waits ends of itself, without executing.
pub answered-routes :
    (r q : Region) (id answer : String) (target : RouteTarget) (c : MachineContext)
    → is_gate r ≡ true
    → (c' : MachineContext) × (react r (gate_answered id r.name answer target) executing c
        ≡ some (go done c'))
      × (In q.name (targets_of target) → In q.name c'.gate_authorized_targets)
      × (is_known r r.name (targets_of target) ≡ true
          → In q.name (siblings_of r r.name)
          → ¬ In q.name (targets_of target)
          → Ends (react_always q waiting c'))
unfolding react executing_on
answered-routes r q id answer target c e =
    let picked = targets_of target in
    let d = gate_answered_assign r r.name picked c in
    let said = gate_answered_assign_lem r r.name picked c q.name in
    let kept = enter_done_keeps r d in
    (
      enter_done r d,
      rw (e, eq_self r.name) refl,
      (λ m. subst (λ l. In q.name l) (sym kept.0) (said.0.1 (inr m))),
      (λ k s u.
          skipped-Ends q (enter_done r d)
            (subst (λ l. In q.name l) (sym kept.1) (said.1.1 (inr (k, s, u))))),
    )
