-- ===== src/Machine/Run/Entry.antt =====
-- What holds of a stage while it executes.
use workflow_control.Prelude.{
  String, Bool, true, false, List, [], ◌∷◌, map, ◌≡◌, ◌≢◌, map_get-map_set, refl, sym, ap, subst,
  ◌∙◌, inl, inr, ◌==◌, eq_iff, all, includes, includes_iff, In, In-map, Distinct, Bool-cases,
  Option-cases, arith, map_get, map_set,
}
use workflow_control.Machine.{wire_settled, wire_delivers, is_authorized}
use workflow_control.Machine.Context.{MachineContext, Region, Phase, executing, InboundWire}
use workflow_control.Machine.Run.{Snapshot, moved, write_port, Runs}
use workflow_control.Machine.Run.Effects.{Effect}
use workflow_control.Machine.Run.Invariant.{Active, keeps_run}

-- Every wire into the region has a value at its source.
abbrev pub all_settled : Region → MachineContext → Bool
all_settled r c = all (λ w. wire_settled w c.port_values) r.meta.inbound

delivers_settled :
    (r : Region) (w : InboundWire) (values : List (String × String))
    → wire_delivers r w values ≡ true
    → wire_settled w values ≡ true
unfolding wire_delivers
delivers_settled r w values h = elim (Option-cases (map_get values w.source_key)) [
  | inl e ↦ let never : false ≡ true = rw (wire_delivers, e) at h in cc
  | inr (value, e) ↦ rw e refl
]

delivered_settled :
    (r : Region) (values : List (String × String)) (ws : List InboundWire)
    → all (λ w. wire_delivers r w values) ws ≡ true
    → all (λ w. wire_settled w values) ws ≡ true
delivered_settled r values [] h = refl
delivered_settled r values (w ∷ ws) h =
    ground (arith, delivers_settled r w values, delivered_settled r values ws)

-- A write takes no value away.
written_settled :
    (values : List (String × String)) (key value : String) (ws : List InboundWire)
    → all (λ w. wire_settled w values) ws ≡ true
    → all (λ w. wire_settled w (map_set values key value)) ws ≡ true
written_settled values key value [] h = refl
written_settled values key value (w ∷ ws) h =
    ground
      (arith, map_get-map_set values key w.source_key value, written_settled values key value ws)

same_region :
    (rs : List Region) (r r' : Region)
    → Distinct (map (λ (q : Region). q.name) rs)
    → In r rs
    → In r' rs
    → r.name ≡ r'.name
    → r ≡ r'
same_region [] r r' d i j e = elim i [ ]
same_region (q ∷ rs) r r' d (inl x) (inl y) e = sym x ∙ y
same_region (q ∷ rs) r r' d (inl x) (inr y) e =
    elim (d.0 (
      subst (λ n. In n (map (λ (q : Region). q.name) rs))
        (sym e ∙ sym (ap (λ (q : Region). q.name) x))
        (In-map (λ (q : Region). q.name) r' rs y))) [ ]
same_region (q ∷ rs) r r' d (inr x) (inl y) e =
    elim (d.0 (
      subst (λ n. In n (map (λ (q : Region). q.name) rs)) (e ∙ sym (ap (λ (q : Region). q.name) y))
        (In-map (λ (q : Region). q.name) r rs x))) [ ]
same_region (q ∷ rs) r r' d (inr x) (inr y) e = same_region rs r r' d.1 x y e

abbrev Ready : Region → MachineContext → Type 0
Ready r c = (is_authorized r c ≡ true) × (all_settled r c ≡ true)

-- The invariant: every region of the machine that executes was let in.
abbrev Admitted : List Region → Snapshot → Type 0
Admitted rs s = (r : Region) → In r rs → s.phase r.name ≡ executing → Ready r s.context

still_authorized :
    (r q : Region) (c c' : MachineContext) (p : Phase)
    → Effect r c p c'
    → is_authorized q c ≡ true
    → is_authorized q c' ≡ true
still_authorized r q c c' p x h = elim (Bool-cases q.meta.gate_routed) [
  | inl e ↦
      let listed : includes c.gate_authorized_targets q.name ≡ true = ground arith in
      let m : In q.name c.gate_authorized_targets =
        (includes_iff c.gate_authorized_targets q.name).0 listed in
      rw (e, (includes_iff c'.gate_authorized_targets q.name).1 (x.keeps q.name m)) refl
  | inr e ↦ rw e refl
]

Admitted-move :
    (rs : List Region)
    → Distinct (map (λ (q : Region). q.name) rs)
    → (s : Snapshot) (r : Region) (p : Phase) (c : MachineContext) → In r rs
    → Active (s.phase r.name)
    → Effect r s.context p c
    → Admitted rs s
    → Admitted rs (moved s r.name p c)
Admitted-move rs d s r p c i a x h q j e = elim (Bool-cases (r.name == q.name)) [
  | inl t ↦
      let f : p ≡ executing = rw t at e in
      let same : r ≡ q = same_region rs r q d i j ((eq_iff r.name q.name).0 t) in
      let now = x.starts f in
      subst (λ z. Ready z c) same
        (now.0, rw x.values (delivered_settled r s.context.port_values r.meta.inbound now.1))
  | inr t ↦
      let f : s.phase q.name ≡ executing = rw t at e in
      let before = h q j f in (still_authorized r q s.context c p x before.0, rw x.values before.1)
]

-- In a machine whose regions have distinct names, in every run that starts with no region executing:
-- while a region executes, every wire into it has a value at its source, and if the region is
-- marked as gate-routed, it has been authorized.
pub executing-Runs :
    (rs : List Region) (s t : Snapshot) (r : Region)
    → Distinct (map (λ (q : Region). q.name) rs)
    → ((n : String) → s.phase n ≢ executing)
    → Runs rs s t
    → In r rs
    → t.phase r.name ≡ executing
    → (is_authorized r t.context ≡ true) × (all_settled r t.context ≡ true)
unfolding write_port
executing-Runs rs s t r d start_lem run i e =
    keeps_run rs (Admitted rs) (λ u q p c j. Admitted-move rs d u q p c j)
      (λ u key value h q j f.
        let k = h q j f in
        (k.0, written_settled u.context.port_values key value q.meta.inbound k.1))
      (λ q j f. absurd (start_lem q.name f)) run r i e
