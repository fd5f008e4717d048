-- ===== src/Reach/Scan.antt =====
-- One round of the search: what the `for` loop marks and queues, and what it costs.
use workflow_control.Prelude.{
  String, ℕ, suc, ◌+◌, ◌≤◌, some, Bool, true, false, List, [], ◌∷◌, ◌++◌, map, ◌≡◌, refl, ◌↔◌, ◌⊎◌,
  inl, inr, ◌==◌, eq_iff, length, In, In-append, length-append, if◌then◌else◌, Bool-cases,
  Option-cases, arith, Distinct, Distinct-snoc,
}
use workflow_control.Ir.{Wire}
use workflow_control.Ir.Wires.{wire_from_stage}
use workflow_control.Reach.{Search, offer, visit_wire, scan}

-- Some wire runs from stage `a` to stage `b`.
abbrev pub Edge : List Wire → String → String → Type 0
Edge [] a b = ⊥
Edge (w ∷ ws) a b = (wire_from_stage w ≡ some a) × (w.to.stage ≡ b) ⊎ Edge ws a b

-- What the proofs need of the test: it passes over exactly what was marked and a fixed part, and
-- what it lets through was not marked before.
pub record IsSkip (skip : List String → String → Bool) (Fresh : String → Type 0) : Type 0 where
  pub add :
      (v : List String) (n x : String)
      → (skip (v ++ n ∷ []) x ≡ true) ↔ ((skip v x ≡ true) ⊎ (n ≡ x))
  pub fresh : (v : List String) (n : String) → skip v n ≡ false → ¬ In n v × Fresh n

module _ {skip : List String → String → Bool} {Fresh : String → Type 0}
    (law : IsSkip skip Fresh) where
  abbrev pub Seen : Search → String → Type 0
  Seen s x = skip s.visited x ≡ true

  -- The wires whose target is not yet seen.
  abbrev pub unseen : List String → List Wire → ℕ
  unseen v [] = 0
  unseen v (w ∷ ws) = let rest = unseen v ws in if skip v w.to.stage then rest else suc rest

  pub offer-Seen : (s : Search) (n x : String) → Seen (offer skip s n) x ↔ (Seen s x ⊎ (n ≡ x))
  unfolding offer
  offer-Seen s n x = elim (Bool-cases (skip s.visited n)) [
    | inl e ↦ rw e (inl, λ h. elim h [ inl p ↦ p | inr q ↦ rw q at e ])
    | inr e ↦ rw e (law.add s.visited n x)
  ]

  pub visit_wire-Seen :
      (current : String) (s : Search) (w : Wire) (x : String)
      → Seen (visit_wire skip current s w) x
        ↔ (Seen s x ⊎ (wire_from_stage w ≡ some current) × (w.to.stage ≡ x))
  unfolding visit_wire
  visit_wire-Seen current s w x = elim (Option-cases (wire_from_stage w)) [
    | inl e ↦ rw (e, visit_wire) (inl, λ h. ground arith)
    | inr (from, e) ↦
        rw (e, visit_wire) (ground (arith, eq_iff from current, offer-Seen s w.to.stage x))
  ]

  pub scan-Seen :
      (current : String) (s : Search) (ws : List Wire) (x : String)
      → Seen (scan skip current s ws) x ↔ (Seen s x ⊎ Edge ws current x)
  unfolding scan
  scan-Seen current s [] x = ground arith
  scan-Seen current s (w ∷ ws) x =
      ground
        (arith, visit_wire-Seen current s w x, scan-Seen current (visit_wire skip current s w) ws x)

  -- What a state keeps through a round: the queue was marked, nothing is marked twice, and what
  -- was marked or queued before stays so.
  pub record Marks (s t : Search) : Type 0 where
    pub queued : (x : String) → In x t.queue → In x s.queue ⊎ Seen t x
    pub newly : (x : String) → Seen t x → Seen s x ⊎ In x t.queue
    pub stays : (x : String) → In x s.queue → In x t.queue
    pub old : (x : String) → Seen s x → Seen t x
    pub fresh : (x : String) → In x t.visited → In x s.visited ⊎ Fresh x
    pub marked : (x : String) → In x t.visited → In x s.visited ⊎ Seen t x
    pub listed : (x : String) → Seen t x → Seen s x ⊎ In x t.visited
    pub still : (x : String) → In x s.visited → In x t.visited
    pub distinct : Distinct s.visited → Distinct t.visited

  Marks-refl : (s : Search) → Marks s s
  Marks-refl s = record {
    queued = λ x. inl;
    newly = λ x. inl;
    stays = λ x h. h;
    old = λ x h. h;
    fresh = λ x. inl;
    marked = λ x. inl;
    listed = λ x. inl;
    still = λ x h. h;
    distinct = λ d. d;
  }

  Marks-trans : {s t u : Search} → Marks s t → Marks t u → Marks s u
  Marks-trans {s} {t} {u} p q = record {
    queued = λ x h. elim (q.queued x h) [
      | inl r ↦ elim (p.queued x r) [ inl a ↦ inl a | inr b ↦ inr (q.old x b) ]
      | inr r ↦ inr r
    ];
    newly = λ x h. elim (q.newly x h) [
      | inl r ↦ elim (p.newly x r) [ inl a ↦ inl a | inr b ↦ inr (q.stays x b) ]
      | inr r ↦ inr r
    ];
    stays = λ x h. q.stays x (p.stays x h);
    old = λ x h. q.old x (p.old x h);
    fresh = λ x h. elim (q.fresh x h) [ inl r ↦ p.fresh x r | inr r ↦ inr r ];
    marked = λ x h. elim (q.marked x h) [
      | inl r ↦ elim (p.marked x r) [ inl a ↦ inl a | inr b ↦ inr (q.old x b) ]
      | inr r ↦ inr r
    ];
    listed = λ x h. elim (q.listed x h) [
      | inl r ↦ elim (p.listed x r) [ inl a ↦ inl a | inr b ↦ inr (q.still x b) ]
      | inr r ↦ inr r
    ];
    still = λ x h. q.still x (p.still x h);
    distinct = λ d. q.distinct (p.distinct d);
  }

  offer-Marks : (s : Search) (n : String) → Marks s (offer skip s n)
  unfolding offer
  offer-Marks s n = elim (Bool-cases (skip s.visited n)) [
    | inl e ↦ rw e (Marks-refl s)
    | inr e ↦ rw e (record {
      queued = λ x h. ground (arith, In-append x s.queue (n ∷ []), law.add s.visited n x);
      newly = λ x h. ground (arith, In-append x s.queue (n ∷ []), law.add s.visited n x);
      stays = λ x h. (In-append x s.queue (n ∷ [])).1 (inl h);
      old = λ x h. (law.add s.visited n x).1 (inl h);
      fresh = λ x h. ground (arith, In-append x s.visited (n ∷ []), law.fresh s.visited n e);
      marked = λ x h. ground (arith, In-append x s.visited (n ∷ []), law.add s.visited n x);
      listed = λ x h. ground (arith, In-append x s.visited (n ∷ []), law.add s.visited n x);
      still = λ x h. (In-append x s.visited (n ∷ [])).1 (inl h);
      distinct = λ d. Distinct-snoc s.visited n d (law.fresh s.visited n e).0;
    })
  ]

  visit_wire-Marks :
      (current : String) (s : Search) (w : Wire) → Marks s (visit_wire skip current s w)
  unfolding visit_wire
  visit_wire-Marks current s w = elim (Option-cases (wire_from_stage w)) [
    | inl e ↦ rw (e, visit_wire) (Marks-refl s)
    | inr (from, e) ↦
        rw (e, visit_wire)
          (elim (Bool-cases (from == current)) [
            | inl t ↦ rw t (offer-Marks s w.to.stage)
            | inr f ↦ rw f (Marks-refl s)
          ])
  ]

  pub scan-Marks :
      (current : String) (s : Search) (ws : List Wire) → Marks s (scan skip current s ws)
  unfolding scan
  scan-Marks current s [] = Marks-refl s
  scan-Marks current s (w ∷ ws) =
      Marks-trans (visit_wire-Marks current s w)
        (scan-Marks current (visit_wire skip current s w) ws)

  abbrev pub targets : List Wire → List String
  targets = map (λ (w : Wire). w.to.stage)

  unseen-add-le :
      (v : List String) (n : String) (ws : List Wire) → unseen (v ++ n ∷ []) ws ≤ unseen v ws
  unseen-add-le v n [] = omega arith
  unseen-add-le v n (w ∷ ws) = ground (arith, unseen-add-le v n ws, law.add v n w.to.stage)

  unseen-add-lt :
      (v : List String) (n : String) (ws : List Wire)
      → skip v n ≡ false
      → In n (targets ws)
      → suc (unseen (v ++ n ∷ []) ws) ≤ unseen v ws
  unseen-add-lt v n [] e m = absurd m
  unseen-add-lt v n (w ∷ ws) e (inl p) =
      rw (p, e, (law.add v n n).1 (inr refl)) (omega (arith, unseen-add-le v n ws))
  unseen-add-lt v n (w ∷ ws) e (inr m) =
      ground (arith, unseen-add-lt v n ws, law.add v n w.to.stage)

  -- The rounds that are left at most.
  abbrev pub work : List Wire → Search → ℕ
  work ws s = length s.queue + unseen s.visited ws

  offer-work-le :
      (ws : List Wire) (s : Search) (n : String)
      → In n (targets ws)
      → work ws (offer skip s n) ≤ work ws s
  unfolding offer
  offer-work-le ws s n m = elim (Bool-cases (skip s.visited n)) [
    | inl e ↦ rw e (omega arith)
    | inr e ↦ rw e (omega (arith, length-append s.queue (n ∷ []), unseen-add-lt s.visited n ws e m))
  ]

  visit_wire-work-le :
      (ws : List Wire) (current : String) (s : Search) (w : Wire)
      → In w.to.stage (targets ws)
      → work ws (visit_wire skip current s w) ≤ work ws s
  unfolding visit_wire
  visit_wire-work-le ws current s w m = elim (Option-cases (wire_from_stage w)) [
    | inl e ↦ rw (e, visit_wire) (omega arith)
    | inr (from, e) ↦ rw (e, visit_wire) (ground (arith, offer-work-le ws s w.to.stage))
  ]

  pub scan-work-le :
      (ws : List Wire) (current : String) (s : Search) (part : List Wire)
      → ((n : String) → In n (targets part) → In n (targets ws))
      → work ws (scan skip current s part) ≤ work ws s
  unfolding scan
  scan-work-le ws current s [] sub = omega arith
  scan-work-le ws current s (w ∷ part) sub = omega (
    arith,
    visit_wire-work-le ws current s w (sub w.to.stage (inl refl)),
    scan-work-le ws current (visit_wire skip current s w) part (λ n m. sub n (inr m)),
  )

  pub unseen-le-length : (v : List String) (ws : List Wire) → unseen v ws ≤ length ws
  unseen-le-length v [] = omega arith
  unseen-le-length v (w ∷ ws) = ground (arith, unseen-le-length v ws)
