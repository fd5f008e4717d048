-- ===== src/Structural/Sessions/Weights.antt =====
-- The measure of the climb up the wires: the entries it may still put into its queue.
use workflow_control.Prelude.{
  String, ℕ, suc, ◌+◌, ◌≤◌, some, false, List, [], ◌∷◌, ◌++◌, foldl, ◌≡◌, refl, ap, inl, inr, ◌==◌,
  eq_iff, includes, includes_iff, length, length-append, In-append, map_get, map_set, Bool-cases,
  Option-cases, arith, if◌then◌else◌,
}
use mathlib.Core.Option.{some-injective}
use workflow_control.Ir.{Pipeline, Wire}
use workflow_control.Ir.Wires.{wire_from_stage}
use workflow_control.Segments.{or_empty, stage_names}
use workflow_control.Structural.Sessions.{note_feed, wire_upstream}

-- The entries of the lists under names that are not yet visited.
abbrev pub weight : List String → List (String × List String) → ℕ
weight v [] = 0
weight v ((k, l) ∷ ups) = let rest = weight v ups in (if includes v k then 0 else length l) + rest

abbrev pub feeds : List (String × List String) → String → List String
feeds ups n = or_empty (map_get ups n)

weight-snoc :
    (v : List String) (n : String) (ups : List (String × List String))
    → weight (v ++ n ∷ []) ups ≤ weight v ups
weight-snoc v n [] = omega arith
weight-snoc v n ((k, l) ∷ ups) = ground (
  arith,
  weight-snoc v n ups,
  includes_iff (v ++ n ∷ []) k,
  includes_iff v k,
  In-append k v (n ∷ []),
)

pub weight-visit :
    (v : List String) (n : String) (ups : List (String × List String))
    → includes v n ≡ false
    → weight (v ++ n ∷ []) ups + length (feeds ups n) ≤ weight v ups
unfolding map_get
weight-visit v n [] e = ground arith
weight-visit v n ((k, l) ∷ ups) e = ground (
  arith,
  weight-visit v n ups e,
  weight-snoc v n ups,
  eq_iff k n,
  includes_iff (v ++ n ∷ []) k,
  includes_iff v k,
  In-append k v (n ∷ []),
  e,
  ap (includes v),
)

pub total : List (String × List String) → ℕ
total [] = 0
total ((k, l) ∷ ups) = let rest = total ups in length l + rest

pub total_nil : total [] ≡ 0
unfolding total
total_nil = refl

pub weight-total : (ups : List (String × List String)) → weight [] ups ≡ total ups
unfolding total includes
weight-total [] = refl
weight-total ((k, l) ∷ ups) = ground (arith, weight-total ups)

pub feeds-total :
    (ups : List (String × List String)) (n : String) → length (feeds ups n) ≤ total ups
unfolding total map_get
feeds-total [] n = ground arith
feeds-total ((k, l) ∷ ups) n = ground (arith, feeds-total ups n)

total-map_set :
    (ups : List (String × List String)) (k x : String) (l : List String)
    → map_get ups k ≡ some l
    → total (map_set ups k (l ++ x ∷ [])) ≡ suc (total ups)
unfolding total map_get map_set
total-map_set [] k x l e = cc
total-map_set ((j, w) ∷ ups) k x l e = elim (Bool-cases (j == k)) [
  | inl t ↦
      let same = some-injective w l (rw t at e) in
      rw t (ground (arith, ap length same, length-append l (x ∷ [])))
  | inr f ↦ rw f (ground (arith, total-map_set ups k x l (rw f at e)))
]

total-blank :
    (ups : List (String × List String)) (n : String) → total (map_set ups n []) ≤ total ups
unfolding total map_set
total-blank [] n = omega arith
total-blank ((k, l) ∷ ups) n = ground (arith, total-blank ups n)

pub total-blanks :
    (ups : List (String × List String)) (ns : List String)
    → total (foldl (λ m n. map_set m n []) ups ns) ≤ total ups
total-blanks ups [] = omega arith
total-blanks ups (n ∷ ns) = omega (arith, total-blanks (map_set ups n []) ns, total-blank ups n)

pub total-note_feed :
    (ups : List (String × List String)) (w : Wire) → total (note_feed ups w) ≤ suc (total ups)
unfolding note_feed
total-note_feed ups w = elim (Option-cases (wire_from_stage w)) [
  | inl e ↦ rw (e, note_feed) (omega arith)
  | inr (from, e) ↦ elim (Option-cases (map_get ups w.to.stage)) [
    | inl f ↦ rw (e, note_feed, f) (omega arith)
    | inr (list, f) ↦ elim (Bool-cases (includes list from)) [
      | inl t ↦ rw (e, note_feed, f, t) (omega arith)
      | inr t ↦ rw (e, note_feed, f, t) (omega (arith, total-map_set ups w.to.stage from list f))
    ]
  ]
]

total-note_feeds :
    (ups : List (String × List String)) (ws : List Wire)
    → total (foldl note_feed ups ws) ≤ total ups + length ws
total-note_feeds ups [] = omega arith
total-note_feeds ups (w ∷ ws) =
    omega (arith, total-note_feeds (note_feed ups w) ws, total-note_feed ups w)

pub total-wire_upstream : (ir : Pipeline) → total (wire_upstream ir) ≤ length ir.wires
unfolding wire_upstream total
total-wire_upstream ir = omega (
  arith,
  total-note_feeds (foldl (λ m n. map_set m n []) [] (stage_names ir)) ir.wires,
  total-blanks [] (stage_names ir),
)
