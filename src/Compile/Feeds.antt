-- ===== src/Compile/Feeds.antt =====
-- The stages one wire before each stage.
use workflow_control.Prelude.{
  String, suc, ◌+◌, ◌≤◌, some, is_some, true, false, List, [], ◌∷◌, ◌++◌, foldl, ◌≡◌, ◌≢◌, sym, ap,
  ◌∙◌, ◌↔◌, ◌⊎◌, inl, inr, ◌==◌, eq_iff, includes, includes_iff, length, In, In-append, map_get,
  map_set, map_get-map_set, Bool-cases, Option-cases, arith,
}
use mathlib.Core.Option.{some-injective}
use workflow_control.Ir.{Pipeline, Wire}
use workflow_control.Ir.Wires.{wire_from_stage, source_port}
use workflow_control.Segments.{stage_names}
use workflow_control.Structural.Ancestors.Rounds.{Forward}
use workflow_control.Structural.Sessions.{note_feed}
use workflow_control.Structural.Sessions.Weights.{
  total, total-note_feed, total-blanks, total_nil, feeds,
}
use workflow_control.Compile.{note_up, upstream_of}

total-note_up :
    (ups : List (String × List String)) (w : Wire) → total (note_up ups w) ≤ suc (total ups)
unfolding note_up
total-note_up ups w = elim (Option-cases (wire_from_stage w)) [
  | inl e ↦ rw (e, note_up) (omega arith)
  | inr (from, e) ↦
      rw (e, note_up)
        (elim (Bool-cases (source_port w.from == "__gate_feedback__")) [
          | inl t ↦ rw t (omega arith)
          | inr t ↦ rw t (total-note_feed ups w)
        ])
]

total-note_ups :
    (ups : List (String × List String)) (ws : List Wire)
    → total (foldl note_up ups ws) ≤ total ups + length ws
total-note_ups ups [] = omega arith
total-note_ups ups (w ∷ ws) = omega (arith, total-note_ups (note_up ups w) ws, total-note_up ups w)

pub total-upstream_of : (ir : Pipeline) → total (upstream_of ir) ≤ length ir.wires
unfolding upstream_of
total-upstream_of ir = omega (
  arith,
  total-note_ups (foldl (λ m n. map_set m n []) [] (stage_names ir)) ir.wires,
  total-blanks [] (stage_names ir),
  total_nil,
)

-- The name is a key.
abbrev Listed : List (String × List String) → String → Type 0
Listed ups n = is_some (map_get ups n) ≡ true

-- One wire that carries no feedback runs from `u` to `n`.
abbrev OneForward : Wire → String → String → Type 0
OneForward w u n =
    (wire_from_stage w ≡ some u) × (w.to.stage ≡ n) × (source_port w.from ≢ "__gate_feedback__")

record IsNoted (ups ups' : List (String × List String)) (w : Wire) : Type 0 where
  listed : (n : String) → Listed ups' n ↔ Listed ups n
  fed :
      (u n : String)
      → In u (feeds ups' n) ↔ (In u (feeds ups n) ⊎ (Listed ups n × OneForward w u n))

note_feed_lem :
    (ups : List (String × List String)) (w : Wire) (from : String)
    → wire_from_stage w ≡ some from
    → source_port w.from ≢ "__gate_feedback__"
    → IsNoted ups (note_feed ups w) w
unfolding note_feed
note_feed_lem ups w from e f = elim (Option-cases (map_get ups w.to.stage)) [
  | inl g ↦
      rw (e, note_feed, g)
        (record {
          listed = λ n. ground arith;
          fed = λ u n. (
            inl,
            λ h. elim h [
              | inl m ↦ m
              | inr (l, (x, y, z)) ↦ let never : false ≡ true = rw (sym y, g) at l in cc
            ],
          );
        })
  | inr (list, g) ↦ elim (Bool-cases (includes list from)) [
    | inl t ↦
        rw (e, note_feed, g, t)
          (record {
            listed = λ n. ground arith;
            fed = λ u n. (
              inl,
              λ h. elim h [
                | inl m ↦ m
                | inr (l, (x, y, z)) ↦
                    let same : from ≡ u = some-injective from u (sym e ∙ x) in
                    rw (sym y, g, sym same) ((includes_iff list from).0 t)
              ],
            );
          })
    | inr t ↦
        rw (e, note_feed, g, t)
          (record {
            listed = λ n. ground (
              arith,
              map_get-map_set ups w.to.stage n (list ++ from ∷ []),
              eq_iff w.to.stage n,
              ap (map_get ups),
              g,
            );
            fed = λ u n. ground (
              arith,
              map_get-map_set ups w.to.stage n (list ++ from ∷ []),
              eq_iff w.to.stage n,
              In-append u list (from ∷ []),
              ap (map_get ups),
              g,
              e,
              some-injective from u,
            );
          })
  ]
]

note_up_lem : (ups : List (String × List String)) (w : Wire) → IsNoted ups (note_up ups w) w
unfolding note_up
note_up_lem ups w = elim (Option-cases (wire_from_stage w)) [
  | inl e ↦ rw (e, note_up) (record { listed = λ n. ground arith; fed = λ u n. ground (arith, e) })
  | inr (from, e) ↦
      rw (e, note_up)
        (elim (Bool-cases (source_port w.from == "__gate_feedback__")) [
          | inl t ↦ rw t (record {
            listed = λ n. ground arith;
            fed = λ u n. ground (arith, eq_iff (source_port w.from) "__gate_feedback__");
          })
          | inr t ↦ rw t (
              note_feed_lem ups w from e
                (λ f. ground (arith, eq_iff (source_port w.from) "__gate_feedback__")))
        ])
]

note_ups_lem :
    (ups : List (String × List String)) (ws : List Wire) (u n : String)
    → In u (feeds (foldl note_up ups ws) n) ↔ (In u (feeds ups n) ⊎ (Listed ups n × Forward ws u n))
note_ups_lem ups [] u n = ground arith
note_ups_lem ups (w ∷ ws) u n =
    let step = note_up_lem ups w in
    ground (arith, note_ups_lem (note_up ups w) ws u n, step.listed n, step.fed u n)

blank_lem :
    (ups : List (String × List String)) (names : List String) (u n : String)
    → ¬ In u (feeds ups n)
    → (¬ In u (feeds (foldl (λ m k. map_set m k []) ups names) n))
      × (Listed (foldl (λ m k. map_set m k []) ups names) n ↔ (Listed ups n ⊎ In n names))
blank_lem ups [] u n h = (h, ground arith)
blank_lem ups (k ∷ names) u n h =
    let got = map_get-map_set ups k n [] in
    let rest =
      blank_lem (map_set ups k []) names u n
        (elim (Bool-cases (k == n)) [ inl e ↦ rw (got, e) (λ m. m) | inr e ↦ rw (got, e) h ]) in
    (rest.0, ground (arith, rest.1, got, eq_iff k n))

-- A wire that carries no feedback of a gate leads from `a` to the declared stage `b`.
abbrev pub Up : Pipeline → String → String → Type 0
Up ir a b = In b (stage_names ir) × Forward ir.wires a b

pub upstream_of_iff : (ir : Pipeline) (u n : String) → In u (feeds (upstream_of ir) n) ↔ Up ir u n
unfolding upstream_of map_get
upstream_of_iff ir u n =
    let blank = blank_lem [] (stage_names ir) u n (λ m. m) in
    ground (
      arith,
      note_ups_lem (foldl (λ m k. map_set m k []) [] (stage_names ir)) ir.wires u n,
      blank.0,
      blank.1,
    )
