-- ===== src/Dag/Correct.antt =====
-- What the check accepts.
use workflow_control.Prelude.{
  String, ℕ, zero, suc, ◌<◌, Option, none, some, not, List, [], ◌∷◌, ◌++◌, ◌≡◌, refl, sym, ap,
  subst, ◌∙◌, ◌↔◌, ◌⊎◌, inl, inr, includes, includes_iff, not_includes, keep, length, length-map,
  length_le_of_subset, nat_eq, In, Distinct, Bool-cases, Option-cases, arith,
}
use workflow_control.Ir.{Pipeline, Stage}
use workflow_control.Kahn.Correct.{IsTopo, IsOrder}
use workflow_control.Reach.Scan.{Edge}
use workflow_control.Segments.{stage_names}
use workflow_control.Dag.{
  Edges, note_wires, kahn, downs, self_wire, finish_dag, build_dag, BuildResult, dag, cycle,
  type_error, out_of_fuel, accepted, has_cycle, validate_dag,
}
use workflow_control.Dag.Links.{DagEdge, IsEdges, OnSome}
use workflow_control.Dag.Notes.{blank_edges, note_wires-blank, note_wires-declared}
use workflow_control.Dag.Seeds.{downs_iff, kahn_lem}
use workflow_control.Dag.Search.{extract_cycle_ends}
use workflow_control.Dag.Sorted.{IsSorted, position, position_rises, self_wire-none}

-- Every wire that counts runs between declared stages: else the program throws.
abbrev pub EndsDeclared : Pipeline → Type 0
EndsDeclared ir =
    (a b : String) → DagEdge ir.wires a b → In a (stage_names ir) × In b (stage_names ir)

-- No stage has a wire to itself, and a rank of the stages rises along every edge.
abbrev pub IsAcyclic : Pipeline → Type 0
IsAcyclic ir =
    ((a : String) → ¬ Edge ir.wires a a)
    × ((rank : String → ℕ) × ((a b : String) → DagEdge ir.wires a b → rank a < rank b))

module _ (ir : Pipeline) (d : Distinct (stage_names ir)) (g : Edges)
    (h : IsEdges (stage_names ir) d (DagEdge ir.wires) g) where
  IsTopo-IsSorted :
      (seen out : List String)
      → IsTopo (downs g) (stage_names ir) seen out
      → IsSorted ir.wires seen out
  IsTopo-IsSorted seen [] t = tt
  IsTopo-IsSorted seen (b ∷ out) t = (
    λ a e. t.0 a (h.inside a b e).0 ((downs_iff ir d g h a b).1 e),
    IsTopo-IsSorted (seen ++ b ∷ []) out t.1,
  )

  module _ (r : List String) (order : IsOrder (downs g) (stage_names ir) r) where
    -- Where a rank rises, no stage is left out.
    ranked :
        (rank : String → ℕ)
        → ((a b : String) → DagEdge ir.wires a b → rank a < rank b)
        → (k : ℕ) (x : String) → rank x < k
        → In x (stage_names ir)
        → In x r
    ranked rank up zero x lt m = absurd (omega arith)
    ranked rank up (suc k) x lt m = elim (Bool-cases (includes r x)) [
      | inl e ↦ (includes_iff r x).0 e
      | inr e ↦
          let (p, node, out, s) = order.rest x m (not_includes r x e) in
          let edge = (downs_iff ir d g h p x).0 s in
          absurd (out (ranked rank up k p (omega (arith, up p x edge)) node))
    ]

    -- A list as long as the stages has them all.
    full : length r ≡ length ir.stages → (x : String) → In x (stage_names ir) → In x r
    full e x m = elim (Bool-cases (includes r x)) [
      | inl i ↦ (includes_iff r x).0 i
      | inr i ↦
          let longer =
            length_le_of_subset (x ∷ r) (stage_names ir) (not_includes r x i, order.once)
              (λ y p. elim p [
                | inl q ↦ subst (λ z. In z (stage_names ir)) q m
                | inr q ↦ order.listed y q
              ]) in
          absurd (omega (arith, longer, length-map ir.stages (λ (s : Stage). s.name)))
    ]

    -- The ways in which the check ends once the stages are ordered.
    finish_cases :
        ((finish_dag ir g r ≡ dag r g)
          × (length r ≡ length ir.stages)
          × (self_wire ir.wires ≡ none))
        ⊎ ((c : Option (List String)) × (finish_dag ir g r ≡ cycle c)
            × ¬ ((length r ≡ length ir.stages) × (self_wire ir.wires ≡ none)))
    unfolding finish_dag
    finish_cases = elim (Bool-cases (nat_eq (length r) (length ir.stages))) [
      | inl t ↦ elim (Option-cases (self_wire ir.wires)) [
        | inl e ↦ inl (rw (t, e, finish_dag), ground arith, e)
        | inr (from, e) ↦ inr (some (from ∷ []), rw (t, e, finish_dag), λ p. ground arith)
      ]
      | inr f ↦
          let (c, e) = extract_cycle_ends g (keep (λ n. not (includes r n)) (stage_names ir)) in
          inr (c, rw (f, e), λ p. ground arith)
    ]

    -- The check passes exactly for a pipeline without a cycle.
    full_iff : ((length r ≡ length ir.stages) × (self_wire ir.wires ≡ none)) ↔ IsAcyclic ir
    full_iff = (
      λ (e, none'). (
        (self_wire-none ir.wires).0 none',
        (
          (λ x. position x r),
          λ a b q.
              elim (position_rises ir.wires [] r a b order.once (IsTopo-IsSorted [] r order.topo) q
                (full e b (h.inside a b q).1)) [ inl never ↦ absurd never | inr p ↦ p.1 ],
        ),
      ),
      λ (apart, (rank, up)). (
        omega (
          arith,
          length_le_of_subset r (stage_names ir) order.once order.listed,
          length_le_of_subset (stage_names ir) r d
              (λ x. ranked rank up (suc (rank x)) x (omega arith)),
          length-map ir.stages (λ (s : Stage). s.name),
        ),
        (self_wire-none ir.wires).1 apart,
      ),
    )

build_dag_steps :
    (ir : Pipeline) (g : Edges) (r : List String)
    → note_wires (blank_edges (stage_names ir)) ir.wires ≡ some g
    → kahn g (length ir.stages) ≡ some r
    → build_dag ir ≡ finish_dag ir g r
unfolding build_dag finish_dag
build_dag_steps ir g r noted ordered = rw (build_dag, noted, ordered) refl

-- For a pipeline whose stage names are distinct and whose wires run between declared stages (else
-- the program throws), the check reaches a verdict: it accepts exactly the pipelines without a
-- wire from a stage to itself and with a rank of the stages that rises along every edge, and it
-- reports a cycle for all others.
pub validate_dag_correct :
    (ir : Pipeline)
    → Distinct (stage_names ir)
    → EndsDeclared ir
    → ((validate_dag ir ≡ accepted) × IsAcyclic ir)
      ⊎ ((c : Option (List String)) × (validate_dag ir ≡ has_cycle c) × ¬ IsAcyclic ir)
unfolding validate_dag
validate_dag_correct ir d declared =
    let (g, noted) = note_wires-declared ir d declared in
    let h =
      subst (OnSome (IsEdges (stage_names ir) d (DagEdge ir.wires))) noted
        (note_wires-blank ir d) in
    let (r, ordered, order) = kahn_lem ir d g h in
    elim (finish_cases ir d g h r order) [
      | inl (e, size, alone) ↦ inl (
        rw (validate_dag, build_dag_steps ir g r noted ordered ∙ e) refl,
        (full_iff ir d g h r order).0 (size, alone),
      )
      | inr (c, e, short) ↦ inr (
        c,
        rw (validate_dag, build_dag_steps ir g r noted ordered ∙ e) refl,
        λ p. short ((full_iff ir d g h r order).1 p),
      )
    ]

abbrev order_of : BuildResult → List String
order_of (dag order g) = order
order_of (cycle c) = []
order_of type_error = []
order_of out_of_fuel = []

-- What `build_dag` returns as an order for a pipeline whose stage names are distinct holds every
-- stage exactly once, each behind all the stages that an edge leads from to it.
pub build_dag_order :
    (ir : Pipeline) (order : List String) (g : Edges)
    → Distinct (stage_names ir)
    → build_dag ir ≡ dag order g
    → Distinct order
      × ((x : String) → In x order ↔ In x (stage_names ir))
      × IsSorted ir.wires [] order
unfolding build_dag
build_dag_order ir order g d e =
    elim (Option-cases (note_wires (blank_edges (stage_names ir)) ir.wires)) [
      | inl noted ↦ let no : type_error ≡ dag order g = rw (build_dag, noted) at e in cc
      | inr (g', noted) ↦
          let h =
            subst (OnSome (IsEdges (stage_names ir) d (DagEdge ir.wires))) noted
              (note_wires-blank ir d) in
          let (r, ordered, done) = kahn_lem ir d g' h in
          let ran = sym (build_dag_steps ir g' r noted ordered) ∙ e in
          elim (finish_cases ir d g' h r done) [
            | inl (f, size, alone) ↦
                subst
                  (λ l.
                    Distinct l
                    × ((x : String) → In x l ↔ In x (stage_names ir))
                    × IsSorted ir.wires [] l)
                  (ap order_of (sym f ∙ ran))
                  (
                    done.once,
                    λ x. (done.listed x, full ir d g' h r done size x),
                    IsTopo-IsSorted ir d g' h [] r done.topo,
                  )
            | inr (c, f, short) ↦ let no : cycle c ≡ dag order g = sym f ∙ ran in cc
          ]
    ]
