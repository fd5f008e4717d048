-- ===== src/Divergence/Correct.antt =====
-- What the search for the earliest difference returns.
use workflow_control.Prelude.{
  String, ℕ, zero, suc, ◌<◌, none, some, Bool, List, [], ◌∷◌, ◌++◌, ◌≡◌, refl, sym, ap, subst, ◌∙◌,
  ◌↔◌, ◌⊎◌, inl, inr, includes, includes_iff, not_includes, In, In-append, In-keep, In-keep_intro,
  Distinct, Distinct-keep, length, nat_eq, keep, find, Bool-cases, Option-cases, List-cases, arith,
}
use mathlib.Core.Option.{some-injective}
use workflow_control.Ir.{Pipeline}
use workflow_control.Kahn.{degree}
use workflow_control.Kahn.Correct.{IsTopo, IsOrder, IsRunning, run_lem}
use workflow_control.Reach.Scan.{Edge}
use workflow_control.Segments.{Graph, successors, stage_names}
use workflow_control.Diff.Stages.{compute_pipeline_diff}
use workflow_control.Divergence.{
  changed_names, all_stage_names, tie_break_order, combined_graph, topo_order, earliest,
  find_earliest_divergence,
}
use workflow_control.Divergence.Links.{
  set_of_iff, set_of-Distinct, insert_at-IsEnqueue, IsCombined, combined_graph-IsCombined,
}

-- A wire of either pipeline between two of their stages.
abbrev pub Joins : (base proposed : Pipeline) → String → String → Type 0
Joins base proposed a b =
    In a (all_stage_names base proposed)
    × In b (all_stage_names base proposed)
    × Edge (base.wires ++ proposed.wires) a b

-- A chain of such wires.
pub data Leads (base proposed : Pipeline) (a : String) : String → Type 0 where
  direct : {b : String} → Joins base proposed a b → Leads base proposed a b
  further :
      {b c : String} → Leads base proposed a b → Joins base proposed b c → Leads base proposed a c

module _ (base proposed : Pipeline) where
  abbrev names : List String
  names = all_stage_names base proposed

  abbrev graph : Graph
  graph = combined_graph names (base.wires ++ proposed.wires)

  names-Distinct : Distinct names
  unfolding all_stage_names
  names-Distinct = set_of-Distinct (stage_names base ++ stage_names proposed)

  tied : (x : String) → In x (tie_break_order base proposed) ↔ In x names
  unfolding all_stage_names tie_break_order
  tied x = ground (
    arith,
    set_of_iff (stage_names base ++ stage_names proposed) x,
    set_of_iff (stage_names proposed ++ stage_names base) x,
    In-append x (stage_names base) (stage_names proposed),
    In-append x (stage_names proposed) (stage_names base),
  )

  combined : IsCombined names names-Distinct (Edge (base.wires ++ proposed.wires)) graph
  combined = combined_graph-IsCombined names names-Distinct (base.wires ++ proposed.wires)

  is_ready : String → Bool
  is_ready n = nat_eq (degree graph.in_degree n) 0

  started : IsRunning (successors graph) names (record {
    degrees = graph.in_degree;
    queue = keep (λ n. nat_eq (degree graph.in_degree n) 0) (tie_break_order base proposed);
    out = [];
  })
  unfolding tie_break_order
  started =
      let tie = tie_break_order base proposed in
      let ready = λ (n : String). nat_eq (degree graph.in_degree n) 0 in
      record {
        degrees = λ x m. combined.counted x;
        free = record {
          distinct =
              Distinct-keep ready tie (set_of-Distinct (stage_names proposed ++ stage_names base));
          free = λ x m. ground (arith, In-keep ready x tie m);
        };
        queued = λ x m. ((tied x).0 (In-keep ready x tie m).0, λ o. o);
        ready = λ x m z. inr (In-keep_intro ready x tie ((tied x).1 m) (ground arith));
        done = λ x o. absurd o;
        listed = λ x o. absurd o;
        once = tt;
        topo = tt;
      }

  topo_order_lem :
      (r : List String) × (topo_order base proposed ≡ some r) × IsOrder (successors graph) names r
  unfolding topo_order
  topo_order_lem =
      run_lem (successors graph) names (insert_at-IsEnqueue (tie_break_order base proposed))
        names-Distinct (λ n x m s. ((combined.edges n x).0 s).1) (length names) _ started
        (omega arith)

  -- Whatever leads to a stage whose direct predecessors are seen is seen.
  led :
      (seen : List String) (a n : String)
      → ((x y : String) → In y seen → Joins base proposed x y → In x seen)
      → ((x : String) → Joins base proposed x n → In x seen)
      → Leads base proposed a n
      → In a seen
  led seen a n closed into (direct j) = into a j
  led seen a n closed into (further {b = b} l j) =
      led seen a b closed (λ x k. closed x b (into b j) k) l

  module _ (changed : List String) where
    first_changed :
        (seen order : List String) (n : String)
        → IsTopo (successors graph) names seen order
        → ((x y : String) → In y seen → Joins base proposed x y → In x seen)
        → ((x : String) → In x seen → ¬ In x changed)
        → find (includes changed) order ≡ some n
        → In n changed × ((a : String) → In a changed → ¬ Leads base proposed a n)
    first_changed seen [] n t closed clean e = cc
    first_changed seen (b ∷ order) n t closed clean e = elim (Bool-cases (includes changed b)) [
      | inl i ↦
          let same : b ≡ n = some-injective b n (rw i at e) in
          subst (λ y. In y changed × ((a : String) → In a changed → ¬ Leads base proposed a y)) same
            (
              (includes_iff changed b).0 i,
              λ a m l.
                  clean a (led seen a b closed (λ x j. t.0 x j.0 ((combined.edges x b).1 j)) l) m,
            )
      | inr i ↦
          first_changed (seen ++ b ∷ []) order n t.1
            (λ x y m j. (In-append x seen (b ∷ [])).1 (
              inl (elim ((In-append y seen (b ∷ [])).0 m) [
                | inl o ↦ closed x y o j
                | inr (inl same) ↦
                    t.0 x j.0 ((combined.edges x b).1 (subst (Joins base proposed x) (sym same) j))
                | inr (inr never) ↦ absurd never
              ])))
            (λ x m. elim ((In-append x seen (b ∷ [])).0 m) [
              | inl o ↦ clean x o
              | inr (inl same) ↦ subst (λ y. ¬ In y changed) same (not_includes changed b i)
              | inr (inr never) ↦ absurd never
            ])
            (rw i at e)
    ]

  none_found :
      (changed order : List String)
      → find (includes changed) order ≡ none
      → (x : String) → In x order
      → ¬ In x changed
  none_found changed [] e x m = absurd m
  none_found changed (b ∷ order) e x m = elim (Bool-cases (includes changed b)) [
    | inl i ↦ let never : some b ≡ none = rw i at e in cc
    | inr i ↦ elim m [
      | inl same ↦ subst (λ y. ¬ In y changed) same (not_includes changed b i)
      | inr m' ↦ none_found changed order (rw i at e) x m'
    ]
  ]

  ends_at : (a n : String) → Leads base proposed a n → In n names
  ends_at a n (direct j) = j.1
  ends_at a n (further l j) = j.1

  -- Where a rank rises along the wires, no stage is left out of the order.
  ranked :
      (r : List String)
      → IsOrder (successors graph) names r
      → (rank : String → ℕ) → ((a b : String) → Joins base proposed a b → rank a < rank b)
      → (k : ℕ) (x : String) → rank x < k
      → In x names
      → In x r
  ranked r order rank up zero x lt m = absurd (omega arith)
  ranked r order rank up (suc k) x lt m = elim (Bool-cases (includes r x)) [
    | inl e ↦ (includes_iff r x).0 e
    | inr e ↦
        let (p, node, out, s) = order.rest x m (not_includes r x e) in
        let edge = (combined.edges p x).0 s in
        absurd (out (ranked r order rank up k p (omega (arith, up p x edge)) node))
  ]

find_earliest_divergence_steps :
    (base proposed : Pipeline) (first : String) (rest r : List String)
    → changed_names (compute_pipeline_diff base proposed) ≡ first ∷ rest
    → topo_order base proposed ≡ some r
    → find_earliest_divergence base proposed
      ≡ some (earliest (changed_names (compute_pipeline_diff base proposed)) r)
unfolding find_earliest_divergence
find_earliest_divergence_steps base proposed first rest r e ordered =
    rw (find_earliest_divergence, e, ordered) (ground arith)

earliest-none :
    (changed order : List String) (first : String) (rest : List String)
    → changed ≡ first ∷ rest
    → find (includes changed) order ≡ none
    → earliest changed order ≡ some first
unfolding earliest
earliest-none changed order first rest e f = rw (f, earliest, e) refl

earliest-some :
    (changed order : List String) (n : String)
    → find (includes changed) order ≡ some n
    → earliest changed order ≡ some n
unfolding earliest
earliest-some changed order n f = rw (f, earliest) refl

-- For any two pipelines whose wires together let a rank of the stages rise along every one between
-- two of their stages, the search returns nothing exactly where no stage changed, and else a stage
-- that changed and to which no chain of such wires leads from a stage that changed.
pub find_earliest_divergence_correct :
    (base proposed : Pipeline) (rank : String → ℕ)
    → ((a b : String) → Joins base proposed a b → rank a < rank b)
    → let changed = changed_names (compute_pipeline_diff base proposed) in
      ((find_earliest_divergence base proposed ≡ some none) × (changed ≡ []))
      ⊎ ((n : String) × (find_earliest_divergence base proposed ≡ some (some n))
          × In n changed
          × ((a : String) → In a changed → ¬ Leads base proposed a n))
unfolding find_earliest_divergence
find_earliest_divergence_correct base proposed rank up =
    let changed = changed_names (compute_pipeline_diff base proposed) in
    let (r, ordered, order) = topo_order_lem base proposed in
    elim (List-cases changed) [
      | inl e ↦ inl (rw (find_earliest_divergence, e) refl, e)
      | inr (first, rest, e) ↦ elim (Option-cases (find (includes changed) r)) [
        | inl f ↦ inr (
          first,
          find_earliest_divergence_steps base proposed first rest r e ordered
              ∙ ap some (earliest-none changed r first rest e f),
          rw e (inl refl),
          λ a m l.
              none_found base proposed changed r f first
                (ranked base proposed r order rank up (suc (rank first)) first (omega arith)
                  (ends_at base proposed a first l))
                (rw e (inl refl)),
        )
        | inr (n, f) ↦
            let (hit, apart) =
              first_changed base proposed changed [] r n order.topo (λ x y m j. absurd m)
                (λ x m. absurd m) f in
            inr (
              n,
              find_earliest_divergence_steps base proposed first rest r e ordered
                  ∙ ap some (earliest-some changed r n f),
              hit,
              apart,
            )
      ]
    ]
