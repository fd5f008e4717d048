-- ===== src/Segments/Topo.antt =====
-- The order in which the planner walks the stages.
use workflow_control.Prelude.{
  String, ℕ, zero, suc, ◌<◌, some, false, not, List, [], ◌∷◌, ◌++◌, ◌≡◌, refl, ap, subst, ◌↔◌, inl,
  inr, includes, includes_iff, not_includes, length, length_le_of_subset, keep, ltb, nat_eq, In,
  In-append, In-keep, In-keep_intro, Distinct, Distinct-snoc, Distinct-keep, Distinct-append,
  Bool-cases, arith, length-map,
}
use workflow_control.Ir.{Pipeline, Stage, Wire}
use workflow_control.Kahn.{degree, run}
use workflow_control.Kahn.Release.{IsEnqueue}
use workflow_control.Kahn.Correct.{IsTopo, IsOrder, IsRunning, run_lem}
use workflow_control.Segments.{
  stage_names, successors, stage_graph, push, ready_stages, append_missing, topological_stage_order,
}
use workflow_control.Segments.Links.{Link, stage_graph-IsGraph}

pub push-IsEnqueue : IsEnqueue push
push-IsEnqueue = record {
  mem = λ q x y. ground (arith, In-append y q (x ∷ []));
  distinct = Distinct-snoc;
}

module _ (names : List String) (ws : List Wire) where
  -- Each stage of the list stands behind all stages that a wire leads from to it.
  abbrev pub IsOrdered : List String → List String → Type 0
  IsOrdered seen [] = Unit
  IsOrdered seen (b ∷ rest) =
      ((a : String) → Link names ws a b → In a seen) × IsOrdered (seen ++ b ∷ []) rest

  IsTopo-IsOrdered :
      (succ : String → List String) (seen out : List String)
      → ((a b : String) → Link names ws a b → In b (succ a))
      → IsTopo succ names seen out
      → IsOrdered seen out
  IsTopo-IsOrdered succ seen [] h t = tt
  IsTopo-IsOrdered succ seen (b ∷ out) h t =
      (λ a l. t.0 a l.0 (h a b l), IsTopo-IsOrdered succ (seen ++ b ∷ []) out h t.1)

module _ (ir : Pipeline) (d : Distinct (stage_names ir)) where
  started : IsRunning (successors (stage_graph ir)) (stage_names ir) (record {
    degrees = (stage_graph ir).in_degree;
    queue = ready_stages ir (stage_graph ir);
    out = [];
  })
  started = record {
    degrees = λ x m. (stage_graph-IsGraph ir d).counted x;
    free = record {
      distinct =
          Distinct-keep (λ n. nat_eq (degree (stage_graph ir).in_degree n) 0) (stage_names ir) d;
      free = λ x m. ground (
        arith,
        In-keep (λ n. nat_eq (degree (stage_graph ir).in_degree n) 0) x (stage_names ir) m,
      );
    };
    queued = λ x m. (
      (In-keep (λ n. nat_eq (degree (stage_graph ir).in_degree n) 0) x (stage_names ir) m).0,
      λ o. o,
    );
    ready = λ x m z. inr (
        In-keep_intro (λ n. nat_eq (degree (stage_graph ir).in_degree n) 0) x (stage_names ir) m
          (ground arith));
    done = λ x o. absurd o;
    listed = λ x o. absurd o;
    once = tt;
    topo = tt;
  }

  closed :
      (n x : String)
      → In n (stage_names ir)
      → In x (successors (stage_graph ir) n)
      → In x (stage_names ir)
  closed n x m s = (((stage_graph-IsGraph ir d).edges n x).0 s).1

  pub listed_by_run :
      (r : List String) × (run (successors (stage_graph ir)) push (length ir.stages) (record {
        degrees = (stage_graph ir).in_degree;
        queue = ready_stages ir (stage_graph ir);
        out = [];
      })
        ≡ some r)
      × IsOrder (successors (stage_graph ir)) (stage_names ir) r
  listed_by_run =
      run_lem (successors (stage_graph ir)) (stage_names ir) push-IsEnqueue d closed
        (length ir.stages) _ started (omega (arith, length-map ir.stages (λ (s : Stage). s.name)))

  module _ (r : List String)
      (order : IsOrder (successors (stage_graph ir)) (stage_names ir) r) where
    abbrev missing : List String
    missing = keep (λ n. not (includes r n)) (stage_names ir)

    -- A list that is as long as the stages leaves none out.
    all_listed :
        (x : String) → ltb (length r) (length ir.stages) ≡ false → In x (stage_names ir) → In x r
    all_listed x full m = elim (Bool-cases (includes r x)) [
      | inl e ↦ (includes_iff r x).0 e
      | inr e ↦
          let longer =
            length_le_of_subset (x ∷ r) (stage_names ir) (not_includes r x e, order.once)
              (λ y p. elim p [
                | inl q ↦ subst (λ z. In z (stage_names ir)) q m
                | inr q ↦ order.listed y q
              ]) in
          absurd (ground (arith, longer, length-map ir.stages (λ (s : Stage). s.name)))
    ]

    pub append_missing-mem : (x : String) → In x (append_missing ir r) ↔ In x (stage_names ir)
    unfolding append_missing
    append_missing-mem x = elim (Bool-cases (ltb (length r) (length ir.stages))) [
      | inl short ↦ rw short (
          (
            λ m. elim ((In-append x r missing).0 m) [
              | inl o ↦ order.listed x o
              | inr o ↦ (In-keep (λ n. not (includes r n)) x (stage_names ir) o).0
            ],
            λ m. (In-append x r missing).1 (elim (Bool-cases (includes r x)) [
              | inl e ↦ inl ((includes_iff r x).0 e)
              | inr e ↦ inr (In-keep_intro (λ n. not (includes r n)) x (stage_names ir) m (rw e))
            ]),
          ))
      | inr full ↦ rw full (order.listed x, all_listed x full)
    ]

    pub append_missing-Distinct : Distinct (append_missing ir r)
    unfolding append_missing
    append_missing-Distinct = elim (Bool-cases (ltb (length r) (length ir.stages))) [
      | inl short ↦ rw short (
          Distinct-append r missing order.once (Distinct-keep _ (stage_names ir) d) (λ y m o.
            ground
              (arith, In-keep (λ n. not (includes r n)) y (stage_names ir) m, includes_iff r y)))
      | inr full ↦ rw full order.once
    ]

    append_missing_complete :
        ((x : String) → In x (stage_names ir) → In x r) → append_missing ir r ≡ r
    unfolding append_missing
    append_missing_complete all = ground (
      arith,
      length_le_of_subset (stage_names ir) r d all,
      length-map ir.stages (λ (s : Stage). s.name),
    )

    -- Where every wire leads to a higher rank, no stage is left out.
    ranked :
        (rank : String → ℕ)
        → ((a b : String) → Link (stage_names ir) ir.wires a b → rank a < rank b)
        → (k : ℕ) (x : String) → rank x < k
        → In x (stage_names ir)
        → In x r
    ranked rank up zero x lt m = absurd (omega arith)
    ranked rank up (suc k) x lt m = elim (Bool-cases (includes r x)) [
      | inl e ↦ (includes_iff r x).0 e
      | inr e ↦
          let (p, node, out, s) = order.rest x m (not_includes r x e) in
          let link = ((stage_graph-IsGraph ir d).edges p x).0 s in
          absurd (out (ranked rank up k p (omega (arith, up p x link)) node))
    ]

-- For a pipeline whose stage names are distinct, the planner's topological order lists every
-- stage exactly once.
pub topological_stage_order_complete :
    (ir : Pipeline)
    → Distinct (stage_names ir)
    → (r : List String) × (topological_stage_order ir ≡ some r)
      × Distinct r
      × ((x : String) → In x r ↔ In x (stage_names ir))
unfolding topological_stage_order
topological_stage_order_complete ir d =
    let (r, e, order) = listed_by_run ir d in
    (
      append_missing ir r,
      rw (e, topological_stage_order) refl,
      append_missing-Distinct ir d r order,
      append_missing-mem ir d r order,
    )

-- For a pipeline whose stage names are distinct and whose wires have no cycle, that is, where some
-- rank of the stages rises along every stage-sourced wire between two different declared stages,
-- every stage stands in the planner's order behind all stages that a wire leads from to it.
pub topological_stage_order-IsOrdered :
    (ir : Pipeline) (rank : String → ℕ)
    → Distinct (stage_names ir)
    → ((a b : String) → Link (stage_names ir) ir.wires a b → rank a < rank b)
    → (r : List String) × (topological_stage_order ir ≡ some r)
      × IsOrdered (stage_names ir) ir.wires [] r
unfolding topological_stage_order
topological_stage_order-IsOrdered ir rank d up =
    let (r, e, order) = listed_by_run ir d in
    (
      r,
      rw (e, topological_stage_order)
          (ap some (
            append_missing_complete ir d r order
              (λ x. ranked ir d r order rank up (suc (rank x)) x (omega arith)))),
      IsTopo-IsOrdered (stage_names ir) ir.wires (successors (stage_graph ir)) [] r
          (λ a b. ((stage_graph-IsGraph ir d).edges a b).1) order.topo,
    )
