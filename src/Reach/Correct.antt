-- ===== src/Reach/Correct.antt =====
-- What the two searches return.
use workflow_control.Prelude.{
  String, suc, some, List, [], ◌∷◌, ◌++◌, ◌≡◌, ◌≢◌, refl, sym, subst, ◌↔◌, inl, inr, eq_iff,
  eq_self, includes, includes_iff, not_includes, length, map, In, In-append, Distinct, Bool-cases,
  arith,
}
use workflow_control.Ir.{Pipeline, Stage, Wire}
use workflow_control.Reach.{
  passes_start, topo_downstream, compute_transitive_downstreams, compute_wire_transitive_readers,
}
use workflow_control.Reach.Scan.{IsSkip, unseen-le-length}
use workflow_control.Reach.Loop.{Reaches, here, IsSearched, IsAnswer, loop_lem, loop_last_lem}

passes_start-IsSkip : (start : String) → IsSkip (passes_start start) (λ x. x ≢ start)
passes_start-IsSkip start = record {
  add = λ v n x. ground (
    arith,
    includes_iff (v ++ n ∷ []) x,
    includes_iff v x,
    In-append x v (n ∷ []),
    eq_iff x start,
  );
  fresh = λ v n e. ground (arith, includes_iff v n, eq_iff n start);
}

includes-IsSkip : IsSkip includes (λ x. Unit)
includes-IsSkip = record {
  add = λ v n x.
      ground (arith, includes_iff (v ++ n ∷ []) x, includes_iff v x, In-append x v (n ∷ []));
  fresh = λ v n e. ground (arith, includes_iff v n);
}

topo_starts :
    (wires : List Wire) (start : String)
    → IsSearched
        (passes_start-IsSkip start)
        (λ x. x ≡ start)
        wires
        start
        (record { visited = []; queue = start ∷ [] })
unfolding includes
topo_starts wires start = record {
  started = eq_self start;
  sound = λ x e. subst (Reaches wires start) (sym ((eq_iff x start).0 e)) here;
  queued = λ x q. ground (arith, eq_iff x start);
  closed = λ x e. inl (inl (sym ((eq_iff x start).0 e)));
  fresh = λ x v. absurd v;
  listed = λ x e. inl ((eq_iff x start).0 e);
  marked = λ x v. absurd v;
  distinct = tt;
}

listed_iff :
    (wires : List Wire) (start : String) (r : List String)
    → IsAnswer (passes_start-IsSkip start) (λ x. x ≡ start) wires start r
    → (x : String) → In x r ↔ (Reaches wires start x × (x ≢ start))
listed_iff wires start r h x =
    (h.sound x, λ p. elim (h.complete x p.0) [ inl q ↦ absurd (p.1 q) | inr v ↦ v ])

-- `topoDownstream` returns, for every list of wires, each stage other than the start that a path
-- of stage-sourced wires leads to from the start: every such stage, no other, and each once.
pub topo_downstream_correct :
    (wires : List Wire) (start : String)
    → (r : List String) × (topo_downstream wires start ≡ some r)
      × ((x : String) → In x r ↔ (Reaches wires start x × (x ≢ start)))
      × Distinct r
unfolding topo_downstream
topo_downstream_correct wires start =
    let law = passes_start-IsSkip start in
    let (r, e, h) =
      loop_lem law (λ x. x ≡ start) wires start (suc (length wires)) _ (topo_starts wires start)
        (omega (arith, unseen-le-length law [] wires)) in
    (r, e, listed_iff wires start r h, h.distinct)

-- `computeTransitiveDownstreams` returns each stage other than the failed one that a path of
-- stage-sourced wires leads to from it: every such stage, no other, and each once.
pub compute_transitive_downstreams_correct :
    (wires : List Wire) (failed : String)
    → (r : List String) × (compute_transitive_downstreams wires failed ≡ some r)
      × ((x : String) → In x r ↔ (Reaches wires failed x × (x ≢ failed)))
      × Distinct r
unfolding compute_transitive_downstreams
compute_transitive_downstreams_correct wires failed =
    let law = passes_start-IsSkip failed in
    let (r, e, h) =
      loop_last_lem law (λ x. x ≡ failed) wires failed (suc (length wires)) _
        (topo_starts wires failed) (omega (arith, unseen-le-length law [] wires)) in
    (r, e, listed_iff wires failed r h, h.distinct)

readers_start :
    (wires : List Wire) (start : String)
    → IsSearched includes-IsSkip
        (λ x. ⊥)
        wires
        start
        (record { visited = start ∷ []; queue = start ∷ [] })
readers_start wires start = record {
  started = (includes_iff (start ∷ []) start).1 (inl refl);
  sound = λ x e. subst (Reaches wires start) (ground (arith, includes_iff (start ∷ []) x)) here;
  queued = λ x q. ground (arith, includes_iff (start ∷ []) x);
  closed = λ x e. inl (inl (ground (arith, includes_iff (start ∷ []) x)));
  fresh = λ x v. tt;
  listed = λ x e. inr ((includes_iff (start ∷ []) x).0 e);
  marked = λ x v. ground (arith, includes_iff (start ∷ []) x);
  distinct = (λ m. m, tt);
}

-- `computeWireTransitiveReaders` returns the start and every stage that a path of stage-sourced
-- wires leads to from it, each once, where the start is a stage of the pipeline, and the empty
-- set where it is not.
pub compute_wire_transitive_readers_correct :
    (ir : Pipeline) (start : String)
    → (r : List String) × (compute_wire_transitive_readers ir start ≡ some r)
      × ((x : String)
          → In x r ↔ (In start (map (λ (s : Stage). s.name) ir.stages) × Reaches ir.wires start x))
      × Distinct r
unfolding compute_wire_transitive_readers
compute_wire_transitive_readers_correct ir start =
    elim (Bool-cases (includes (map (λ (s : Stage). s.name) ir.stages) start)) [
      | inl e ↦ rw e (
          let (r, p, h) =
            loop_lem includes-IsSkip (λ x. ⊥) ir.wires start (suc (length ir.wires)) _
              (readers_start ir.wires start)
              (omega (arith, unseen-le-length includes-IsSkip (start ∷ []) ir.wires)) in
          (
            r,
            p,
            λ x. (
              λ m. ((includes_iff _ start).0 e, (h.sound x m).0),
              λ q. elim (h.complete x q.1) [ inl never ↦ absurd never | inr v ↦ v ],
            ),
            h.distinct,
          ))
      | inr e ↦
          rw e ([], refl, λ x. ((λ m. absurd m), λ q. absurd (not_includes _ start e q.0)), tt)
    ]
