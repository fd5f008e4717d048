-- ===== src/Dag/Seeds.antt =====
-- Kahn's algorithm on the edges of the check: it starts with the stages that no edge leads to.
use workflow_control.Prelude.{
  String, some, true, List, [], ◌∷◌, ◌≡◌, refl, sym, ◌∙◌, ◌↔◌, inr, eq_iff, length, In, Distinct,
  map_get, map_has, keys, length-map, arith,
}
use workflow_control.Ir.{Pipeline, Stage}
use workflow_control.Kahn.{degree}
use workflow_control.Kahn.Counts.{pending}
use workflow_control.Kahn.Correct.{IsOrder, IsRunning, run_lem}
use workflow_control.Segments.{stage_names}
use workflow_control.Segments.Topo.{push-IsEnqueue}
use workflow_control.Dag.{Edges, sets_of, sizes, seeds, downs, kahn, sort_names}
use workflow_control.Dag.Sort.{In-sort_names, count-sort_names, Distinct-sort_names}
use workflow_control.Dag.Links.{DagEdge, IsEdges}

degree-sizes :
    (m : List (String × List String)) (x : String) → degree (sizes m) x ≡ length (sets_of m x)
unfolding degree sizes map_get
degree-sizes [] x = refl
degree-sizes ((k, l) ∷ m) x = ground (arith, degree-sizes m x)

keys-has : (m : List (String × List String)) (x : String) → In x (keys m) → map_has m x ≡ true
unfolding map_get
keys-has [] x h = absurd h
keys-has ((k, l) ∷ m) x h = ground (arith, eq_iff k x, keys-has m x)

seeds-keys : (m : List (String × List String)) (x : String) → In x (seeds (sizes m)) → In x (keys m)
unfolding sizes seeds
seeds-keys [] x h = absurd h
seeds-keys ((k, l) ∷ m) x h = ground (arith, seeds-keys m x)

Distinct-seeds : (m : List (String × List String)) → Distinct (keys m) → Distinct (seeds (sizes m))
unfolding sizes seeds
Distinct-seeds [] d = tt
Distinct-seeds ((k, l) ∷ m) d = ground (arith, Distinct-seeds m, seeds-keys m k)

seeds-zero :
    (m : List (String × List String)) (x : String)
    → Distinct (keys m)
    → In x (seeds (sizes m))
    → degree (sizes m) x ≡ 0
unfolding sizes seeds degree map_get
seeds-zero [] x d h = absurd h
seeds-zero ((k, l) ∷ m) x d h = ground (arith, eq_iff k x, seeds-zero m x, seeds-keys m x)

zero-seeds :
    (m : List (String × List String)) (x : String)
    → map_has m x ≡ true
    → degree (sizes m) x ≡ 0
    → In x (seeds (sizes m))
unfolding sizes seeds degree map_get
zero-seeds [] x h z = cc
zero-seeds ((k, l) ∷ m) x h z = ground (arith, eq_iff k x, zero-seeds m x)

pending-sort :
    (s : String → List String) (ps : List String) (x : String)
    → pending (λ n. sort_names (s n)) ps [] x ≡ pending s ps [] x
pending-sort s [] x = refl
pending-sort s (p ∷ ps) x = ground (arith, pending-sort s ps x, count-sort_names x (s p))

module _ (ir : Pipeline) (d : Distinct (stage_names ir)) (g : Edges)
    (h : IsEdges (stage_names ir) d (DagEdge ir.wires) g) where
  started : IsRunning (downs g) (stage_names ir) (record {
    degrees = sizes g.upstream;
    queue = sort_names (seeds (sizes g.upstream));
    out = [];
  })
  started = record {
    degrees = λ x m.
        degree-sizes g.upstream x
        ∙ h.counted x
        ∙ sym (pending-sort (sets_of g.downstream) (stage_names ir) x);
    free = record {
      distinct = Distinct-sort_names (seeds (sizes g.upstream)) (Distinct-seeds g.upstream h.keyed);
      free =
          λ x m. seeds-zero g.upstream x h.keyed ((In-sort_names x (seeds (sizes g.upstream))).0 m);
    };
    queued = λ x m. (
      (h.has_up x).0 (
          keys-has g.upstream x
            (seeds-keys g.upstream x ((In-sort_names x (seeds (sizes g.upstream))).0 m))),
      λ o. o,
    );
    ready = λ x m z. inr (
        (In-sort_names x (seeds (sizes g.upstream))).1
          (zero-seeds g.upstream x ((h.has_up x).1 m) z));
    done = λ x o. absurd o;
    listed = λ x o. absurd o;
    once = tt;
    topo = tt;
  }

  pub downs_iff : (a b : String) → In b (downs g a) ↔ DagEdge ir.wires a b
  downs_iff a b = (
    λ m. (h.edges a b).0 ((In-sort_names b (sets_of g.downstream a)).0 m),
    λ e. (In-sort_names b (sets_of g.downstream a)).1 ((h.edges a b).1 e),
  )

  pub kahn_lem :
      (r : List String) × (kahn g (length ir.stages) ≡ some r)
      × IsOrder (downs g) (stage_names ir) r
  unfolding kahn
  kahn_lem =
      run_lem (downs g) (stage_names ir) push-IsEnqueue d
        (λ n x m s. (h.inside n x ((downs_iff n x).0 s)).1) (length ir.stages) _ started
        (omega (arith, length-map ir.stages (λ (s : Stage). s.name)))
