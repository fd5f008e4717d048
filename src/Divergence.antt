-- ===== src/Divergence.antt =====
-- The earliest stage that differs between two pipelines:
-- apps/server/src/kernel-next/hot-update/divergence.ts. Every name in the queue is in the tie-break
-- order, so `indexOf` never gives -1 there. The outer `none` means that the fuel ran out.
pub mod Links
pub mod Correct
mod Samples
use workflow_control.Prelude.{
  String, ℕ, suc, ◌+◌, Option, none, some, ◌&&◌, List, [], ◌∷◌, ◌++◌, map, foldl, ◌==◌, includes,
  set_add, length, ltb, nat_eq, keep, find, map_set, if◌then◌else◌,
}
use workflow_control.Ir.{Pipeline, Stage, Wire}
use workflow_control.Ir.Wires.{wire_from_stage}
use workflow_control.Kahn.{degree, run}
use workflow_control.Segments.{Graph, add_node, successors, stage_names}
use workflow_control.Diff.Stages.{PipelineDiff, StageDiff, compute_pipeline_diff}

-- new Set([...])
unfoldable pub set_of : List String → List String
set_of = foldl set_add []

unfoldable pub changed_names : PipelineDiff → List String
unfolding set_of
changed_names d = set_of (
    map (λ (s : Stage). s.name) d.added
    ++ map (λ (s : Stage). s.name) d.removed
    ++ map (λ (m : StageDiff). m.stage_name) d.modified)

unfoldable pub all_stage_names : (base proposed : Pipeline) → List String
unfolding set_of
all_stage_names base proposed = set_of (stage_names base ++ stage_names proposed)

unfoldable pub tie_break_order : (base proposed : Pipeline) → List String
unfolding set_of
tie_break_order base proposed = set_of (stage_names proposed ++ stage_names base)

-- Wires between known stages count, each as often as it stands in the two pipelines.
unfoldable pub link_known : (names : List String) → Graph → Wire → Graph
link_known names g w = elim (wire_from_stage w) [
  | none ↦ g
  | some from ↦
      if includes names from && includes names w.to.stage
      then record {
        in_degree = map_set g.in_degree w.to.stage (degree g.in_degree w.to.stage + 1);
        adjacency = map_set g.adjacency from (successors g from ++ w.to.stage ∷ []);
      }
      else g
]

unfoldable pub combined_graph : (names : List String) → List Wire → Graph
unfolding link_known
combined_graph names wires =
    foldl (link_known names) (foldl add_node (record { in_degree = []; adjacency = [] }) names)
      wires

unfoldable pub index_of : List String → String → ℕ
index_of [] x = 0
index_of (y ∷ ys) x = let rest = index_of ys x in if y == x then 0 else suc rest

-- queue.splice(insertAt, 0, next)
unfoldable pub insert_at : (order : List String) → List String → String → List String
insert_at order [] x = x ∷ []
insert_at order (y ∷ ys) x =
    let rest = insert_at order ys x in
    if ltb (index_of order x) (index_of order y) then x ∷ y ∷ ys else y ∷ rest

unfoldable pub topo_order : (base proposed : Pipeline) → Option (List String)
topo_order base proposed =
    let g = combined_graph (all_stage_names base proposed) (base.wires ++ proposed.wires) in
    run (successors g) (insert_at (tie_break_order base proposed))
      (length (all_stage_names base proposed))
      (record {
        degrees = g.in_degree;
        queue = keep (λ n. nat_eq (degree g.in_degree n) 0) (tie_break_order base proposed);
        out = [];
      })

abbrev pub first_of : List String → Option String
first_of [] = none
first_of (x ∷ xs) = some x

-- The first name of the order that changed, or else the first that changed at all.
unfoldable pub earliest : (changed order : List String) → Option String
earliest changed order = elim (find (includes changed) order) [
  | none ↦ first_of changed
  | some n ↦ some n
]

abbrev pub settle : (changed : List String) → Option (List String) → Option (Option String)
settle changed none = none
settle changed (some order) = some (earliest changed order)

unfoldable pub find_earliest_divergence : (base proposed : Pipeline) → Option (Option String)
find_earliest_divergence base proposed =
    let changed = changed_names (compute_pipeline_diff base proposed) in
    if nat_eq (length changed) 0 then some none else settle changed (topo_order base proposed)
