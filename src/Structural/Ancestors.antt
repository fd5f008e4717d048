-- ===== src/Structural/Ancestors.antt =====
-- The rule on an answer of a gate with several targets: all are ancestors of the gate, or none is.
-- A round takes a stage from the queue, and a stage is queued once, by the wire that first leads to
-- it; so a round for each wire and one for the start are given. The outer `none` means that the
-- fuel ran out.
pub mod Rounds
pub mod Correct
pub mod Rule
use workflow_control.Prelude.{
  String, ℕ, zero, suc, Option, none, some, Bool, true, false, not, ◌&&◌, List, [], ◌∷◌, ◌++◌, ◌==◌,
  includes, set_add, all, length, map_get, map_set, ltb, if◌then◌else◌,
}
use workflow_control.Ir.{Stage, Wire, StageConfig, agent, script, gate, RouteTarget, one, many}
use workflow_control.Ir.Wires.{wire_from_stage, source_port}
use workflow_control.Reach.{Search}
use workflow_control.Segments.{or_empty}
use workflow_control.Structural.{Diagnostic, gate_rollback_mixed_targets}

-- The wires that carry the feedback of a gate back are left out.
unfoldable pub down_adjacency :
    List (String × List String) → List Wire → List (String × List String)
down_adjacency adj [] = adj
down_adjacency adj (w ∷ ws) = elim (wire_from_stage w) [
  | none ↦ down_adjacency adj ws
  | some from ↦
      if source_port w.from == "__gate_feedback__"
      then down_adjacency adj ws
      else down_adjacency (map_set adj from (set_add (or_empty (map_get adj from)) w.to.stage)) ws
]

-- The loop over the next stages; `none` is its `return true`.
unfoldable pub expand : (target : String) → List String → Search → Option Search
expand target [] s = some s
expand target (n ∷ ns) s =
    let seen = expand target ns s in
    let new =
      expand target ns (record { visited = s.visited ++ n ∷ []; queue = s.queue ++ n ∷ [] }) in
    if n == target then none else if includes s.visited n then seen else new

unfoldable pub bfs_loop : List (String × List String) → (target : String) → ℕ → Search → Option Bool
unfolding expand
bfs_loop adj target zero s = elim s.queue [ [] ↦ some false | _ ∷ _ ↦ none ]
bfs_loop adj target (suc fuel) s = elim s.queue [
  | [] ↦ some false
  | cur ∷ rest ↦ elim (expand target (or_empty (map_get adj cur)) (record s { queue = rest })) [
    | none ↦ some true
    | some s' ↦ bfs_loop adj target fuel s'
  ]
]

unfoldable pub bfs_reaches : List Wire → (start target : String) → Option Bool
unfolding bfs_loop down_adjacency
bfs_reaches wires start target =
    if start == target
    then some true
    else bfs_loop (down_adjacency [] wires) target (suc (length wires))
        (record { visited = start ∷ []; queue = start ∷ [] })

-- rawTarget.map((t) => bfsReaches(t, s.name))
unfoldable pub ancestor_mask : List Wire → (gate : String) → List String → Option (List Bool)
unfolding bfs_reaches
ancestor_mask wires g [] = some []
ancestor_mask wires g (t ∷ ts) = elim (bfs_reaches wires t g) [
  | none ↦ none
  | some b ↦ elim (ancestor_mask wires g ts) [ none ↦ none | some bs ↦ some (b ∷ bs) ]
]

abbrev pub verdict_on : (stage answer : String) → List String → List Bool → List Diagnostic
verdict_on stage answer ts mask =
    if not (all (λ (b : Bool). b) mask) && not (all not mask)
    then gate_rollback_mixed_targets stage answer ts mask ∷ []
    else []

unfoldable pub mixed_route :
    List Wire → (stage answer : String) → RouteTarget → Option (List Diagnostic)
unfolding ancestor_mask
mixed_route wires stage answer (one t) = some []
mixed_route wires stage answer (many ts) =
    if ltb (length ts) 2 then some [] else elim (ancestor_mask wires stage ts) [
      | none ↦ none
      | some mask ↦ some (verdict_on stage answer ts mask)
    ]

abbrev pub join : Option (List Diagnostic) → Option (List Diagnostic) → Option (List Diagnostic)
join none ys = none
join (some xs) none = none
join (some xs) (some ys) = some (xs ++ ys)

unfoldable pub mixed_routes :
    List Wire → (stage : String) → List (String × RouteTarget) → Option (List Diagnostic)
unfolding mixed_route
mixed_routes wires stage [] = some []
mixed_routes wires stage ((answer, target) ∷ routes) =
    join (mixed_route wires stage answer target) (mixed_routes wires stage routes)

abbrev pub gate_routes : List Wire → (stage : String) → StageConfig → Option (List Diagnostic)
gate_routes wires stage (agent c) = some []
gate_routes wires stage (script c) = some []
gate_routes wires stage (gate c) = mixed_routes wires stage c.routing.routes

unfoldable pub rollback_diagnostics : List Wire → List Stage → Option (List Diagnostic)
unfolding mixed_routes
rollback_diagnostics wires [] = some []
rollback_diagnostics wires (s ∷ stages) =
    join (gate_routes wires s.name s.config) (rollback_diagnostics wires stages)
