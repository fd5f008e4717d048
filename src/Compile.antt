-- ===== src/Compile.antt =====
-- What the compiler makes of a pipeline before it builds the machine: the ancestors of each gate, the
-- index of stages, the targets of each gate, the rollback of each gate and the first context
-- (apps/server/src/kernel-next/compiler/ir-to-machine.ts). The loops take what is next from a
-- worklist, with rounds for each wire as fuel; `none` means that it ran out.
pub mod Feeds
pub mod Ancestors
pub mod Index
pub mod Forward
pub mod Routed
pub mod Downstream
pub mod Rollback
pub mod Routing
pub mod Values
pub mod Build
pub mod Samples
use Prim.Native.String.{◌++◌ as ◌+++◌}
use workflow_control.Prelude.{
  String, ℕ, zero, suc, ◌+◌, Option, none, some, List, [], ◌∷◌, ◌++◌, map, foldl, ◌==◌, includes,
  set_add, all, length, nat_eq, map_get, map_set, if◌then◌else◌,
}
use workflow_control.Ir.{Pipeline, Stage, Port, Wire, RouteTarget, StageConfig, agent, script, gate}
use workflow_control.Ir.Wires.{wire_from_stage, source_port, wire_source_key_prefix}
use workflow_control.Reach.{Search}
use workflow_control.Segments.{or_empty, stage_names}
use workflow_control.Structural.Ancestors.{down_adjacency}
use workflow_control.Structural.Sessions.{note_feed}
use workflow_control.Structural.Wiring.{type_of}
use workflow_control.Structural.Stages.{targets_of}
use workflow_control.Machine.Context.{StageMeta, InboundWire}

-- upstreamOf: the stages one wire before each stage, the feedback of gates left out.
unfoldable pub note_up : List (String × List String) → Wire → List (String × List String)
note_up ups w = elim (wire_from_stage w) [
  | none ↦ ups
  | some from ↦ if source_port w.from == "__gate_feedback__" then ups else note_feed ups w
]

unfoldable pub upstream_of : Pipeline → List (String × List String)
unfolding note_up
upstream_of ir = foldl note_up (foldl (λ m n. map_set m n []) [] (stage_names ir)) ir.wires

-- `frontier` with its end first.
unfoldable pub push_unseen : List String → List String → List String → List String
push_unseen seen frontier [] = frontier
push_unseen seen frontier (u ∷ ups) =
    push_unseen seen (if includes seen u then frontier else u ∷ frontier) ups

unfoldable pub walk_up : List (String × List String) → ℕ → Search → Option (List String)
unfolding push_unseen
walk_up ups zero s = elim s.queue [ [] ↦ some s.visited | _ ∷ _ ↦ none ]
walk_up ups (suc fuel) s = elim s.queue [
  | [] ↦ some s.visited
  | cur ∷ rest ↦ walk_up ups fuel (
      if includes s.visited cur then record s { queue = rest } else record {
        visited = s.visited ++ cur ∷ [];
        queue = push_unseen (s.visited ++ cur ∷ []) rest (or_empty (map_get ups cur));
      })
]

-- The ancestors of one gate.
unfoldable pub ancestors_of : Pipeline → (gate : String) → Option (List String)
unfolding walk_up push_unseen
ancestors_of ir g =
    walk_up (upstream_of ir) (length ir.wires + length ir.wires)
      (record { visited = []; queue = push_unseen [] [] (or_empty (map_get (upstream_of ir) g)) })

abbrev pub routes_of : StageConfig → Option (List (String × RouteTarget))
routes_of (agent c) = none
routes_of (script c) = none
routes_of (gate c) = some c.routing.routes

unfoldable pub gather_ancestors :
    Pipeline → List (String × List String) → List Stage → Option (List (String × List String))
gather_ancestors ir found [] = some found
gather_ancestors ir found (s ∷ stages) =
    let skipped = gather_ancestors ir found stages in
    elim (routes_of s.config) [
      | none ↦ skipped
      | some routes ↦ elim (ancestors_of ir s.name) [
        | none ↦ none
        | some seen ↦ gather_ancestors ir (map_set found s.name seen) stages
      ]
    ]

unfoldable pub compute_gate_ancestors : Pipeline → Option (List (String × List String))
unfolding gather_ancestors
compute_gate_ancestors ir = gather_ancestors ir [] ir.stages

-- gateRoutedTargets
unfoldable pub add_forward : (ancestors : List String) → List String → List String → List String
add_forward ancestors routed [] = routed
add_forward ancestors routed (t ∷ ts) =
    add_forward ancestors (if includes ancestors t then routed else set_add routed t) ts

unfoldable pub add_routes :
    (ancestors : List String) → List String → List (String × RouteTarget) → List String
unfolding add_forward
add_routes ancestors routed [] = routed
add_routes ancestors routed ((answer, target) ∷ routes) =
    add_routes ancestors (add_forward ancestors routed (targets_of target)) routes

unfoldable pub gate_routed_targets :
    (ancestors : List (String × List String)) → List String → List Stage → List String
unfolding add_routes
gate_routed_targets ancestors routed [] = routed
gate_routed_targets ancestors routed (s ∷ stages) =
    gate_routed_targets ancestors
      (elim (routes_of s.config) [
        | none ↦ routed
        | some routes ↦ add_routes (or_empty (map_get ancestors s.name)) routed routes
      ])
      stages

abbrev pub port_key : (stage port : String) → String
port_key stage port = stage +++ ("." +++ port)

abbrev pub blank_meta : (routed : List String) → Stage → StageMeta
blank_meta routed s = record {
  stage_type = type_of s.config;
  inbound = [];
  outbound = map (λ (p : Port). port_key s.name p.name) s.outputs;
  gate_routed = includes routed s.name;
}

abbrev pub inbound_wire : Wire → InboundWire
inbound_wire w = record {
  source_key = port_key (wire_source_key_prefix w) (source_port w.from);
  from = record { stage = wire_source_key_prefix w; port = source_port w.from };
  to = w.to;
  guard = w.guard;
}

unfoldable pub add_inbound : List (String × StageMeta) → Wire → List (String × StageMeta)
add_inbound index w = elim (map_get index w.to.stage) [
  | none ↦ index
  | some entry ↦
      map_set index w.to.stage (record entry { inbound = entry.inbound ++ inbound_wire w ∷ [] })
]

unfoldable pub index_with : (routed : List String) → Pipeline → List (String × StageMeta)
unfolding add_inbound
index_with routed ir =
    foldl add_inbound (foldl (λ m (s : Stage). map_set m s.name (blank_meta routed s)) [] ir.stages)
      ir.wires

unfoldable pub index_stages : Pipeline → Option (List (String × StageMeta))
unfolding compute_gate_ancestors gate_routed_targets index_with
index_stages ir = elim (compute_gate_ancestors ir) [
  | none ↦ none
  | some ancestors ↦ some (index_with (gate_routed_targets ancestors [] ir.stages) ir)
]

-- gateRoutingMap
abbrev pub all_targets : List (String × RouteTarget) → List String
all_targets [] = []
all_targets ((answer, target) ∷ routes) = targets_of target ++ all_targets routes

unfoldable pub gate_routing_map :
    List (String × List String) → List Stage → List (String × List String)
gate_routing_map found [] = found
gate_routing_map found (s ∷ stages) =
    gate_routing_map
      (elim (routes_of s.config) [
        | none ↦ found
        | some routes ↦ map_set found s.name (all_targets routes)
      ])
      stages

-- bfsDownstream, over the adjacency that the rule on mixed targets also builds.
unfoldable pub queue_next : Search → String → Search
queue_next s n =
    if includes s.visited n
    then s
    else record { visited = s.visited ++ n ∷ []; queue = s.queue ++ n ∷ [] }

unfoldable pub walk_down : List (String × List String) → ℕ → Search → Option (List String)
unfolding queue_next
walk_down adj zero s = elim s.queue [ [] ↦ some s.visited | _ ∷ _ ↦ none ]
walk_down adj (suc fuel) s = elim s.queue [
  | [] ↦ some s.visited
  | cur ∷ rest ↦
      walk_down adj fuel (foldl queue_next (record s { queue = rest }) (or_empty (map_get adj cur)))
]

unfoldable pub bfs_downstream : List Wire → (start : String) → Option (List String)
unfolding walk_down
bfs_downstream wires start =
    walk_down (down_adjacency [] wires) (suc (length wires))
      (record { visited = start ∷ []; queue = start ∷ [] })

pub record RejectRollback : Type 0 where
  pub answer : String
  pub target_stages : List String
  pub affected_stages : List String

unfoldable pub downstream_sets : List Wire → List String → Option (List (List String))
unfolding bfs_downstream
downstream_sets wires [] = some []
downstream_sets wires (t ∷ ts) = elim (bfs_downstream wires t) [
  | none ↦ none
  | some d ↦ elim (downstream_sets wires ts) [ none ↦ none | some ds ↦ some (d ∷ ds) ]
]

abbrev pub union_all : List String → List (List String) → List String
union_all affected [] = affected
union_all affected (d ∷ ds) = union_all (foldl set_add affected d) ds

-- The first answer of a gate whose targets all lie before it.
unfoldable pub find_rollback :
    List Wire → (gate : String) → List (String × RouteTarget) → Option (Option RejectRollback)
unfolding downstream_sets
find_rollback wires g [] = some none
find_rollback wires g ((answer, target) ∷ routes) =
    let later = find_rollback wires g routes in
    if nat_eq (length (targets_of target)) 0
    then later
    else elim (downstream_sets wires (targets_of target)) [
      | none ↦ none
      | some sets ↦
          if all (λ (d : List String). includes d g) sets
          then some (
              some (record {
                answer = answer;
                target_stages = targets_of target;
                affected_stages = union_all [] sets;
              }))
          else later
    ]

unfoldable pub reject_rollback_map :
    List Wire
    → List (String × RejectRollback)
    → List Stage
    → Option (List (String × RejectRollback))
unfolding find_rollback
reject_rollback_map wires found [] = some found
reject_rollback_map wires found (s ∷ stages) =
    let unchanged = reject_rollback_map wires found stages in
    elim (routes_of s.config) [
      | none ↦ unchanged
      | some routes ↦ elim (find_rollback wires s.name routes) [
        | none ↦ none
        | some none ↦ unchanged
        | some (some rollback) ↦ reject_rollback_map wires (map_set found s.name rollback) stages
      ]
    ]
