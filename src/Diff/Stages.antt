-- ===== src/Diff/Stages.antt =====
-- `computePipelineDiff` of apps/server/src/kernel-next/hot-update/diff.ts. A removed stage stands for
-- itself and its name.
pub mod Structure
use workflow_control.Prelude.{
  String, none, some, is_some, Bool, true, false, not, ◌&&◌, ◌||◌, List, [], ◌∷◌, ◌++◌, foldl, ◌==◌,
  any, map_get, map_set, if◌then◌else◌,
}
use workflow_control.Ir.{Pipeline, Stage, StageConfig, agent, script, gate, GateRouting}
use workflow_control.Structural.Wiring.{type_of}
use workflow_control.Structural.{StageType, agent_type, script_type, gate_type}
use workflow_control.Diff.{Category, prompt_only, structural, add_category, WireDiff, diff_wires}
use workflow_control.Diff.Ports.{entries_beyond, is_empty}
use workflow_control.Diff.Changes.{same_routes, StageDiffChanges, blank_changes, stage_changes}

pub record RoutingChange : Type 0 where
  pub stage_name : String
  pub before : GateRouting
  pub after : GateRouting

abbrev routing_changes : String → StageConfig → StageConfig → List RoutingChange
routing_changes name (agent c) p = []
routing_changes name (script c) p = []
routing_changes name (gate c) (agent d) = []
routing_changes name (gate c) (script d) = []
routing_changes name (gate c) (gate d) =
    if not (same_routes c.routing.routes d.routing.routes)
    then record { stage_name = name; before = c.routing; after = d.routing } ∷ []
    else []

-- Whether a key other than promptRef is set.
abbrev pub beyond_prompt : StageDiffChanges → Bool
beyond_prompt c =
    is_some c.module_id
    || is_some c.script_source
    || is_some c.module_source
    || is_some c.question
    || is_some c.inputs
    || is_some c.outputs

unfoldable pub classify_stage_category : StageDiffChanges → (has_routing_change : Bool) → Category
classify_stage_category c has_routing =
    if has_routing
    then structural
    else if is_some c.prompt_ref && not (beyond_prompt c)
    then prompt_only
    else structural

pub record StageDiff : Type 0 where
  pub stage_name : String
  pub type : StageType
  pub changes : StageDiffChanges
  pub category : Category

pub record Progress : Type 0 where
  pub modified : List StageDiff
  pub routing : List RoutingChange
  pub categories : List Category

abbrev pub note_change : Progress → StageDiff → Progress
note_change acc d = record acc {
  modified = acc.modified ++ d ∷ [];
  categories = add_category acc.categories d.category;
}

abbrev pub same_type : StageType → StageType → Bool
same_type agent_type agent_type = true
same_type agent_type script_type = false
same_type agent_type gate_type = false
same_type script_type agent_type = false
same_type script_type script_type = true
same_type script_type gate_type = false
same_type gate_type agent_type = false
same_type gate_type script_type = false
same_type gate_type gate_type = true

abbrev pub routed : Progress → String → Stage → Stage → Progress
routed acc name b p = record acc { routing = acc.routing ++ routing_changes name b.config p.config }

unfoldable pub compare_same : Progress → String → (base proposed : Stage) → Progress
unfolding stage_changes classify_stage_category
compare_same acc name b p =
    let acc' = routed acc name b p in
    let changes = stage_changes b p in
    let has_routing = any (λ (r : RoutingChange). r.stage_name == name) acc'.routing in
    if not (is_some changes.prompt_ref || beyond_prompt changes) && not has_routing
    then acc'
    else note_change acc' (record {
      stage_name = name;
      type = type_of p.config;
      changes = changes;
      category = classify_stage_category changes has_routing;
    })

-- The body of the loop over the base's stages.
unfoldable pub compare_stage : List (String × Stage) → Progress → String × Stage → Progress
unfolding compare_same
compare_stage prop_by_name acc (name, b) = elim (map_get prop_by_name name) [
  | none ↦ acc
  | some p ↦
      if not (same_type (type_of b.config) (type_of p.config))
      then note_change acc (record {
        stage_name = name;
        type = type_of p.config;
        changes = blank_changes;
        category = structural;
      })
      else compare_same acc name b p
]

pub record PipelineDiff : Type 0 where
  pub added : List Stage
  pub removed : List Stage
  pub modified : List StageDiff
  pub wires : WireDiff
  pub gate_routing_changed : List RoutingChange
  pub category_union : List Category

-- categoryUnion.add("structural") for each entry of a list
abbrev pub mark : {A : Type 0} → List Category → List A → List Category
mark cs xs = if is_empty xs then cs else add_category cs structural

unfoldable pub by_name : List Stage → List (String × Stage)
by_name = foldl (λ m (s : Stage). map_set m s.name s) []

-- The loop over the stages of the base, after the two loops over added and removed ones.
unfoldable pub compare_stages : (base proposed : List (String × Stage)) → Progress
compare_stages base proposed =
    foldl (compare_stage proposed)
      (record {
        modified = [];
        routing = [];
        categories = mark (mark [] (entries_beyond base proposed)) (entries_beyond proposed base);
      })
      base

unfoldable pub compute_pipeline_diff : (base proposed : Pipeline) → PipelineDiff
compute_pipeline_diff base proposed =
    let compared = compare_stages (by_name base.stages) (by_name proposed.stages) in
    let wires = diff_wires base.wires proposed.wires in
    record {
      added = entries_beyond (by_name base.stages) (by_name proposed.stages);
      removed = entries_beyond (by_name proposed.stages) (by_name base.stages);
      modified = compared.modified;
      wires = wires;
      gate_routing_changed = compared.routing;
      category_union = mark (mark compared.categories wires.added) wires.removed;
    }
