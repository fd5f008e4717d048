-- ===== src/Structural/Stages.antt =====
-- The rules on a stage by its type: gates, fanout and registered scripts.
pub mod Correct
use workflow_control.Prelude.{
  String, Option, none, some, Bool, not, ◌&&◌, List, [], ◌∷◌, ◌++◌, ◌==◌, includes, any, is_some,
  if◌then◌else◌,
}
use workflow_control.Ir.{
  Stage, Wire, StageConfig, agent, script, gate, GateConfig, ScriptConfig, registry, inline,
  RouteTarget, one, many,
}
use workflow_control.Structural.{
  Diagnostic, report, gate_fanout_forbidden, gate_output_reserved, gate_routing_target_missing,
  fanout_input_missing, fanout_input_not_wired, script_module_not_registered,
}
use workflow_control.Structural.Names.{port_names}

-- Array.isArray(rawTarget) ? rawTarget : [rawTarget]
abbrev pub targets_of : RouteTarget → List String
targets_of (one t) = t ∷ []
targets_of (many ts) = ts

unfoldable pub missing_targets :
    (names : List String) (stage answer : String) → List String → List Diagnostic
missing_targets names stage answer [] = []
missing_targets names stage answer (t ∷ ts) =
    let rest = missing_targets names stage answer ts in
    if not (includes names t) then gate_routing_target_missing stage answer t ∷ rest else rest

unfoldable pub missing_routes :
    (names : List String) (stage : String) → List (String × RouteTarget) → List Diagnostic
unfolding missing_targets
missing_routes names stage [] = []
missing_routes names stage ((answer, target) ∷ routes) =
    missing_targets names stage answer (targets_of target) ++ missing_routes names stage routes

unfoldable pub gate_diagnostics : (names : List String) → Stage → GateConfig → List Diagnostic
unfolding missing_routes
gate_diagnostics names s config =
    report (is_some s.fanout) (gate_fanout_forbidden s.name)
    ++ report (includes (port_names s.outputs) "__gate_feedback__") (gate_output_reserved s.name)
    ++ missing_routes names s.name config.routing.routes

abbrev pub delivers : (stage port : String) → Wire → Bool
delivers stage port w = w.to.stage == stage && w.to.port == port

unfoldable pub fanout_diagnostics : List Wire → Stage → List Diagnostic
fanout_diagnostics wires s = elim s.fanout [
  | none ↦ []
  | some f ↦
      if not (includes (port_names s.inputs) f.input)
      then fanout_input_missing s.name f.input ∷ []
      else report (not (any (delivers s.name f.input) wires))
          (fanout_input_not_wired s.name f.input)
]

-- `allowed` is options.allowedScriptModuleIds, in the order of `sort()`.
unfoldable pub module_diagnostics :
    (allowed : Option (List String)) → (stage : String) → ScriptConfig → List Diagnostic
module_diagnostics none stage c = []
module_diagnostics (some ids) stage (inline source samples retry) = []
module_diagnostics (some ids) stage (registry id retry) =
    report (not (includes ids id)) (script_module_not_registered stage id ids)

abbrev gate_part : (names : List String) → Stage → StageConfig → List Diagnostic
gate_part names s (agent c) = []
gate_part names s (script c) = []
gate_part names s (gate c) = gate_diagnostics names s c

abbrev script_part :
    (allowed : Option (List String)) → (stage : String) → StageConfig → List Diagnostic
script_part allowed stage (agent c) = []
script_part allowed stage (script c) = module_diagnostics allowed stage c
script_part allowed stage (gate c) = []

unfoldable pub stage_diagnostics :
    (allowed : Option (List String)) → (names : List String) → List Wire → Stage → List Diagnostic
unfolding gate_diagnostics fanout_diagnostics module_diagnostics
stage_diagnostics allowed names wires s =
    gate_part names s s.config ++ fanout_diagnostics wires s ++ script_part allowed s.name s.config

unfoldable pub type_diagnostics :
    (allowed : Option (List String))
    → (names : List String) → List Wire
    → List Stage
    → List Diagnostic
unfolding stage_diagnostics
type_diagnostics allowed names wires [] = []
type_diagnostics allowed names wires (s ∷ stages) =
    stage_diagnostics allowed names wires s ++ type_diagnostics allowed names wires stages
