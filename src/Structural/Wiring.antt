-- ===== src/Structural/Wiring.antt =====
-- The rules on wires, and the rule against a pipeline through which nothing flows.
pub mod Correct
use workflow_control.Prelude.{
  String, Option, none, some, Bool, true, false, not, ◌&&◌, ◌||◌, List, [], ◌∷◌, ◌++◌, ◌==◌,
  includes, any, length, nat_eq, map_get, map_set, if◌then◌else◌,
}
use workflow_control.Ir.{
  Pipeline, Stage, Wire, WireSource, WireTarget, StageConfig, agent, script, gate, stage, external,
}
use workflow_control.Segments.{stage_names}
use workflow_control.Structural.{
  StageType, agent_type, script_type, gate_type, Diagnostic, PortSide, in_side, out_side, report,
  wire_external_source_port_missing, wire_source_port_missing, wire_source_direction_wrong,
  wire_target_port_missing, wire_target_direction_wrong, wire_target_already_driven, empty_dataflow,
}
use workflow_control.Structural.Names.{port_names, inputs_of, external_names}

abbrev pub type_of : StageConfig → StageType
type_of (agent c) = agent_type
type_of (script c) = script_type
type_of (gate c) = gate_type

-- stageTypeByName: of stages with one name the last counts.
unfoldable pub stage_types : List (String × StageType) → List Stage → List (String × StageType)
stage_types types [] = types
stage_types types (s ∷ stages) = stage_types (map_set types s.name (type_of s.config)) stages

abbrev pub side_names : PortSide → Stage → List String
side_names in_side s = port_names s.inputs
side_names out_side s = port_names s.outputs

-- portIndex.has(`${stage}.${port}.${side}`)
unfoldable pub has_port : List Stage → PortSide → (stage port : String) → Bool
has_port [] side a p = false
has_port (s ∷ stages) side a p =
    (s.name == a && includes (side_names side s) p) || has_port stages side a p

abbrev is_gate_type : Option StageType → Bool
is_gate_type none = false
is_gate_type (some agent_type) = false
is_gate_type (some script_type) = false
is_gate_type (some gate_type) = true

abbrev pub is_gate_feedback : List Stage → (stage port : String) → Bool
is_gate_feedback stages a p =
    p == "__gate_feedback__" && is_gate_type (map_get (stage_types [] stages) a)

unfoldable pub source_diagnostics : Pipeline → WireSource → List Diagnostic
unfolding stage_types has_port external_names
source_diagnostics ir (external p) =
    report (not (includes (external_names [] (port_names (inputs_of ir))) p))
      (wire_external_source_port_missing (external p))
source_diagnostics ir (stage a p) =
    if is_gate_feedback ir.stages a p
    then []
    else if not (has_port ir.stages out_side a p) && not (has_port ir.stages in_side a p)
    then wire_source_port_missing (stage a p) (includes (stage_names ir) a) ∷ []
    else if not (has_port ir.stages out_side a p) && has_port ir.stages in_side a p
    then wire_source_direction_wrong (stage a p) ∷ []
    else []

unfoldable pub target_diagnostics : Pipeline → WireTarget → List Diagnostic
unfolding has_port
target_diagnostics ir t =
    if not (has_port ir.stages in_side t.stage t.port)
      && not (has_port ir.stages out_side t.stage t.port)
    then wire_target_port_missing t (includes (stage_names ir) t.stage) ∷ []
    else if not (has_port ir.stages in_side t.stage t.port)
        && has_port ir.stages out_side t.stage t.port
    then wire_target_direction_wrong t ∷ []
    else []

abbrev pub same_target : WireTarget → WireTarget → Bool
same_target t u = t.stage == u.stage && t.port == u.port

-- drivenInputs holds the targets of the wires before this one.
unfoldable pub wire_diagnostics :
    Pipeline → (driven : List WireTarget) → List Wire → List Diagnostic
unfolding source_diagnostics target_diagnostics
wire_diagnostics ir driven [] = []
wire_diagnostics ir driven (w ∷ ws) =
    source_diagnostics ir w.from
    ++ target_diagnostics ir w.to
    ++ report (any (same_target w.to) driven) (wire_target_already_driven w.to)
    ++ wire_diagnostics ir (w.to ∷ driven) ws

abbrev pub has_ports : Stage → Bool
has_ports s = not (nat_eq (length s.inputs) 0) || not (nat_eq (length s.outputs) 0)

unfoldable pub dataflow_diagnostics : Pipeline → List Diagnostic
dataflow_diagnostics ir =
    report
      (nat_eq (length ir.wires) 0
        && nat_eq (length (inputs_of ir)) 0
        && not (any has_ports ir.stages))
      (empty_dataflow (length ir.stages))
