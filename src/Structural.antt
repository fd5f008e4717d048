-- ===== src/Structural.antt =====
-- The structural rules on a pipeline: apps/server/src/kernel-next/validator/structural.ts.
-- A diagnostic keeps its code and the values of its context; its message is a text made of these.
-- The keys `${stage}.${port}.in` are triples here: the schema's names hold no dot.
pub mod Silence
pub mod Names
pub mod Stages
pub mod Wiring
pub mod Ancestors
pub mod Sessions
pub mod EnvKeys
pub mod Accepted
pub mod Verdict
mod Samples
use workflow_control.Prelude.{
  Option, String, ℕ, Bool, List, [], ◌∷◌, if◌then◌else◌, includes, set_add,
}
use workflow_control.Ir.{WireSource, WireTarget}

pub data PortSide : Type 0 where
  in_side out_side : PortSide

pub data StageType : Type 0 where
  agent_type script_type gate_type : StageType

pub data Diagnostic : Type 0 where
  duplicate_stage_name : (stage : String) → Diagnostic
  entry_stage_missing : (entry : String) → Diagnostic
  reserved_stage_name : (stage : String) → Diagnostic
  reserved_external_input : (port : String) → Diagnostic
  duplicate_external_input_name : (port : String) → Diagnostic
  external_input_collides_with_stage : (port : String) → Diagnostic
  duplicate_port_name : (stage port : String) (direction : PortSide) → Diagnostic
  gate_fanout_forbidden : (stage : String) → Diagnostic
  gate_output_reserved : (stage : String) → Diagnostic
  gate_routing_target_missing : (stage answer target : String) → Diagnostic
  fanout_input_missing : (stage fanout_input : String) → Diagnostic
  fanout_input_not_wired : (stage fanout_input : String) → Diagnostic
  script_module_not_registered : (stage module_id : String) (registered : List String) → Diagnostic
  gate_rollback_mixed_targets :
      (stage answer : String) (targets : List String) (ancestor_mask : List Bool) → Diagnostic
  wire_external_source_port_missing : (from : WireSource) → Diagnostic
  wire_source_port_missing : (from : WireSource) (stage_exists : Bool) → Diagnostic
  wire_source_direction_wrong : (from : WireSource) → Diagnostic
  wire_target_port_missing : (to : WireTarget) (stage_exists : Bool) → Diagnostic
  wire_target_direction_wrong : (to : WireTarget) → Diagnostic
  wire_target_already_driven : (to : WireTarget) → Diagnostic
  empty_dataflow : (stage_count : ℕ) → Diagnostic
  cross_segment_requires_single : (stage : String) → Diagnostic
  cross_segment_target_not_found : (stage target : String) → Diagnostic
  cross_segment_target_not_agent :
      (stage target : String) (target_type : Option StageType) → Diagnostic
  cross_segment_target_not_reachable : (stage target : String) → Diagnostic
  cross_segment_target_same_segment : (stage target : String) → Diagnostic
  envkey_not_referenced : (stage server env_key : String) → Diagnostic

-- if (test) diagnostics.push(d)
abbrev pub report : Bool → Diagnostic → List Diagnostic
report t d = if t then d ∷ [] else []

-- The loop with a set of the names seen so far.
unfoldable pub duplicates :
    (String → Diagnostic) → (seen : List String) → List String → List Diagnostic
duplicates d seen [] = []
duplicates d seen (n ∷ ns) =
    let rest = duplicates d (set_add seen n) ns in if includes seen n then d n ∷ rest else rest
