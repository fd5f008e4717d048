-- ===== src/Ir/Wires.antt =====
-- apps/server/src/kernel-next/ir/wire-helpers.ts, and the port of a wire's source.
-- A wire whose `from.source` is missing is read as stage-sourced, as the schema's preprocess does.
use workflow_control.Prelude.{String, Option, none, some, Bool, true, false}
use workflow_control.Ir.{Wire, WireSource, stage, external}

abbrev pub source_stage : WireSource → Option String
source_stage (stage s p) = some s
source_stage (external p) = none

abbrev pub source_port : WireSource → String
source_port (stage s p) = p
source_port (external p) = p

abbrev pub wire_from_stage : Wire → Option String
wire_from_stage w = source_stage w.from

abbrev is_stage_source : WireSource → Bool
is_stage_source (stage s p) = true
is_stage_source (external p) = false

unfoldable pub is_stage_sourced_wire : Wire → Bool
is_stage_sourced_wire w = is_stage_source w.from

abbrev source_key_prefix : WireSource → String
source_key_prefix (stage s p) = s
source_key_prefix (external p) = "__external__"

unfoldable pub wire_source_key_prefix : Wire → String
wire_source_key_prefix w = source_key_prefix w.from
