-- ===== src/Compile/Values.antt =====
-- The port values that a run starts with (ir-to-machine.ts, `buildInitialPortValues`).
use workflow_control.Prelude.{
  String, Option, none, some, Bool, false, List, [], foldl, map_get, map_set, if◌then◌else◌,
}
use workflow_control.Ir.{Pipeline, Stage, Port}
use workflow_control.Compile.{routes_of, port_key}

abbrev seed_gate : List (String × String) → Stage → List (String × String)
seed_gate out s = elim (routes_of s.config) [
  | none ↦ out
  | some routes ↦ map_set out (port_key s.name "__gate_feedback__") "\"\""
]

abbrev is_optional : Port → Bool
is_optional p = elim p.optional [ none ↦ false | some b ↦ b ]

abbrev seed_input : List (String × String) → List (String × String) → Port → List (String × String)
seed_input seeds out p = elim (map_get seeds p.name) [
  | some value ↦ map_set out (port_key "__external__" p.name) value
  | none ↦ if is_optional p then map_set out (port_key "__external__" p.name) "null" else out
]

abbrev or_no_ports : Option (List Port) → List Port
or_no_ports none = []
or_no_ports (some ps) = ps

unfoldable pub build_initial_port_values :
    Pipeline → (seeds : Option (List (String × String))) → List (String × String)
build_initial_port_values ir seeds =
    foldl (seed_input (elim seeds [ none ↦ [] | some m ↦ m ])) (foldl seed_gate [] ir.stages)
      (or_no_ports ir.external_inputs)
