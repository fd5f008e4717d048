-- ===== src/Structural/Names.antt =====
-- The rules on names: stages, the entry, external inputs and ports.
pub mod Correct
use workflow_control.Prelude.{
  String, none, some, not, List, [], ◌∷◌, ◌++◌, map, ◌==◌, includes, set_add, if◌then◌else◌,
}
use workflow_control.Ir.{Pipeline, Stage, Port}
use workflow_control.Segments.{stage_names}
use workflow_control.Structural.{
  Diagnostic, in_side, out_side, report, duplicates, duplicate_stage_name, entry_stage_missing,
  reserved_stage_name, reserved_external_input, duplicate_external_input_name,
  external_input_collides_with_stage, duplicate_port_name,
}

abbrev pub reserved : String
reserved = "__external__"

unfoldable pub entry_diagnostics : Pipeline → List Diagnostic
entry_diagnostics ir = elim ir.entry [
  | none ↦ []
  | some entry ↦ report (not (includes (stage_names ir) entry)) (entry_stage_missing entry)
]

unfoldable pub reserved_names : List String → List Diagnostic
reserved_names [] = []
reserved_names (n ∷ ns) =
    let rest = reserved_names ns in if n == reserved then reserved_stage_name n ∷ rest else rest

-- ir.externalInputs ?? []
abbrev pub inputs_of : Pipeline → List Port
inputs_of ir = elim ir.external_inputs [ none ↦ [] | some ps ↦ ps ]

abbrev pub port_names : List Port → List String
port_names = map (λ (p : Port). p.name)

-- A reserved name is passed over by the rules below it.
unfoldable pub external_inputs : (stages seen : List String) → List String → List Diagnostic
external_inputs stages seen [] = []
external_inputs stages seen (n ∷ ns) =
    let rest = external_inputs stages seen ns in
    let rest' = external_inputs stages (set_add seen n) ns in
    if n == reserved
    then reserved_external_input n ∷ rest
    else report (includes seen n) (duplicate_external_input_name n)
      ++ report (includes stages n) (external_input_collides_with_stage n)
      ++ rest'

-- externalNames once the loop is done.
unfoldable pub external_names : (seen : List String) → List String → List String
external_names seen [] = seen
external_names seen (n ∷ ns) =
    let rest = external_names seen ns in
    let rest' = external_names (set_add seen n) ns in if n == reserved then rest else rest'

unfoldable pub port_diagnostics : List Stage → List Diagnostic
port_diagnostics [] = []
port_diagnostics (s ∷ stages) =
    duplicates (λ p. duplicate_port_name s.name p in_side) [] (port_names s.inputs)
    ++ duplicates (λ p. duplicate_port_name s.name p out_side) [] (port_names s.outputs)
    ++ port_diagnostics stages

-- The passes in the order of the code, up to the ports.
unfoldable pub name_diagnostics : Pipeline → List Diagnostic
name_diagnostics ir =
    duplicates duplicate_stage_name [] (stage_names ir)
    ++ entry_diagnostics ir
    ++ reserved_names (stage_names ir)
    ++ external_inputs (stage_names ir) [] (port_names (inputs_of ir))
    ++ port_diagnostics ir.stages
