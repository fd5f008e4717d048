-- ===== src/Validation.antt =====
-- The validation of a submitted pipeline: `KernelService.validate` of
-- apps/server/src/kernel-next/mcp/kernel.ts, once the parser has accepted it. `check_types` stands for
-- `validateTypes`, which runs the TypeScript compiler; it is `none` where the check is skipped.
pub mod Compiles
pub mod Responds
mod Samples
use workflow_control.Prelude.{String, Option, none, some, List, [], ◌∷◌}
use workflow_control.Ir.{Pipeline}
use workflow_control.Structural
use workflow_control.Structural.Verdict.{validate_structural}
use workflow_control.Dag.{validate_dag, accepted, has_cycle, throws, unknown}
use workflow_control.StoreSchema.{SchemaDiagnostic, validate_store_schema}

-- `undecided` is fuel of a rule that ran out, `thrown` an exception: no response.
pub data ValidateResponse (D : Type 0) : Type 0 where
  valid : ValidateResponse D
  structural_errors : List Structural.Diagnostic → ValidateResponse D
  dag_errors : (cycle : Option (List String)) → ValidateResponse D
  store_schema_errors : List SchemaDiagnostic → ValidateResponse D
  type_errors : List D → ValidateResponse D
  thrown undecided : ValidateResponse D

module _ {D : Type 0} (check_types : Option (Pipeline → List D)) where
  abbrev types_part : Pipeline → ValidateResponse D
  types_part ir = elim check_types [
    | none ↦ valid
    | some check ↦ elim (check ir) [ [] ↦ valid | d ∷ ds ↦ type_errors (d ∷ ds) ]
  ]

  abbrev schema_part : Pipeline → ValidateResponse D
  schema_part ir = elim (validate_store_schema ir) [
    | [] ↦ types_part ir
    | d ∷ ds ↦ store_schema_errors (d ∷ ds)
  ]

  abbrev dag_part : Pipeline → ValidateResponse D
  dag_part ir = elim (validate_dag ir) [
    | accepted ↦ schema_part ir
    | has_cycle c ↦ dag_errors c
    | throws ↦ thrown
    | unknown ↦ undecided
  ]

  unfoldable pub validate : (allowed : Option (List String)) → Pipeline → ValidateResponse D
  validate allowed ir = elim (validate_structural allowed ir) [
    | none ↦ undecided
    | some [] ↦ dag_part ir
    | some (d ∷ ds) ↦ structural_errors (d ∷ ds)
  ]
