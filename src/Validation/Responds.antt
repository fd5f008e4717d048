-- ===== src/Validation/Responds.antt =====
-- The validation always gives a response.
use workflow_control.Prelude.{
  String, Option, none, some, List, ap, ◌∙◌, inl, inr, Distinct, List-cases,
}
use workflow_control.Ir.{Pipeline}
use workflow_control.Segments.{stage_names}
use workflow_control.Structural.Verdict.{validate_structural_correct, validate_structural_returns}
use workflow_control.StoreSchema.{validate_store_schema}
use workflow_control.Validation.{
  ValidateResponse, thrown, undecided, validate, dag_part, schema_part, types_part,
}
use workflow_control.Validation.Compiles.{structured_dag}

module _ {D : Type 0} where
  -- Neither an exception nor a rule that runs on.
  abbrev pub Responds : ValidateResponse D → Type 0
  Responds thrown = ⊥
  Responds undecided = ⊥
  Responds _ = Unit

  types_part-Responds :
      (check_types : Option (Pipeline → List D)) (ir : Pipeline)
      → Responds (types_part check_types ir)
  types_part-Responds none ir = tt
  types_part-Responds (some check) ir = elim (List-cases (check ir)) [
    | inl e ↦ rw e tt
    | inr (d, ds, e) ↦ rw e tt
  ]

  schema_part-Responds :
      (check_types : Option (Pipeline → List D)) (ir : Pipeline)
      → Responds (schema_part check_types ir)
  schema_part-Responds check_types ir = elim (List-cases (validate_store_schema ir)) [
    | inl e ↦ rw (e, schema_part) (types_part-Responds check_types ir)
    | inr (d, ds, e) ↦ rw (e, schema_part) tt
  ]

  -- For a pipeline whose stage names are distinct the validation gives a response: no rule runs on, and
  -- the check for cycles does not throw, since it is made only once the structural rules are silent.
  pub validate-Responds :
      (check_types : Option (Pipeline → List D)) (allowed : Option (List String)) (ir : Pipeline)
      → Distinct (stage_names ir)
      → Responds (validate check_types allowed ir)
  unfolding validate
  validate-Responds check_types allowed ir d =
      let (ds, e) = validate_structural_returns allowed ir d in
      elim (List-cases ds) [
        | inr (x, rest, f) ↦ rw (e, validate, f) tt
        | inl f ↦
            let h = (validate_structural_correct allowed ir).0 (e ∙ ap some f) in
            rw (e, validate, f)
              (elim (structured_dag allowed ir h) [
                | inl (g, acyclic) ↦ rw (g, dag_part) (schema_part-Responds check_types ir)
                | inr (c, g, cyclic') ↦ rw (g, dag_part) tt
              ])
      ]
