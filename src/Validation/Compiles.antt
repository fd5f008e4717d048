-- ===== src/Validation/Compiles.antt =====
-- What a valid pipeline is, and that it compiles.
use workflow_control.Prelude.{
  String, Option, none, some, Bool, List, [], ◌∷◌, ◌≡◌, refl, sym, ap, ◌∙◌, ◌↔◌, ◌⊎◌, inl, inr, All,
  Distinct, List-cases, Option-cases,
}
use workflow_control.Ir.{Pipeline, StoreSchemaEntry}
use workflow_control.Segments.{stage_names}
use workflow_control.Machine.Context.{InboundWire}
use workflow_control.Dag.{validate_dag, accepted, has_cycle}
use workflow_control.Dag.Correct.{EndsDeclared, IsAcyclic}
use workflow_control.Structural.Names.Correct.{name_diagnostics_correct}
use workflow_control.Structural.Wiring.Correct.{wire_diagnostics_correct}
use workflow_control.Structural.Accepted.{silent-validate_dag, edges_listed}
use workflow_control.Structural.Verdict.{
  validate_structural, IsStructured, validate_structural_correct,
}
use workflow_control.StoreSchema.{validate_store_schema}
use workflow_control.StoreSchema.Correct.{IsProduced, validate_store_schema_correct}
use workflow_control.Compile.Build.{
  CompileOptions, CompiledMachine, compiled, compile_ir_to_machine,
}
use workflow_control.Compile.Build.Correct.{IsMachine, compile_ir_to_machine_correct}
use workflow_control.Validation.{valid, validate, dag_part, schema_part, types_part}

module _ (allowed : Option (List String)) (ir : Pipeline) (h : IsStructured allowed ir) where
  structured_ends : EndsDeclared ir
  structured_ends a b e = edges_listed ir ir.wires a b h.wires.0 e

  pub structured_dag :
      ((validate_dag ir ≡ accepted) × IsAcyclic ir)
      ⊎ ((c : Option (List String)) × (validate_dag ir ≡ has_cycle c) × ¬ IsAcyclic ir)
  structured_dag =
      silent-validate_dag ir ((name_diagnostics_correct ir).1 h.names)
        ((wire_diagnostics_correct ir h.names.stages_distinct).1 h.wires)

-- The check of types is skipped, or gives no diagnostic.
abbrev pub TypesOk : {D : Type 0} → Option (Pipeline → List D) → Pipeline → Type 0
TypesOk none ir = Unit
TypesOk (some check) ir = check ir ≡ []

types_iff :
    {D : Type 0} (check_types : Option (Pipeline → List D)) (ir : Pipeline)
    → (types_part check_types ir ≡ valid) ↔ TypesOk check_types ir
types_iff none ir = ((λ e. tt), λ h. refl)
types_iff (some check) ir = elim (List-cases (check ir)) [
  | inl e ↦ ((λ p. e), λ h. rw e refl)
  | inr (d, ds, e) ↦ rw e ((λ p. cc), λ h. cc)
]

-- Every entry of the store schema is produced by a declared port of its type.
abbrev pub IsStored : Pipeline → Type 0
IsStored ir =
    (schema : List (String × StoreSchemaEntry))
    → ir.store_schema ≡ some schema
    → All (λ (e : String × StoreSchemaEntry). IsProduced ir e.1) schema

IsStored-iff :
    (ir : Pipeline) → Distinct (stage_names ir) → (validate_store_schema ir ≡ []) ↔ IsStored ir
IsStored-iff ir d =
    let (without, with_schema) = validate_store_schema_correct ir d in
    elim (Option-cases ir.store_schema) [
      | inl e ↦ ((λ p schema f. absurd (none_some ir.store_schema schema e f)), λ h. without e)
      | inr (schema, e) ↦
          ((λ p schema' f. (with_schema schema' f).0 p), λ h. (with_schema schema e).1 (h schema e))
    ]
  where
    none_some :
        (o : Option (List (String × StoreSchemaEntry))) (x : List (String × StoreSchemaEntry))
        → o ≡ none
        → o ≡ some x
        → ⊥
    none_some o x e f = cc

module _ {D : Type 0} (check_types : Option (Pipeline → List D)) where
  schema_iff :
      (ir : Pipeline)
      → (schema_part check_types ir ≡ valid)
        ↔ ((validate_store_schema ir ≡ []) × TypesOk check_types ir)
  schema_iff ir = elim (List-cases (validate_store_schema ir)) [
    | inl e ↦
        rw (e, schema_part)
          ((λ p. (refl, (types_iff check_types ir).0 p)), λ h. (types_iff check_types ir).1 h.1)
    | inr (d, ds, e) ↦ rw (e, schema_part) ((λ p. cc), λ h. cc)
  ]

  -- What a valid pipeline is.
  pub record IsValid (allowed : Option (List String)) (ir : Pipeline) : Type 0 where
    pub structured : IsStructured allowed ir
    pub acyclic : IsAcyclic ir
    pub stored : IsStored ir
    pub typed : TypesOk check_types ir

  dag_iff :
      (allowed : Option (List String)) (ir : Pipeline)
      → IsStructured allowed ir
      → (dag_part check_types ir ≡ valid) ↔ (IsAcyclic ir × IsStored ir × TypesOk check_types ir)
  dag_iff allowed ir h =
      let stored = IsStored-iff ir h.names.stages_distinct in
      let schema = schema_iff ir in
      elim (structured_dag allowed ir h) [
        | inl (e, acyclic) ↦
            rw (e, dag_part)
              (
                (λ p. let (s, t) = schema.0 p in (acyclic, stored.0 s, t)),
                λ (a, s, t). schema.1 (stored.1 s, t),
              )
        | inr (c, e, cyclic') ↦ rw (e, dag_part) ((λ p. cc), λ (a, s, t). absurd (cyclic' a))
      ]

  -- The validation accepts exactly the pipelines that meet the structural rules, have no cycle, whose
  -- store schema names ports that produce it, and on which the check of types, where there is one, is
  -- silent.
  pub validate_correct :
      (allowed : Option (List String)) (ir : Pipeline)
      → (validate check_types allowed ir ≡ valid) ↔ IsValid allowed ir
  unfolding validate
  validate_correct allowed ir = elim (Option-cases (validate_structural allowed ir)) [
    | inl e ↦
        rw (e, validate)
          (
            (λ p. cc),
            λ h.
                let s = (validate_structural_correct allowed ir).1 h.structured in
                let never : none ≡ some [] = sym e ∙ s in cc,
          )
    | inr (ds, e) ↦ elim (List-cases ds) [
      | inr (d, rest, f) ↦
          rw (e, validate, f)
            (
              (λ p. cc),
              λ h.
                  let s = (validate_structural_correct allowed ir).1 h.structured in
                  let never : some (d ∷ rest) ≡ some [] = ap some (sym f) ∙ sym e ∙ s in cc,
            )
      | inl f ↦
          let h = (validate_structural_correct allowed ir).0 (e ∙ ap some f) in
          let dag = dag_iff allowed ir h in
          rw (e, validate, f)
            (
              (λ p.
                  let (a, s, t) = dag.0 p in
                  record { structured = h; acyclic = a; stored = s; typed = t }),
              λ v. dag.1 (v.acyclic, v.stored, v.typed),
            )
    ]
  ]

  -- A pipeline that the validation accepts compiles: there is a machine with a region for each stage,
  -- built from what the index holds of the stage, that starts from the context asked for.
  pub valid-compiles :
      (evaluate : InboundWire → (guard value : String) → Bool) (options : CompileOptions)
      (allowed : Option (List String)) (ir : Pipeline)
      → validate check_types allowed ir ≡ valid
      → (m : CompiledMachine) × (compile_ir_to_machine evaluate ir options ≡ compiled m)
        × IsMachine evaluate ir options m
  valid-compiles evaluate options allowed ir e =
      let v = (validate_correct allowed ir).0 e in
      elim (compile_ir_to_machine_correct evaluate ir options v.structured.names.stages_distinct
        (structured_ends allowed ir v.structured)) [
          | inl (m, f, acyclic, ok) ↦ (m, f, ok)
          | inr (c, f, cyclic') ↦ absurd (cyclic' v.acyclic)
        ]
