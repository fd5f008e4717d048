-- ===== src/StoreSchema/Samples.antt =====
-- The rules on `store_schema` on a small pipeline.
use workflow_control.Prelude.{
  String, none, some, List, [], ◌∷◌, ◌≡◌, refl, ◌↔◌, All, Distinct, eq_iff, arith, map_get, map_set,
}
use workflow_control.Ir.{Pipeline, StoreSchemaEntry}
use workflow_control.Ir.Samples.{smoke_test}
use workflow_control.Segments.{stage_names}
use workflow_control.StoreSchema.{validate_store_schema, store_schema_port_missing}
use workflow_control.StoreSchema.Correct.{IsProduced, validate_store_schema_correct}

abbrev entry : String → String → StoreSchemaEntry
entry port type = record {
  type = type;
  description = none;
  produced_by = record { stage = "greet"; port = port };
}

abbrev described : Pipeline
described = record smoke_test { store_schema = some (("hello", entry "greeting" " string ") ∷ []) }

distinct : Distinct (stage_names described)
distinct = ground (arith, eq_iff "greet" "echo_back", eq_iff "echo_back" "greet")

validate_store_schema_correct_example :
    ((described.store_schema ≡ none) → validate_store_schema described ≡ [])
    × ((schema : List (String × StoreSchemaEntry))
        → described.store_schema ≡ some schema
        → (validate_store_schema described ≡ [])
          ↔ All (λ (e : String × StoreSchemaEntry). IsProduced described e.1) schema)
validate_store_schema_correct_example = validate_store_schema_correct described distinct

accepted_test : validate_store_schema described ≡ []
unfolding validate_store_schema map_get map_set
accepted_test = refl

input_port_test :
    validate_store_schema
      (record smoke_test { store_schema = some (("task", entry "task_text" "string") ∷ []) })
    ≡ store_schema_port_missing "task" "greet" "task_text" ∷ []
unfolding validate_store_schema map_get map_set
input_port_test = refl
