-- ===== src/StoreSchema.antt =====
-- The rules on `store_schema`: apps/server/src/kernel-next/validator/store-schema.ts. A diagnostic has
-- its code and its context, the message left out.
pub mod Correct
mod Samples
use workflow_control.Prelude.{
  String, ℕ, none, some, Bool, not, ◌&&◌, ◌||◌, List, [], ◌∷◌, ◌++◌, ◌==◌, nat_eq, leb, codes,
  same_codes, find, map_get, if◌then◌else◌,
}
use workflow_control.Ir.{Pipeline, Stage, Port, StoreSchemaEntry}
use workflow_control.Segments.{stage_by_name}

pub data SchemaDiagnostic : Type 0 where
  store_schema_stage_missing : (key stage port : String) → SchemaDiagnostic
  store_schema_port_missing : (key stage port : String) → SchemaDiagnostic
  store_schema_type_mismatch : (key stage port declared_type port_type : String) → SchemaDiagnostic

-- What `trim` removes: white space and line ends.
unfoldable pub is_blank : ℕ → Bool
is_blank c =
    (leb 9 c && leb c 13)
    || (nat_eq c 32
        || (nat_eq c 160
            || (nat_eq c 5760
                || ((leb 8192 c && leb c 8202)
                    || (nat_eq c 8232
                        || (nat_eq c 8233
                            || (nat_eq c 8239
                                || (nat_eq c 8287 || (nat_eq c 12288 || nat_eq c 65279)))))))))

unfoldable pub trim_start : List ℕ → List ℕ
unfolding is_blank
trim_start [] = []
trim_start (c ∷ cs) = let rest = trim_start cs in if is_blank c then rest else c ∷ cs

abbrev pub cons_unless_blank : ℕ → List ℕ → List ℕ
cons_unless_blank c [] = if is_blank c then [] else c ∷ []
cons_unless_blank c (d ∷ rest) = c ∷ d ∷ rest

unfoldable pub trim_end : List ℕ → List ℕ
unfolding is_blank
trim_end [] = []
trim_end (c ∷ cs) = cons_unless_blank c (trim_end cs)

unfoldable pub trim : String → List ℕ
unfolding trim_start trim_end
trim s = trim_end (trim_start (codes s))

-- The body of the loop.
unfoldable pub check_entry :
    List (String × Stage) → (key : String) → StoreSchemaEntry → List SchemaDiagnostic
unfolding trim same_codes
check_entry stages key entry = elim (map_get stages entry.produced_by.stage) [
  | none ↦ store_schema_stage_missing key entry.produced_by.stage entry.produced_by.port ∷ []
  | some stage ↦ elim (find (λ (p : Port). p.name == entry.produced_by.port) stage.outputs) [
    | none ↦ store_schema_port_missing key entry.produced_by.stage entry.produced_by.port ∷ []
    | some output ↦
        if not (same_codes (trim entry.type) (trim output.type))
        then store_schema_type_mismatch key entry.produced_by.stage entry.produced_by.port
            entry.type output.type
          ∷ []
        else []
  ]
]

unfoldable pub check_entries :
    List (String × Stage) → List (String × StoreSchemaEntry) → List SchemaDiagnostic
unfolding check_entry
check_entries stages [] = []
check_entries stages ((key, entry) ∷ entries) =
    check_entry stages key entry ++ check_entries stages entries

-- The diagnostics; none is `ok: true`.
unfoldable pub validate_store_schema : Pipeline → List SchemaDiagnostic
unfolding check_entries stage_by_name
validate_store_schema ir = elim ir.store_schema [
  | none ↦ []
  | some schema ↦ check_entries (stage_by_name ir.stages) schema
]
