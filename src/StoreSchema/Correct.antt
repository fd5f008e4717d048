-- ===== src/StoreSchema/Correct.antt =====
-- When the rules on `store_schema` are silent.
use workflow_control.Prelude.{
  String, ℕ, Option, none, some, true, List, [], ◌∷◌, ◌++◌, ◌≡◌, refl, sym, ap, subst, ◌∙◌, ◌↔◌,
  inl, inr, ◌==◌, codes, same_codes_iff, find, all, In, All, Distinct, map_get, Bool-cases,
  Option-cases, arith,
}
use mathlib.Core.Option.{some-injective}
use workflow_control.Ir.{Pipeline, Stage, Port, StoreSchemaEntry}
use workflow_control.Segments.{stage_names, stage_by_name}
use workflow_control.Segments.Upstream.{stage_by_name_iff}
use workflow_control.Structural.Silence.{append_silent}
use workflow_control.StoreSchema.{
  is_blank, trim_start, trim_end, trim, cons_unless_blank, check_entry, check_entries,
  validate_store_schema,
}

-- The entry names an output port of a declared stage, and declares the type of that port but for white
-- space around it.
abbrev pub IsProduced : Pipeline → StoreSchemaEntry → Type 0
IsProduced ir entry =
    (s : Stage) × In s ir.stages
    × (s.name ≡ entry.produced_by.stage)
    × (p : Port) × (find (λ (q : Port). q.name == entry.produced_by.port) s.outputs ≡ some p)
    × (trim entry.type ≡ trim p.type)

module _ (ir : Pipeline) (d : Distinct (stage_names ir)) where
  entry_silent :
      (key : String) (entry : StoreSchemaEntry)
      → (check_entry (stage_by_name ir.stages) key entry ≡ []) ↔ IsProduced ir entry
  unfolding check_entry
  entry_silent key entry =
      elim (Option-cases (map_get (stage_by_name ir.stages) entry.produced_by.stage)) [
        | inl e ↦
            rw (e, check_entry)
              (
                (λ h. cc),
                λ (s, i, n, p, g, k).
                    let never : none ≡ some s =
                      sym e ∙ (stage_by_name_iff ir.stages entry.produced_by.stage s d).1 (i, n) in
                    cc,
              )
        | inr (s, e) ↦
            let (i, n) = (stage_by_name_iff ir.stages entry.produced_by.stage s d).0 e in
            elim (Option-cases (find (λ (q : Port). q.name == entry.produced_by.port) s.outputs)) [
              | inl f ↦
                  rw (e, check_entry, f)
                    (
                      (λ h. cc),
                      λ (t, j, m, p, g, k).
                          let same : s ≡ t = some-injective s t (
                            sym e
                            ∙ (stage_by_name_iff ir.stages entry.produced_by.stage t d).1 (j, m)) in
                          let never : none ≡ some p =
                            sym f
                            ∙ subst
                                (λ (z : Stage).
                                  find (λ (q : Port). q.name == entry.produced_by.port) z.outputs
                                  ≡ some p)
                                (sym same) g in
                          cc,
                    )
              | inr (o, f) ↦
                  rw (e, check_entry, f)
                    (
                      (λ h. (
                        s,
                        i,
                        n,
                        o,
                        f,
                        (same_codes_iff (trim entry.type) (trim o.type)).0 (ground arith),
                      )),
                      λ (t, j, m, p, g, k).
                          let same : s ≡ t = some-injective s t (
                            sym e
                            ∙ (stage_by_name_iff ir.stages entry.produced_by.stage t d).1 (j, m)) in
                          let port : o ≡ p = some-injective o p (
                            sym f
                            ∙ subst
                                (λ (z : Stage).
                                  find (λ (q : Port). q.name == entry.produced_by.port) z.outputs
                                  ≡ some p)
                                (sym same) g) in
                          let k' : trim entry.type ≡ trim o.type =
                            subst (λ (z : Port). trim entry.type ≡ trim z.type) (sym port) k in
                          rw ((same_codes_iff (trim entry.type) (trim o.type)).1 k') refl,
                    )
            ]
      ]

  entries_silent :
      (entries : List (String × StoreSchemaEntry))
      → (check_entries (stage_by_name ir.stages) entries ≡ [])
        ↔ All (λ (e : String × StoreSchemaEntry). IsProduced ir e.1) entries
  unfolding check_entries
  entries_silent [] = ground arith
  entries_silent ((key, entry) ∷ entries) =
      let first = check_entry (stage_by_name ir.stages) key entry in
      let rest = check_entries (stage_by_name ir.stages) entries in
      (
        (λ h.
            let parts = (append_silent first rest).0 h in
            ((entry_silent key entry).0 parts.0, (entries_silent entries).0 parts.1)),
        λ h.
            (append_silent first rest).1
              ((entry_silent key entry).1 h.0, (entries_silent entries).1 h.1),
      )

  -- For a pipeline whose stage names are distinct, the rules are silent exactly when every entry of the
  -- schema names an output port of a declared stage and declares the type of that port, white space around
  -- the types aside; without a schema they are silent.
  pub validate_store_schema_correct :
      ((ir.store_schema ≡ none) → validate_store_schema ir ≡ [])
      × ((schema : List (String × StoreSchemaEntry))
          → ir.store_schema ≡ some schema
          → (validate_store_schema ir ≡ [])
            ↔ All (λ (e : String × StoreSchemaEntry). IsProduced ir e.1) schema)
  unfolding validate_store_schema
  validate_store_schema_correct = (
    (λ e. of_schema_none ir.store_schema (stage_by_name ir.stages) e),
    λ schema e. of_schema ir.store_schema schema e,
  )
    where
      of_schema_none :
          (o : Option (List (String × StoreSchemaEntry))) (m : List (String × Stage))
          → o ≡ none
          → (elim o [ none ↦ [] | some schema ↦ check_entries m schema ]) ≡ []
      of_schema_none none m e = refl
      of_schema_none (some x) m e = cc

      of_schema :
          (o : Option (List (String × StoreSchemaEntry)))
          (schema : List (String × StoreSchemaEntry))
          → o ≡ some schema
          → ((elim o [ none ↦ [] | some schema ↦ check_entries (stage_by_name ir.stages) schema ])
              ≡ [])
            ↔ All (λ (e : String × StoreSchemaEntry). IsProduced ir e.1) schema
      of_schema none schema e = cc
      of_schema (some x) schema e =
          subst
            (λ y.
              (check_entries (stage_by_name ir.stages) x ≡ [])
              ↔ All (λ (e : String × StoreSchemaEntry). IsProduced ir e.1) y)
            (some-injective x schema e) (entries_silent x)

append_blank_start :
    (pre l : List ℕ) → all is_blank pre ≡ true → trim_start (pre ++ l) ≡ trim_start l
unfolding trim_start
append_blank_start [] l h = refl
append_blank_start (c ∷ pre) l h = ground (arith, append_blank_start pre l)

trim_end_blank : (post : List ℕ) → all is_blank post ≡ true → trim_end post ≡ []
unfolding trim_end
trim_end_blank [] h = refl
trim_end_blank (c ∷ post) h = ground (arith, trim_end_blank post)

append_blank_end : (l post : List ℕ) → all is_blank post ≡ true → trim_end (l ++ post) ≡ trim_end l
unfolding trim_end
append_blank_end [] post h = trim_end_blank post h
append_blank_end (c ∷ l) post h = ap (cons_unless_blank c) (append_blank_end l post h)

-- A text that is all blank, or not: where its trimming starts.
start_append :
    (l post : List ℕ)
    → all is_blank post ≡ true
    → trim_end (trim_start (l ++ post)) ≡ trim_end (trim_start l)
unfolding trim_start
start_append [] post h = ap trim_end (append_nil_blank post h)
  where
    append_nil_blank : (post : List ℕ) → all is_blank post ≡ true → trim_start post ≡ []
    append_nil_blank [] h = refl
    append_nil_blank (c ∷ post) h = ground (arith, append_nil_blank post)
start_append (c ∷ l) post h = elim (Bool-cases (is_blank c)) [
  | inl e ↦ rw e (start_append l post h)
  | inr e ↦ rw e (append_blank_end (c ∷ l) post h)
]

-- White space around a text makes no difference to what is compared.
pub trim_around :
    (s t : String) (pre post : List ℕ)
    → codes t ≡ pre ++ (codes s ++ post)
    → all is_blank pre ≡ true
    → all is_blank post ≡ true
    → trim t ≡ trim s
unfolding trim
trim_around s t pre post e h k =
    ap (λ l. trim_end (trim_start l)) e
    ∙ ap trim_end (append_blank_start pre (codes s ++ post) h)
    ∙ start_append (codes s) post k
