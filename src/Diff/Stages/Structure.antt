-- ===== src/Diff/Stages/Structure.antt =====
-- When a difference counts as structural.
use workflow_control.Prelude.{
  String, is_some, Bool, true, not, ◌&&◌, ◌||◌, List, [], ◌∷◌, ◌++◌, foldl, ◌≡◌, refl, sym, inl,
  inr, ◌==◌, any, map_get, Bool-cases, Option-cases, arith,
}
use workflow_control.Ir.{Pipeline, Stage}
use workflow_control.Structural.Wiring.{type_of}
use workflow_control.Diff.{
  Category, prompt_only, ports_only, budget_only, structural, same_category, add_category,
  diff_wires,
}
use workflow_control.Diff.Ports.{entries_beyond, is_empty}
use workflow_control.Diff.Changes.{stage_changes}
use workflow_control.Diff.Stages.{
  StageDiff, Progress, RoutingChange, note_change, same_type, routed, compare_same, compare_stage,
  PipelineDiff, mark, by_name, compare_stages, compute_pipeline_diff, beyond_prompt,
}

abbrev pub has : Category → List Category → Bool
has c cs = any (same_category c) cs

abbrev pub is_structural : StageDiff → Bool
is_structural d = same_category structural d.category

any-snoc :
    {A : Type 0} (p : A → Bool) (xs : List A) (x : A) → any p (xs ++ x ∷ []) ≡ (any p xs || p x)
any-snoc p [] x = ground arith
any-snoc p (y ∷ xs) x = ground (arith, any-snoc p xs x)

same_category_self : (c d : Category) → same_category c d ≡ true → c ≡ d
same_category_self prompt_only prompt_only e = refl
same_category_self ports_only ports_only e = refl
same_category_self budget_only budget_only e = refl
same_category_self structural structural e = refl
same_category_self prompt_only ports_only e = cc
same_category_self prompt_only budget_only e = cc
same_category_self prompt_only structural e = cc
same_category_self ports_only prompt_only e = cc
same_category_self ports_only budget_only e = cc
same_category_self ports_only structural e = cc
same_category_self budget_only prompt_only e = cc
same_category_self budget_only ports_only e = cc
same_category_self budget_only structural e = cc
same_category_self structural prompt_only e = cc
same_category_self structural ports_only e = cc
same_category_self structural budget_only e = cc

has-add_category :
    (cs : List Category) (c : Category)
    → has structural (add_category cs c) ≡ (has structural cs || same_category structural c)
unfolding add_category
has-add_category cs c = elim (Bool-cases (has c cs)) [
  | inr e ↦ rw e (any-snoc (same_category structural) cs c)
  | inl e ↦ rw e (elim (Bool-cases (same_category structural c)) [
    | inr f ↦ ground arith
    | inl f ↦
        let hit : has structural cs ≡ true = rw (sym (same_category_self structural c f)) at e in
        ground arith
  ])
]

has-mark :
    {A : Type 0} (cs : List Category) (xs : List A)
    → has structural (mark cs xs) ≡ (has structural cs || not (is_empty xs))
has-mark cs xs = ground (arith, has-add_category cs structural)

-- The categories have the structural one where they had it at the start, or a stage's change is
-- structural.
Covered : Bool → Progress → Type 0
Covered start acc = has structural acc.categories ≡ (start || any is_structural acc.modified)

note_change-Covered :
    (start : Bool) (acc : Progress) (d : StageDiff)
    → Covered start acc
    → Covered start (note_change acc d)
unfolding Covered
note_change-Covered start acc d h =
    ground
      (arith, has-add_category acc.categories d.category, any-snoc is_structural acc.modified d)

compare_same-Covered :
    (start : Bool) (acc : Progress) (name : String) (b p : Stage)
    → Covered start acc
    → Covered start (compare_same acc name b p)
unfolding compare_same Covered
compare_same-Covered start acc name b p h =
    let has_routing =
      any (λ (r : RoutingChange). r.stage_name == name) (routed acc name b p).routing in
    elim (Bool-cases (
      not (is_some (stage_changes b p).prompt_ref || beyond_prompt (stage_changes b p))
      && not has_routing)) [
        | inl e ↦ rw e h
        | inr e ↦ rw e (note_change-Covered start (routed acc name b p) _ h)
      ]

compare_stage-Covered :
    (start : Bool) (prop : List (String × Stage)) (acc : Progress) (entry : String × Stage)
    → Covered start acc
    → Covered start (compare_stage prop acc entry)
unfolding compare_stage
compare_stage-Covered start prop acc (name, b) h = elim (Option-cases (map_get prop name)) [
  | inl e ↦ rw (e, compare_stage) h
  | inr (p, e) ↦
      rw (e, compare_stage)
        (elim (Bool-cases (same_type (type_of b.config) (type_of p.config))) [
          | inl t ↦ rw t (compare_same-Covered start acc name b p h)
          | inr t ↦ rw t (note_change-Covered start acc _ h)
        ])
]

fold-Covered :
    (start : Bool) (prop : List (String × Stage)) (acc : Progress) (entries : List (String × Stage))
    → Covered start acc
    → Covered start (foldl (compare_stage prop) acc entries)
fold-Covered start prop acc [] h = h
fold-Covered start prop acc (entry ∷ entries) h =
    fold-Covered start prop (compare_stage prop acc entry) entries
      (compare_stage-Covered start prop acc entry h)

compare_stages-Covered :
    (base prop : List (String × Stage))
    → Covered
        (not (is_empty (entries_beyond base prop)) || not (is_empty (entries_beyond prop base)))
        (compare_stages base prop)
unfolding compare_stages Covered
compare_stages-Covered base prop =
    fold-Covered
      (not (is_empty (entries_beyond base prop)) || not (is_empty (entries_beyond prop base))) prop
      _ base
      (ground (
        arith,
        has-mark [] (entries_beyond base prop),
        has-mark (mark [] (entries_beyond base prop)) (entries_beyond prop base),
      ))

-- What changes the shape of a pipeline: stages or wires added or removed, or a stage whose change
-- is structural.
abbrev pub changes_shape : PipelineDiff → Bool
changes_shape d =
    not (is_empty d.added)
    || not (is_empty d.removed)
    || any is_structural d.modified
    || not (is_empty d.wires.added)
    || not (is_empty d.wires.removed)

-- For any two pipelines the categories of their difference contain the structural one exactly
-- where stages or wires are added or removed or some stage's change is structural.
pub compute_pipeline_diff_structural :
    (base proposed : Pipeline)
    → has structural (compute_pipeline_diff base proposed).category_union
      ≡ changes_shape (compute_pipeline_diff base proposed)
unfolding compute_pipeline_diff Covered
compute_pipeline_diff_structural base proposed =
    let compared = compare_stages (by_name base.stages) (by_name proposed.stages) in
    let wires = diff_wires base.wires proposed.wires in
    ground (
      arith,
      compare_stages-Covered (by_name base.stages) (by_name proposed.stages),
      has-mark compared.categories wires.added,
      has-mark (mark compared.categories wires.added) wires.removed,
    )
