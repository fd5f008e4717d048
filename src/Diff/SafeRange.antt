-- ===== src/Diff/SafeRange.antt =====
-- Whether a change may be applied to running tasks:
-- apps/server/src/kernel-next/hot-update/safe-range.ts. A reason keeps the values that its text is
-- made of.
pub mod Correct
use workflow_control.Prelude.{
  String, ℕ, Option, Bool, true, not, ◌&&◌, ◌||◌, List, [], ◌∷◌, ◌++◌, any, length, if◌then◌else◌,
}
use workflow_control.Diff.{Category, prompt_only, structural, same_category}
use workflow_control.Diff.Ports.{is_empty}
use workflow_control.Diff.Stages.{StageDiff, PipelineDiff}

pub record TaskImpact : Type 0 where
  pub task_id : String
  pub current_stage : Option String
  pub affected_stages : List String
  pub resumable : Bool
  pub blocking_reasons : List String

pub data DriftKind : Type 0 where
  port_type_change_with_live_values removed_stage_with_downstream_readers : DriftKind
  removed_output_with_active_consumers : DriftKind

pub record SchemaDriftIssue : Type 0 where
  pub kind : DriftKind
  pub stage_name : String
  pub port_name : Option String
  pub details : String

pub record Impact : Type 0 where
  pub active_tasks : List TaskImpact
  pub new_submissions_ok : Bool
  pub schema_drift_issues : List SchemaDriftIssue

pub data Reason : Type 0 where
  adds_stages removes_stages gate_routing_changes : (number : ℕ) → Reason
  wire_changes : (added removed : ℕ) → Reason
  stage_structural : (stage : String) → Reason
  schema_drift : SchemaDriftIssue → Reason
  not_resumable : (task : String) (blocking : List String) → Reason

pub data RangeCategory : Type 0 where
  empty : RangeCategory
  of : Category → RangeCategory

pub record SafeRangeVerdict : Type 0 where
  pub safe : Bool
  pub category : RangeCategory
  pub reasons : List Reason

abbrev pub reason_if : Bool → Reason → List Reason
reason_if t r = if t then r ∷ [] else []

unfoldable pub stage_reasons : List StageDiff → List Reason
stage_reasons [] = []
stage_reasons (d ∷ ds) =
    let rest = stage_reasons ds in
    if same_category structural d.category then stage_structural d.stage_name ∷ rest else rest

unfoldable pub structural_reasons : PipelineDiff → List Reason
structural_reasons d =
    reason_if (not (is_empty d.added)) (adds_stages (length d.added))
    ++ reason_if (not (is_empty d.removed)) (removes_stages (length d.removed))
    ++ reason_if (not (is_empty d.wires.added) || not (is_empty d.wires.removed))
        (wire_changes (length d.wires.added) (length d.wires.removed))
    ++ reason_if (not (is_empty d.gate_routing_changed))
        (gate_routing_changes (length d.gate_routing_changed))
    ++ stage_reasons d.modified

unfoldable pub drift_reasons : List SchemaDriftIssue → List Reason
drift_reasons [] = []
drift_reasons (i ∷ is) = schema_drift i ∷ drift_reasons is

unfoldable pub task_reasons : List TaskImpact → List Reason
task_reasons [] = []
task_reasons (t ∷ ts) =
    let rest = task_reasons ts in
    if not t.resumable then not_resumable t.task_id t.blocking_reasons ∷ rest else rest

-- diff.categoryUnion.includes("structural")
abbrev pub has_structural : PipelineDiff → Bool
has_structural d = any (same_category structural) d.category_union

unfoldable pub reasons_of : PipelineDiff → Impact → List Reason
reasons_of d impact =
    (if has_structural d then structural_reasons d else [])
    ++ drift_reasons impact.schema_drift_issues
    ++ task_reasons impact.active_tasks

-- The category of the verdict where the union is not empty: `first` and `rest` are its entries.
abbrev pub category_of :
    (has_structural : Bool) → (first : Category) → (rest : List Category) → RangeCategory
category_of structural' first rest =
    if is_empty rest && same_category prompt_only first
    then of prompt_only
    else if structural'
    then of structural
    else of first

unfoldable pub classify_safe_range : PipelineDiff → Impact → SafeRangeVerdict
classify_safe_range d impact = elim d.category_union [
  | [] ↦ record { safe = true; category = empty; reasons = [] }
  | first ∷ rest ↦ record {
    safe = is_empty (reasons_of d impact);
    category = category_of (has_structural d) first rest;
    reasons = reasons_of d impact;
  }
]
