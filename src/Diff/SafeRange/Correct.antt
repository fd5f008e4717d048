-- ===== src/Diff/SafeRange/Correct.antt =====
-- Which changes are safe.
use workflow_control.Prelude.{
  Bool, true, false, not, ◌&&◌, ◌||◌, List, [], ◌∷◌, ◌++◌, ◌≡◌, refl, ◌↔◌, ◌⊎◌, inl, inr, any, all,
  length, List-cases, arith, if◌then◌else◌,
}
use workflow_control.Ir.{Pipeline}
use workflow_control.Diff.Ports.{is_empty}
use workflow_control.Diff.Stages.{StageDiff, PipelineDiff, compute_pipeline_diff}
use workflow_control.Diff.Stages.Structure.{
  is_structural, changes_shape, compute_pipeline_diff_structural,
}
use workflow_control.Diff.SafeRange.{
  TaskImpact, SchemaDriftIssue, Impact, Reason, reason_if, adds_stages, removes_stages,
  wire_changes, gate_routing_changes, stage_reasons, structural_reasons, drift_reasons,
  task_reasons, has_structural, reasons_of, classify_safe_range,
}

is_empty-append : {A : Type 0} (xs ys : List A) → is_empty (xs ++ ys) ≡ (is_empty xs && is_empty ys)
is_empty-append [] ys = ground arith
is_empty-append (x ∷ xs) ys = ground arith

stage_reasons-empty :
    (ds : List StageDiff) → is_empty (stage_reasons ds) ≡ not (any is_structural ds)
unfolding stage_reasons
stage_reasons-empty [] = refl
stage_reasons-empty (d ∷ ds) = ground (arith, stage_reasons-empty ds)

drift_reasons-empty : (is : List SchemaDriftIssue) → is_empty (drift_reasons is) ≡ is_empty is
unfolding drift_reasons
drift_reasons-empty [] = refl
drift_reasons-empty (i ∷ is) = ground arith

task_reasons-empty :
    (ts : List TaskImpact) → is_empty (task_reasons ts) ≡ all (λ (t : TaskImpact). t.resumable) ts
unfolding task_reasons
task_reasons-empty [] = refl
task_reasons-empty (t ∷ ts) = ground (arith, task_reasons-empty ts)

empty_is_empty : {A : Type 0} (xs : List A) → (is_empty xs ≡ true) ↔ (xs ≡ [])
empty_is_empty [] = ground arith
empty_is_empty (x ∷ xs) = ground arith

reason_if-empty : (t : Bool) (r : Reason) → is_empty (reason_if t r) ≡ not t
reason_if-empty true r = ground arith
reason_if-empty false r = ground arith

-- A change of the shape has its reason.
structural_reasons-empty :
    (d : PipelineDiff) → is_empty (structural_reasons d) ≡ true → changes_shape d ≡ false
unfolding structural_reasons
structural_reasons-empty d e =
    let added = reason_if (not (is_empty d.added)) (adds_stages (length d.added)) in
    let removed = reason_if (not (is_empty d.removed)) (removes_stages (length d.removed)) in
    let wires =
      reason_if (not (is_empty d.wires.added) || not (is_empty d.wires.removed))
        (wire_changes (length d.wires.added) (length d.wires.removed)) in
    let routing =
      reason_if (not (is_empty d.gate_routing_changed))
        (gate_routing_changes (length d.gate_routing_changed)) in
    ground (
      arith,
      e,
      is_empty-append added removed,
      is_empty-append (added ++ removed) wires,
      is_empty-append (added ++ removed ++ wires) routing,
      is_empty-append (added ++ removed ++ wires ++ routing) (stage_reasons d.modified),
      stage_reasons-empty d.modified,
      reason_if-empty (not (is_empty d.added)) (adds_stages (length d.added)),
      reason_if-empty (not (is_empty d.removed)) (removes_stages (length d.removed)),
      reason_if-empty (not (is_empty d.wires.added) || not (is_empty d.wires.removed))
          (wire_changes (length d.wires.added) (length d.wires.removed)),
    )

abbrev pub resumable : List TaskImpact → Bool
resumable = all (λ (t : TaskImpact). t.resumable)

reasons_of-empty :
    (d : PipelineDiff) (impact : Impact)
    → has_structural d ≡ changes_shape d
    → (is_empty (reasons_of d impact) ≡ true) ↔ (
        (changes_shape d ≡ false)
        × (is_empty impact.schema_drift_issues ≡ true)
        × (resumable impact.active_tasks ≡ true))
unfolding reasons_of
reasons_of-empty d impact covered =
    let shape = if has_structural d then structural_reasons d else [] in
    ground (
      arith,
      covered,
      is_empty-append shape (drift_reasons impact.schema_drift_issues),
      is_empty-append (shape ++ drift_reasons impact.schema_drift_issues)
          (task_reasons impact.active_tasks),
      drift_reasons-empty impact.schema_drift_issues,
      task_reasons-empty impact.active_tasks,
      structural_reasons-empty d,
    )

-- The difference of two pipelines is safe for running tasks exactly where it has no category at
-- all, or where it neither adds nor removes stages or wires nor changes a stage structurally, no
-- value drifts from its schema, and every active task is resumable.
pub classify_safe_range_correct :
    (base proposed : Pipeline) (impact : Impact)
    → let d = compute_pipeline_diff base proposed in
      ((classify_safe_range d impact).safe ≡ true) ↔ (
        (d.category_union ≡ [])
        ⊎ (changes_shape d ≡ false)
          × (is_empty impact.schema_drift_issues ≡ true)
          × (resumable impact.active_tasks ≡ true))
unfolding classify_safe_range
classify_safe_range_correct base proposed impact =
    let d = compute_pipeline_diff base proposed in
    elim (List-cases d.category_union) [
      | inl e ↦ rw (classify_safe_range, e) ((λ p. inl refl), λ p. refl)
      | inr (first, rest, e) ↦
          let h = reasons_of-empty d impact (compute_pipeline_diff_structural base proposed) in
          rw (classify_safe_range, e)
            ((λ p. inr (h.0 p)), λ q. elim q [ inl never ↦ cc | inr f ↦ h.1 f ])
    ]
