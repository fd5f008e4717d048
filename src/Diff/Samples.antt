-- ===== src/Diff/Samples.antt =====
-- A pipeline that gains a stage, with one task that runs.
use workflow_control.Prelude.{some, true, false, [], ◌∷◌, ◌≡◌, refl, ◌↔◌, ◌⊎◌, map_get, map_set}
use workflow_control.Ir.{Pipeline}
use workflow_control.Ir.Samples.{smoke_test, agent_stage, pipeline, port, seed}
use workflow_control.Diff.{structural, diff_wires, add_category}
use workflow_control.Diff.Ports.{is_empty, entries_beyond}
use workflow_control.Diff.Stages.{compute_pipeline_diff, compare_stages, by_name, compare_stage}
use workflow_control.Diff.Stages.Structure.{changes_shape}
use workflow_control.Diff.SafeRange.{Impact, classify_safe_range}
use workflow_control.Diff.SafeRange.Correct.{resumable, classify_safe_range_correct}

abbrev greet_only : Pipeline
greet_only =
    pipeline (agent_stage "greet" ("task_text" ∷ []) ("greeting" ∷ []) ∷ [])
      (seed "task_text" "greet" "task_text" ∷ []) (port "task_text" ∷ [])

abbrev running : Impact
running = record {
  active_tasks =
      record {
        task_id = "t1";
        current_stage = some "greet";
        affected_stages = [];
        resumable = true;
        blocking_reasons = [];
      }
      ∷ [];
  new_submissions_ok = true;
  schema_drift_issues = [];
}

gains_a_stage : (compute_pipeline_diff greet_only smoke_test).category_union ≡ structural ∷ []
unfolding compute_pipeline_diff compare_stages compare_stage by_name diff_wires entries_beyond
    add_category map_get map_set
gains_a_stage = refl

classify_safe_range_correct_example :
    ((classify_safe_range (compute_pipeline_diff greet_only smoke_test) running).safe ≡ true) ↔ (
      ((compute_pipeline_diff greet_only smoke_test).category_union ≡ [])
      ⊎ (changes_shape (compute_pipeline_diff greet_only smoke_test) ≡ false)
        × (is_empty running.schema_drift_issues ≡ true)
        × (resumable running.active_tasks ≡ true))
classify_safe_range_correct_example = classify_safe_range_correct greet_only smoke_test running
