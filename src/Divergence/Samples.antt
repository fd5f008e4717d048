-- ===== src/Divergence/Samples.antt =====
-- The earliest difference where a pipeline gains its second stage.
use workflow_control.Prelude.{
  String, ℕ, ◌<◌, none, some, [], ◌∷◌, ◌≡◌, refl, ◌⊎◌, ◌==◌, eq_iff, In, includes, set_add, map_get,
  map_set, arith, if◌then◌else◌,
}
use workflow_control.Ir.{Pipeline}
use workflow_control.Ir.Samples.{smoke_test, agent_stage, pipeline, port, seed}
use workflow_control.Kahn.{degree, run}
use workflow_control.Segments.{successors, add_node}
use workflow_control.Diff.{add_category, diff_wires}
use workflow_control.Diff.Ports.{entries_beyond, port_by_name, type_changes}
use workflow_control.Diff.Stages.{compute_pipeline_diff, compare_stages, by_name, compare_stage}
use workflow_control.Divergence.{
  changed_names, find_earliest_divergence, topo_order, tie_break_order, all_stage_names,
  combined_graph, insert_at, earliest,
}
use workflow_control.Divergence.Correct.{Joins, Leads, find_earliest_divergence_correct}

abbrev greeting : Pipeline
greeting =
    pipeline (agent_stage "greet" ("task_text" ∷ []) ("greeting" ∷ []) ∷ [])
      (seed "task_text" "greet" "task_text" ∷ []) (port "task_text" ∷ [])

earliest_is_echo_back : find_earliest_divergence greeting smoke_test ≡ some (some "echo_back")
unfolding find_earliest_divergence changed_names compute_pipeline_diff compare_stages compare_stage
    by_name diff_wires entries_beyond port_by_name type_changes add_category topo_order
    tie_break_order all_stage_names combined_graph insert_at earliest run degree successors add_node
    includes set_add map_get map_set
earliest_is_echo_back = refl

abbrev rank : String → ℕ
rank n = if n == "greet" then 0 else 1

rank_rises : (a b : String) → Joins greeting smoke_test a b → rank a < rank b
rank_rises a b j = ground (arith, j, eq_iff a "greet", eq_iff b "greet", eq_iff "greet" "echo_back")

find_earliest_divergence_correct_example :
    let changed = changed_names (compute_pipeline_diff greeting smoke_test) in
    ((find_earliest_divergence greeting smoke_test ≡ some none) × (changed ≡ []))
    ⊎ ((n : String) × (find_earliest_divergence greeting smoke_test ≡ some (some n))
        × In n changed
        × ((a : String) → In a changed → ¬ Leads greeting smoke_test a n))
find_earliest_divergence_correct_example =
    find_earliest_divergence_correct greeting smoke_test rank rank_rises
