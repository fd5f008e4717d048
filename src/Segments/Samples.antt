-- ===== src/Segments/Samples.antt =====
-- The planner on a small pipeline, whose file lists the second stage first.
use workflow_control.Prelude.{
  String, ℕ, List, [], ◌∷◌, ◌==◌, eq_iff, ◌≡◌, refl, some, ◌↔◌, ◌<◌, In, All, Distinct, includes,
  set_add, map_get, map_set, arith, if◌then◌else◌,
}
use workflow_control.Ir.Samples.{smoke_test}
use workflow_control.Kahn.{degree, run}
use workflow_control.Segments.{
  stage_names, topological_stage_order, plan_segments, upstream_agents, visit_stage, stage_by_name,
}
use workflow_control.Segments.Plan.{IsSession, plan_segments_correct}
use workflow_control.Segments.Chain.{flat}
use workflow_control.Segments.Links.{Link}

topological_stage_order-smoke_test :
    topological_stage_order smoke_test ≡ some ("greet" ∷ "echo_back" ∷ [])
unfolding topological_stage_order includes map_get map_set degree run
topological_stage_order-smoke_test = refl

distinct : Distinct (stage_names smoke_test)
distinct = ground (arith, eq_iff "greet" "echo_back", eq_iff "echo_back" "greet")

abbrev rank : String → ℕ
rank n = if n == "greet" then 0 else 1

rank_rises : (a b : String) → Link (stage_names smoke_test) smoke_test.wires a b → rank a < rank b
rank_rises a b l = ground (arith, eq_iff a "greet", eq_iff b "greet", eq_iff "greet" "echo_back")

plan_segments-smoke_test : plan_segments smoke_test ≡ some (("greet" ∷ "echo_back" ∷ []) ∷ [])
unfolding plan_segments topological_stage_order upstream_agents visit_stage stage_by_name includes
    map_get map_set degree run set_add
plan_segments-smoke_test = refl

plan_segments_correct_example :
    (segs : List (List String)) × (plan_segments smoke_test ≡ some segs)
    × Distinct (flat segs)
    × ((x : String) → In x (flat segs) ↔ In x (stage_names smoke_test))
    × All (IsSession smoke_test) segs
plan_segments_correct_example = plan_segments_correct smoke_test distinct
