-- ===== src/Dag/Samples.antt =====
-- The check of the wires on a small pipeline.
use workflow_control.Prelude.{
  String, List, [], ◌∷◌, eq_iff, ◌≡◌, refl, Option, ◌↔◌, ◌⊎◌, In, Distinct, includes, map_get,
  map_set, set_add, arith,
}
use workflow_control.Ir.Samples.{smoke_test}
use workflow_control.Kahn.{degree, run}
use workflow_control.Segments.{stage_names}
use workflow_control.Dag.{
  Edges, build_dag, dag, validate_dag, accepted, has_cycle, note_wires, kahn, finish_dag,
}
use workflow_control.Dag.Sorted.{IsSorted}
use workflow_control.Dag.Correct.{EndsDeclared, IsAcyclic, validate_dag_correct, build_dag_order}

distinct : Distinct (stage_names smoke_test)
distinct = ground (arith, eq_iff "greet" "echo_back", eq_iff "echo_back" "greet")

declared : EndsDeclared smoke_test
declared a b edge = ground arith

validate_dag_correct_example :
    ((validate_dag smoke_test ≡ accepted) × IsAcyclic smoke_test)
    ⊎ ((c : Option (List String)) × (validate_dag smoke_test ≡ has_cycle c)
        × ¬ IsAcyclic smoke_test)
validate_dag_correct_example = validate_dag_correct smoke_test distinct declared

abbrev edges : Edges
edges = record {
  upstream = ("echo_back", "greet" ∷ []) ∷ ("greet", []) ∷ [];
  downstream = ("echo_back", []) ∷ ("greet", "echo_back" ∷ []) ∷ [];
}

built : build_dag smoke_test ≡ dag ("greet" ∷ "echo_back" ∷ []) edges
unfolding build_dag note_wires kahn finish_dag includes map_get map_set degree run set_add
built = refl

build_dag_order_example :
    Distinct {A = String} ("greet" ∷ "echo_back" ∷ [])
    × ((x : String)
        → In {A = String} x ("greet" ∷ "echo_back" ∷ []) ↔ In x (stage_names smoke_test))
    × IsSorted smoke_test.wires [] ("greet" ∷ "echo_back" ∷ [])
build_dag_order_example =
    build_dag_order smoke_test ("greet" ∷ "echo_back" ∷ []) edges distinct built
