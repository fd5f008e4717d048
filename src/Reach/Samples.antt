-- ===== src/Reach/Samples.antt =====
-- The two searches on a small pipeline.
use workflow_control.Prelude.{
  String, List, [], ◌∷◌, ◌≡◌, ◌≢◌, refl, some, ◌↔◌, In, Distinct, includes,
}
use workflow_control.Ir.Samples.{smoke_test}
use workflow_control.Reach.{topo_downstream, compute_wire_transitive_readers}
use workflow_control.Reach.Loop.{Reaches}
use workflow_control.Reach.Correct.{topo_downstream_correct}

topo_downstream-greet : topo_downstream smoke_test.wires "greet" ≡ some ("echo_back" ∷ [])
unfolding topo_downstream includes
topo_downstream-greet = refl

readers-greet :
    compute_wire_transitive_readers smoke_test "greet" ≡ some ("greet" ∷ "echo_back" ∷ [])
unfolding compute_wire_transitive_readers includes
readers-greet = refl

readers-unknown : compute_wire_transitive_readers smoke_test "task_text" ≡ some []
unfolding compute_wire_transitive_readers includes
readers-unknown = refl

topo_downstream_correct_example :
    (r : List String) × (topo_downstream smoke_test.wires "greet" ≡ some r)
    × ((x : String) → In x r ↔ (Reaches smoke_test.wires "greet" x × (x ≢ "greet")))
    × Distinct r
topo_downstream_correct_example = topo_downstream_correct smoke_test.wires "greet"
