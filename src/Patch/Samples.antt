-- ===== src/Patch/Samples.antt =====
-- Patches of a small pipeline.
use workflow_control.Prelude.{List, [], ◌∷◌, ◌++◌, ◌≡◌, refl, eq_iff, arith}
use workflow_control.Ir.{Pipeline, Stage}
use workflow_control.Ir.Wires.{wire_source_key_prefix}
use workflow_control.Ir.Samples.{smoke_test, agent_stage, wire, pipeline, seed, port}
use workflow_control.Patch.{
  PatchOp, add_stage, remove_stage, add_wire, stage_missing, ok, throws, apply_op, apply_patch,
}
use workflow_control.Patch.Unique.{IsUnique, apply_patch-IsUnique}
use workflow_control.Patch.Undo.{add-remove_stage}
use workflow_control.Patch.Order.{apply_patch_stops}

abbrev review : Stage
review = agent_stage "review" ("echo" ∷ []) []

abbrev reviewed : Pipeline
reviewed =
    pipeline (smoke_test.stages ++ review ∷ [])
      (smoke_test.wires ++ wire "echo_back" "echo" "review" "echo" ∷ []) (port "task_text" ∷ [])

abbrev extension : List PatchOp
extension = add_stage review ∷ add_wire (wire "echo_back" "echo" "review" "echo") ∷ []

apply_patch-extension : apply_patch smoke_test extension ≡ ok reviewed
unfolding apply_patch
apply_patch-extension = refl

smoke_test-IsUnique : IsUnique smoke_test
unfolding wire_source_key_prefix
smoke_test-IsUnique = record {
  stages = ground (arith, eq_iff "greet" "echo_back");
  wires = ground (arith, eq_iff "greet" "__external__");
  inputs = ground arith;
}

apply_patch-IsUnique_example : IsUnique reviewed
apply_patch-IsUnique_example =
    apply_patch-IsUnique smoke_test extension reviewed smoke_test-IsUnique apply_patch-extension

add-remove_stage_example :
    apply_patch smoke_test (add_stage review ∷ remove_stage "review" ∷ []) ≡ ok smoke_test
unfolding apply_patch
add-remove_stage_example = add-remove_stage smoke_test review refl refl

abbrev greet_alone : Pipeline
greet_alone =
    pipeline (agent_stage "greet" ("task_text" ∷ []) ("greeting" ∷ []) ∷ [])
      (seed "task_text" "greet" "task_text" ∷ []) (port "task_text" ∷ [])

remove_stage-echo_back : apply_op smoke_test (remove_stage "echo_back") ≡ ok greet_alone
unfolding apply_op
remove_stage-echo_back = refl

abbrev failing : List PatchOp
failing = add_stage review ∷ remove_stage "nobody" ∷ remove_stage "greet" ∷ []

apply_patch-failing : apply_patch smoke_test failing ≡ throws stage_missing (remove_stage "nobody")
unfolding apply_patch
apply_patch-failing = refl

apply_patch_stops_example :
    (before after : List PatchOp) × (mid : Pipeline) × (failing
      ≡ before ++ remove_stage "nobody" ∷ after)
    × (apply_patch smoke_test before ≡ ok mid)
    × (apply_op mid (remove_stage "nobody") ≡ throws stage_missing (remove_stage "nobody"))
apply_patch_stops_example =
    apply_patch_stops smoke_test failing stage_missing (remove_stage "nobody") apply_patch-failing
