-- ===== src/Rebuild/Samples.antt =====
-- A rejection and a retry.
use workflow_control.Prelude.{
  String, suc, ◌≤◌, none, some, true, false, [], ◌∷◌, ◌≡◌, refl, In, includes, map_get,
}
use workflow_control.Ir.Samples.{smoke_test}
use workflow_control.Reach.Loop.{Reaches}
use workflow_control.Structural.{script_type}
use workflow_control.Machine.{was_finalized, retry_count, executing_on}
use workflow_control.Machine.Context.{
  MachineContext, FinalizedStage, outcome_done, Outcome, Region, RetryToStage, stage_failed,
  waiting, executing, go_raise,
}
use workflow_control.Machine.Waiting.{react, react_always, waiting_written}
use workflow_control.Compile.Build.{CompileOptions, InitialContext, first_context}
use workflow_control.Rebuild.{rollback_rebuild, retry_rebuild}
use workflow_control.Rebuild.Correct.{after_rollback, resumed, rollback_rebuild_correct}
use workflow_control.Rebuild.Retry.{retry_rebuild_correct}

abbrev options : CompileOptions
options = record { task_id = "t"; seed_values = none; initial_context = none }

abbrev finished : String → FinalizedStage
finished n = record { name = n; outcome = outcome_done; reason = none; message = none }

abbrev ended : MachineContext
ended = record {
  task_id = "t";
  version_hash = "";
  port_values = ("greet.greeting", "1") ∷ ("echo_back.echo", "2") ∷ [];
  log = "greet:done" ∷ "echo_back:done" ∷ [];
  gate_authorized_targets = "echo_back" ∷ [];
  gate_skipped_targets = [];
  finalized_stages = finished "greet" ∷ finished "echo_back" ∷ [];
  retry_counts = ("echo_back", 1) ∷ [];
}

abbrev echo_back : Region
echo_back = record {
  name = "echo_back";
  meta = record {
    stage_type = script_type;
    inbound = [];
    outbound = "echo_back.echo" ∷ [];
    gate_routed = false;
  };
  gate_siblings = [];
  retry = some (record { max_retries = 2; back_to_stage = "greet" });
  evaluate = λ w g v. true;
}

abbrev rolled_back : MachineContext
rolled_back = after_rollback smoke_test options ended "review" ("echo_back" ∷ [])

rollback_rebuild_correct_example :
    (In {A = String} "echo_back" ("echo_back" ∷ [])
      → (react_always echo_back waiting rolled_back ≡ waiting_written echo_back rolled_back)
        × (includes rolled_back.gate_authorized_targets "echo_back" ≡ false)
        × (retry_count echo_back rolled_back ≡ 0))
    × (¬ In {A = String} "echo_back" ("echo_back" ∷ [])
        → ((o : Outcome)
            → was_finalized rolled_back "echo_back" o ≡ was_finalized ended "echo_back" o)
          × (includes rolled_back.gate_authorized_targets "echo_back"
              ≡ includes ended.gate_authorized_targets "echo_back")
          × (includes rolled_back.gate_skipped_targets "echo_back"
              ≡ includes ended.gate_skipped_targets "echo_back")
          × (retry_count echo_back rolled_back ≡ retry_count echo_back ended))
rollback_rebuild_correct_example =
    rollback_rebuild_correct smoke_test options ended "review" ("echo_back" ∷ []) echo_back

-- The value of the stage that is not affected stays, the other's goes.
values_test : rolled_back.port_values ≡ ("greet.greeting", "1") ∷ []
unfolding rollback_rebuild includes
values_test = refl

abbrev asked : RetryToStage
asked = record {
  failed_stage_name = "echo_back";
  back_to_stage = "greet";
  retry_idx = 1;
  max_retries = 2;
  error_message = "boom";
}

asks :
    react echo_back (stage_failed "echo_back" "boom") executing ended
    ≡ some (go_raise waiting ended asked)
unfolding react executing_on map_get
asks = refl

retry_rebuild_correct_example :
    (i : InitialContext) × (retry_rebuild smoke_test ended asked ≡ some i)
    × (retry_count echo_back (first_context smoke_test (resumed options i))
        ≡ suc (retry_count echo_back ended))
    × (retry_count echo_back (first_context smoke_test (resumed options i)) ≤ 2)
    × ((n : String) (o : Outcome)
        → (Reaches smoke_test.wires "greet" n
            → was_finalized (first_context smoke_test (resumed options i)) n o ≡ false)
          × (¬ Reaches smoke_test.wires "greet" n
              → was_finalized (first_context smoke_test (resumed options i)) n o
                ≡ was_finalized ended n o))
    × ((first_context smoke_test (resumed options i)).gate_authorized_targets
        ≡ ended.gate_authorized_targets)
retry_rebuild_correct_example =
    retry_rebuild_correct smoke_test options echo_back "boom" ended ended waiting asked asks
