-- ===== src/Structural/Samples.antt =====
-- The rules on a small pipeline.
use workflow_control.Prelude.{
  true, false, none, some, All, String, List, [], ◌≡◌, refl, ◌↔◌, Distinct, includes, set_add,
  map_get, map_set, arith, eq_iff, ◌∷◌,
}
use workflow_control.Ir.{Pipeline, agent, Stage, Wire, RouteTarget, many, gate}
use workflow_control.Ir.Samples.{agent_stage, pipeline, smoke_test, port, wire}
use workflow_control.Segments.{stage_names}
use workflow_control.Structural.{duplicates, Diagnostic, gate_rollback_mixed_targets}
use workflow_control.Structural.Names.{
  name_diagnostics, entry_diagnostics, reserved_names, external_inputs, port_diagnostics,
}
use workflow_control.Structural.Names.Correct.{NamesOk, name_diagnostics_correct}
use workflow_control.Structural.Wiring.{wire_diagnostics}
use workflow_control.Structural.Wiring.Correct.{WiresOk, wire_diagnostics_correct}
use workflow_control.Structural.Stages.{type_diagnostics}
use workflow_control.Structural.Stages.Correct.{StageOk, type_diagnostics_correct}
use workflow_control.Structural.Ancestors.{rollback_diagnostics}
use workflow_control.Structural.Ancestors.Rule.{GateCoherent, rollback_diagnostics_correct}

distinct : Distinct (stage_names smoke_test)
distinct = ground (arith, eq_iff "greet" "echo_back", eq_iff "echo_back" "greet")

names_silent : name_diagnostics smoke_test ≡ []
unfolding name_diagnostics duplicates entry_diagnostics reserved_names external_inputs
    port_diagnostics includes set_add
names_silent = refl

wires_silent : wire_diagnostics smoke_test [] smoke_test.wires ≡ []
unfolding wire_diagnostics includes map_get map_set set_add
wires_silent = refl

name_diagnostics_correct_example : (name_diagnostics smoke_test ≡ []) ↔ NamesOk smoke_test
name_diagnostics_correct_example = name_diagnostics_correct smoke_test

wire_diagnostics_correct_example :
    (wire_diagnostics smoke_test [] smoke_test.wires ≡ []) ↔ WiresOk smoke_test
wire_diagnostics_correct_example = wire_diagnostics_correct smoke_test distinct

type_diagnostics_correct_example :
    (type_diagnostics
        (some ("persist" ∷ []))
        (stage_names smoke_test)
        smoke_test.wires
        smoke_test.stages
      ≡ [])
    ↔ All
        (StageOk (some ("persist" ∷ [])) (stage_names smoke_test) smoke_test.wires)
        smoke_test.stages
type_diagnostics_correct_example =
    type_diagnostics_correct (some ("persist" ∷ [])) (stage_names smoke_test) smoke_test.wires
      smoke_test.stages

-- A review that goes back to `greet` on a reject, and on to `echo_back` otherwise.
abbrev review : List (String × RouteTarget) → Stage
review routes = record {
  name = "review";
  inputs = port "greeting" ∷ [];
  outputs = [];
  fanout = none;
  config = gate (record {
    question = record { text = "Good?"; options = none };
    routing = record { routes = routes };
    timeout_minutes = none;
  });
}

abbrev mixed : List Stage
mixed = review (("reject", many ("greet" ∷ "echo_back" ∷ [])) ∷ []) ∷ []

abbrev review_wires : List Wire
review_wires = wire "greet" "greeting" "review" "greeting" ∷ []

mixed_is_reported :
    rollback_diagnostics review_wires mixed
    ≡ some (
        gate_rollback_mixed_targets "review" "reject"
          ("greet" ∷ "echo_back" ∷ [])
          (true ∷ false ∷ [])
        ∷ [])
unfolding rollback_diagnostics includes set_add map_get map_set
mixed_is_reported = refl

rollback_diagnostics_correct_example :
    (ds : List Diagnostic) × (rollback_diagnostics review_wires mixed ≡ some ds)
    × ((ds ≡ []) ↔ All (λ (s : Stage). GateCoherent review_wires s.name s.config) mixed)
rollback_diagnostics_correct_example = rollback_diagnostics_correct review_wires mixed

-- The second stage asks to resume the first.
abbrev resuming : Pipeline
resuming =
    pipeline
      (agent_stage "greet" ("task_text" ∷ []) ("greeting" ∷ [])
        ∷ record (agent_stage "echo_back" ("greeting" ∷ []) ("echo" ∷ [])) {
          config = agent (record {
            prompt_ref = "echo_back";
            sub_agents = none;
            mcp_servers = none;
            cross_segment_resume_from = some "greet";
          });
        }
        ∷ [])
      (wire "greet" "greeting" "echo_back" "greeting" ∷ []) (port "task_text" ∷ [])

resuming-Distinct : Distinct (stage_names resuming)
resuming-Distinct = ground (arith, eq_iff "greet" "echo_back", eq_iff "echo_back" "greet")
