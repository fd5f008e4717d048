-- ===== src/Ir/Samples.antt =====
-- Small pipelines for the tests.
use workflow_control.Prelude.{String, List, [], ◌∷◌, map, none, some}
use workflow_control.Ir.{Port, Pipeline, Stage, agent, Wire, stage, external, single}

abbrev pub port : String → Port
port n = record { name = n; type = "string"; zod = none; description = none; optional = none }

abbrev ports : List String → List Port
ports = map port

abbrev pub agent_stage : String → List String → List String → Stage
agent_stage n ins outs = record {
  name = n;
  inputs = ports ins;
  outputs = ports outs;
  fanout = none;
  config = agent (record {
    prompt_ref = "system/default";
    sub_agents = none;
    mcp_servers = none;
    cross_segment_resume_from = none;
  });
}

abbrev pub wire : String → String → String → String → Wire
wire a p b q = record { from = stage a p; to = record { stage = b; port = q }; guard = none }

abbrev pub seed : String → String → String → Wire
seed p b q = record { from = external p; to = record { stage = b; port = q }; guard = none }

abbrev pub pipeline : List Stage → List Wire → List Port → Pipeline
pipeline stages wires inputs = record {
  name = "sample";
  stages = stages;
  wires = wires;
  entry = none;
  external_inputs = some inputs;
  store_schema = none;
  session_mode = some single;
}

-- The stages stand in the file in another order than they run in.
abbrev pub smoke_test : Pipeline
smoke_test =
    pipeline
      (agent_stage "echo_back" ("greeting" ∷ []) ("echo" ∷ [])
        ∷ agent_stage "greet" ("task_text" ∷ []) ("greeting" ∷ [])
        ∷ [])
      (seed "task_text" "greet" "task_text" ∷ wire "greet" "greeting" "echo_back" "greeting" ∷ [])
      (port "task_text" ∷ [])
