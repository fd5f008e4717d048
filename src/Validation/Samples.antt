-- ===== src/Validation/Samples.antt =====
-- A pipeline whose first stage starts an MCP server that is given a token.
use workflow_control.Prelude.{
  String, none, some, true, Bool, [], ◌∷◌, ◌≡◌, ◌↔◌, refl, eq_iff, Distinct, map_get, map_set,
  set_add, includes, arith, All,
}
use workflow_control.Ir.{Pipeline, Stage, McpServerDecl, agent}
use workflow_control.Ir.Samples.{agent_stage, wire, seed, port, pipeline}
use workflow_control.Segments.{stage_names}
use workflow_control.Machine.Context.{InboundWire}
use workflow_control.Compile.Build.{
  CompileOptions, CompiledMachine, compiled, compile_ir_to_machine,
}
use workflow_control.Compile.Build.Correct.{IsMachine}
use workflow_control.Structural.{duplicates, envkey_not_referenced}
use workflow_control.Structural.Names.{
  name_diagnostics, entry_diagnostics, reserved_names, external_inputs, port_diagnostics,
}
use workflow_control.Structural.Stages.{type_diagnostics}
use workflow_control.Structural.Wiring.{wire_diagnostics, dataflow_diagnostics, has_port}
use workflow_control.Structural.Ancestors.{rollback_diagnostics}
use workflow_control.Structural.Sessions.{session_diagnostics, resuming_stages}
use workflow_control.Structural.EnvKeys.{env_key_diagnostics, servers_of}
use workflow_control.Structural.EnvKeys.Correct.{ServerOk, env_key_diagnostics_correct}
use workflow_control.Structural.Verdict.{validate_structural}
use workflow_control.Kahn.{run, degree}
use workflow_control.Dag.{
  validate_dag, build_dag, note_wires, accepted, kahn, sort_names, finish_dag,
}
use workflow_control.StoreSchema.{validate_store_schema}
use workflow_control.Validation.{valid, validate, dag_part}
use workflow_control.Validation.Compiles.{IsValid, validate_correct, valid-compiles}
use workflow_control.Validation.Responds.{Responds, validate-Responds}

abbrev server : String → McpServerDecl
server command = record {
  name = "hub";
  command = command;
  args = "--stdio" ∷ [];
  env = some (("TOKEN", "Bearer ${TOKEN}") ∷ []);
  env_keys = "TOKEN" ∷ [];
}

abbrev greet : McpServerDecl → Stage
greet d = record (agent_stage "greet" ("task_text" ∷ []) ("greeting" ∷ [])) {
  config = agent (record {
    prompt_ref = "greet";
    sub_agents = none;
    mcp_servers = some (d ∷ []);
    cross_segment_resume_from = none;
  });
}

abbrev greeting : Pipeline
greeting =
    pipeline (greet (server "npx") ∷ agent_stage "echo_back" ("greeting" ∷ []) ("echo" ∷ []) ∷ [])
      (seed "task_text" "greet" "task_text" ∷ wire "greet" "greeting" "echo_back" "greeting" ∷ [])
      (port "task_text" ∷ [])

-- A key that the server is not given.
envkey_test :
    env_key_diagnostics (greet (record (server "npx ${1}") { env = none }) ∷ [])
    ≡ envkey_not_referenced "greet" "hub" "TOKEN" ∷ []
unfolding env_key_diagnostics
envkey_test = refl

distinct : Distinct (stage_names greeting)
distinct = ground (arith, eq_iff "greet" "echo_back", eq_iff "echo_back" "greet")

silent : validate_structural none greeting ≡ some []
unfolding validate_structural name_diagnostics type_diagnostics wire_diagnostics
    rollback_diagnostics session_diagnostics resuming_stages duplicates includes set_add
    entry_diagnostics reserved_names external_inputs port_diagnostics dataflow_diagnostics
    env_key_diagnostics map_get map_set has_port
silent = refl

no_cycle : validate_dag greeting ≡ accepted
unfolding validate_dag build_dag note_wires kahn run sort_names degree finish_dag map_get map_set
    includes set_add
no_cycle = refl

is_valid : validate {D = String} none none greeting ≡ valid
unfolding validate validate_store_schema
is_valid = rw (silent, validate, no_cycle, dag_part) refl

env_key_diagnostics_correct_example :
    (env_key_diagnostics greeting.stages ≡ [])
    ↔ All (λ (s : Stage). All ServerOk (servers_of s.config)) greeting.stages
env_key_diagnostics_correct_example = env_key_diagnostics_correct greeting.stages

validate_correct_example :
    (validate {D = String} none none greeting ≡ valid) ↔ IsValid {D = String} none none greeting
validate_correct_example = validate_correct none none greeting

abbrev always_open : InboundWire → String → String → Bool
always_open w g v = true

abbrev options : CompileOptions
options = record { task_id = "t"; seed_values = none; initial_context = none }

valid-compiles_example :
    (m : CompiledMachine) × (compile_ir_to_machine always_open greeting options ≡ compiled m)
    × IsMachine always_open greeting options m
valid-compiles_example = valid-compiles {D = String} none always_open options none greeting is_valid

validate-Responds_example : Responds (validate {D = String} none none greeting)
validate-Responds_example = validate-Responds none none greeting distinct
