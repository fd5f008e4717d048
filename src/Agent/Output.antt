-- ===== src/Agent/Output.antt =====
-- What the actor of a turn gives its parent when it ends (agent-machine.ts, `output`).
use workflow_control.Prelude.{String, ℕ, Option, none, some}
use workflow_control.Agent.Context.{
  AgentState, AgentResult, success, failed, interrupted, AgentMachineInput, AgentContext,
}

pub data OutputStatus : Type 0 where
  status_done status_interrupted status_error : OutputStatus

pub record AgentDiagnostic : Type 0 where
  pub subtype : String
  pub message : String

pub record AgentMachineOutput : Type 0 where
  pub status : OutputStatus
  pub diagnostic : Option AgentDiagnostic
  pub interrupted_from : Option AgentState
  pub turns : ℕ
  pub input : AgentMachineInput

abbrev output_error : String → String → AgentContext → AgentMachineOutput
output_error subtype message c = record {
  status = status_error;
  diagnostic = some (record { subtype = subtype; message = message });
  interrupted_from = none;
  turns = c.turns;
  input = c.input;
}

abbrev output_with : Option AgentResult → AgentContext → AgentMachineOutput
output_with none c = output_error "internal" "final state reached without result" c
output_with (some (success cost turns)) c = record {
  status = status_done;
  diagnostic = none;
  interrupted_from = none;
  turns = c.turns;
  input = c.input;
}
output_with (some (failed subtype message)) c = output_error subtype message c
output_with (some (interrupted from)) c = record {
  status = status_interrupted;
  diagnostic = none;
  interrupted_from = some from;
  turns = c.turns;
  input = c.input;
}

unfoldable pub output : AgentContext → AgentMachineOutput
output c = output_with c.result c
