-- ===== src/Agent/Context.antt =====
-- The state, the context and the events of a turn (agent-machine.ts).
use workflow_control.Prelude.{String, ℕ, Option, Bool, List}

pub data AgentState : Type 0 where
  starting waiting_for_claude dispatching_tool compacting done error : AgentState

pub data Trigger : Type 0 where
  manual auto : Trigger

pub record CompactMetadata : Type 0 where
  pub trigger : Trigger
  pub pre_tokens : ℕ

-- A number of JavaScript that is not negative: the mantissa over that power of two.
pub record Utilization : Type 0 where
  pub mantissa : ℕ
  pub scale : ℕ

pub data AgentResult : Type 0 where
  success : (cost : Option String) → (turns : Option ℕ) → AgentResult
  failed : (subtype message : String) → AgentResult
  interrupted : (from : AgentState) → AgentResult

pub record AgentMachineInput : Type 0 where
  pub stage_name : String
  pub task_id : String
  pub attempt_id : String
  pub label : Option String

pub record AgentContext : Type 0 where
  pub input : AgentMachineInput
  pub turns : ℕ
  pub pending_tool_use_ids : List String
  pub compact_metadata : Option CompactMetadata
  pub result : Option AgentResult
  pub interrupt_armed : Bool
  pub summary_turn_used : Bool
  pub consecutive_rate_limit_signals : ℕ

-- The content of a result: a text, or another value by its JSON text.
pub data Content : Type 0 where
  text : String → Content
  json : String → Content

pub data AgentEvent : Type 0 where
  sdk_init : AgentEvent
  assistant_text : AgentEvent
  tool_use_requested : (name input id : String) → AgentEvent
  tool_result_received : (id : String) → (output : Option Content) → (is_error : Bool) → AgentEvent
  compact_started : (metadata : CompactMetadata) → AgentEvent
  compact_ended : AgentEvent
  rate_limit_signal : (utilization : Option Utilization) → AgentEvent
  result_success : (cost_usd : Option String) → (num_turns : Option ℕ) → AgentEvent
  result_error : (subtype message : String) → AgentEvent
  interrupt : AgentEvent

pub record AgentSnapshot : Type 0 where
  pub state : AgentState
  pub context : AgentContext
