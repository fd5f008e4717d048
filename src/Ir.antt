-- ===== src/Ir.antt =====
-- The pipeline IR: apps/server/src/kernel-next/ir/schema.ts.
-- An optional property of a parsed object is an `Option`. `unknown` JSON values are their text.
-- `fanout` is a field of every stage, since the validator reads it on gates too.
pub mod Wires
pub mod Samples
use workflow_control.Prelude.{String, ℕ, Bool, List, Option}

pub record Port : Type 0 where
  pub name : String
  pub type : String
  pub zod : Option String
  pub description : Option String
  pub optional : Option Bool

pub record FanoutSpec : Type 0 where
  pub input : String
  pub concurrency : Option ℕ
  pub element_retries : Option ℕ
  pub element_timeout_ms : Option ℕ

pub record GateAnswerOption : Type 0 where
  pub value : String
  pub description : Option String

pub record GateQuestion : Type 0 where
  pub text : String
  pub options : Option (List GateAnswerOption)

pub record RetrySpec : Type 0 where
  pub max_retries : ℕ
  pub back_to_stage : String

pub record SubAgentDef : Type 0 where
  pub name : String
  pub description : String
  pub prompt : String
  pub tools : Option (List String)
  pub model : Option String
  pub max_turns : Option ℕ

pub record McpServerDecl : Type 0 where
  pub name : String
  pub command : String
  pub args : List String
  pub env : Option (List (String × String))
  pub env_keys : List String

pub data RouteTarget : Type 0 where
  one : String → RouteTarget
  many : List String → RouteTarget

pub record GateRouting : Type 0 where
  pub routes : List (String × RouteTarget)

pub record AgentConfig : Type 0 where
  pub prompt_ref : String
  pub sub_agents : Option (List SubAgentDef)
  pub mcp_servers : Option (List McpServerDecl)
  pub cross_segment_resume_from : Option String

pub data ScriptConfig : Type 0 where
  registry : (module_id : String) (retry : Option RetrySpec) → ScriptConfig
  inline :
      (module_source : String) (sample_inputs : List (String × String)) (retry : Option RetrySpec)
      → ScriptConfig

pub record GateConfig : Type 0 where
  pub question : GateQuestion
  pub routing : GateRouting
  pub timeout_minutes : Option ℕ

pub data StageConfig : Type 0 where
  agent : AgentConfig → StageConfig
  script : ScriptConfig → StageConfig
  gate : GateConfig → StageConfig

pub record Stage : Type 0 where
  pub name : String
  pub inputs : List Port
  pub outputs : List Port
  pub fanout : Option FanoutSpec
  pub config : StageConfig

pub data WireSource : Type 0 where
  stage : (stage port : String) → WireSource
  external : (port : String) → WireSource

pub record WireTarget : Type 0 where
  pub stage : String
  pub port : String

pub record Wire : Type 0 where
  pub from : WireSource
  pub to : WireTarget
  pub guard : Option String

pub record StoreSchemaEntry : Type 0 where
  pub type : String
  pub description : Option String
  pub produced_by : WireTarget

pub data SessionMode : Type 0 where
  multi single : SessionMode

pub record Pipeline : Type 0 where
  pub name : String
  pub stages : List Stage
  pub wires : List Wire
  pub entry : Option String
  pub external_inputs : Option (List Port)
  pub store_schema : Option (List (String × StoreSchemaEntry))
  pub session_mode : Option SessionMode
