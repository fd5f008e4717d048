-- ===== src/Machine/Context.antt =====
-- What a run and its regions are made of (ir-to-machine.ts).
use workflow_control.Prelude.{String, ℕ, Option, Bool, List}
use workflow_control.Ir.{RouteTarget, RetrySpec, WireTarget}
use workflow_control.Structural.{StageType}

pub data Outcome : Type 0 where
  outcome_done outcome_error : Outcome

pub data FailureReason : Type 0 where
  no_active_wire executor_failed upstream_cancelled : FailureReason

pub record FinalizedStage : Type 0 where
  pub name : String
  pub outcome : Outcome
  pub reason : Option FailureReason
  pub message : Option String

pub record MachineContext : Type 0 where
  pub task_id : String
  pub version_hash : String
  pub port_values : List (String × String)
  pub log : List String
  pub gate_authorized_targets : List String
  pub gate_skipped_targets : List String
  pub finalized_stages : List FinalizedStage
  pub retry_counts : List (String × ℕ)

pub record RetryToStage : Type 0 where
  pub failed_stage_name : String
  pub back_to_stage : String
  pub retry_idx : ℕ
  pub max_retries : ℕ
  pub error_message : String

pub data MachineEvent : Type 0 where
  start : MachineEvent
  port_written : (key value : String) → MachineEvent
  stage_failed : (stage error : String) → MachineEvent
  stage_cancelled : (stage upstream_stage : String) → MachineEvent
  gate_answered : (gate_id stage_name answer : String) (target_stage : RouteTarget) → MachineEvent
  interrupt : (stage : Option String) → MachineEvent
  retry_to_stage : RetryToStage → MachineEvent
  gate_rejected :
      (gate_id stage_name answer : String) (target_stage : RouteTarget)
      (affected_stages : List String)
      → MachineEvent

pub record InboundWire : Type 0 where
  pub source_key : String
  pub from : WireTarget
  pub to : WireTarget
  pub guard : Option String

pub record StageMeta : Type 0 where
  pub stage_type : StageType
  pub inbound : List InboundWire
  pub outbound : List String
  pub gate_routed : Bool

-- What `buildStageRegion` closes over.
pub record Region : Type 0 where
  pub name : String
  pub meta : StageMeta
  pub gate_siblings : List (String × List String)
  pub retry : Option RetrySpec
  pub evaluate : InboundWire → (guard value : String) → Bool

pub data Phase : Type 0 where
  waiting executing done error : Phase

-- A transition that was taken: its target with all actions done, and the event that it raises; or
-- an INTERRUPT that is passed on to the executor, which changes nothing here.
pub data Reaction : Type 0 where
  go : Phase → MachineContext → Reaction
  go_raise : Phase → MachineContext → RetryToStage → Reaction
  forward_interrupt : Reaction
