-- ===== src/Machine/Waiting.antt =====
-- The state `waiting` of a region, and the tables of all four states together.
use workflow_control.Prelude.{String, Option, none, some, ◌&&◌, List, ◌==◌, includes, if◌then◌else◌}
use workflow_control.Structural.Stages.{targets_of}
use workflow_control.Machine.{
  was_finalized, all_inbound_delivered, no_deliverable_wire, all_delivered, has_dropped,
  is_unpicked, finalize_error, enter_done, enter_executing, authorize, skip, fail, cancel,
  executing_always, executing_on,
}
use workflow_control.Machine.Context.{
  MachineContext, MachineEvent, start, port_written, stage_failed, stage_cancelled, gate_answered,
  interrupt, retry_to_stage, gate_rejected, Region, Phase, waiting, executing, done, error,
  Reaction, go, no_active_wire, outcome_done, outcome_error,
}

abbrev pub run_stage : Region → MachineContext → Reaction
run_stage r c = go executing (enter_executing r c)

abbrev pub dead_end : Region → MachineContext → Reaction
dead_end r c = go error (finalize_error r no_active_wire none ":error" c)

unfoldable pub waiting_always : Region → MachineContext → Option Reaction
unfolding enter_done enter_executing finalize_error
waiting_always r c =
    if was_finalized c r.name outcome_done
    then some (go done (enter_done r c))
    else if was_finalized c r.name outcome_error
    then some (go error c)
    else if includes c.gate_skipped_targets r.name
    then some (go done (enter_done r c))
    else if all_inbound_delivered r c
    then some (run_stage r c)
    else if no_deliverable_wire r c
    then some (dead_end r c)
    else none

unfoldable pub waiting_written : Region → MachineContext → Option Reaction
unfolding enter_executing finalize_error
waiting_written r c =
    if all_inbound_delivered r c
    then some (run_stage r c)
    else if no_deliverable_wire r c
    then some (dead_end r c)
    else none

unfoldable pub waiting_answered :
    Region → (gate : String) → (picked : List String) → MachineContext → Option Reaction
unfolding enter_done enter_executing finalize_error authorize skip
waiting_answered r g picked c =
    if is_unpicked r g picked
    then some (go done (enter_done r (skip r c)))
    else if includes picked r.name && all_delivered r c
    then some (run_stage r (authorize r c))
    else if includes picked r.name && has_dropped r c
    then some (dead_end r (authorize r c))
    else none

unfoldable pub waiting_on : Region → MachineEvent → MachineContext → Option Reaction
unfolding waiting_written waiting_answered finalize_error
waiting_on r (port_written key value) c = waiting_written r c
waiting_on r (stage_failed stage message) c =
    if stage == r.name then some (fail r message c) else none
waiting_on r (stage_cancelled stage upstream) c =
    if stage == r.name then some (cancel r c) else none
waiting_on r (gate_answered id g answer target) c = waiting_answered r g (targets_of target) c
waiting_on r start c = none
waiting_on r (interrupt stage) c = none
waiting_on r (retry_to_stage retry) c = none
waiting_on r (gate_rejected id g answer target affected) c = none

-- What a region does of itself, and on an event.
unfoldable pub react_always : Region → Phase → MachineContext → Option Reaction
react_always r waiting c = waiting_always r c
react_always r executing c = executing_always r c
react_always r done c = none
react_always r error c = none

unfoldable pub react : Region → MachineEvent → Phase → MachineContext → Option Reaction
react r e waiting c = waiting_on r e c
react r e executing c = executing_on r e c
react r e done c = none
react r e error c = none
