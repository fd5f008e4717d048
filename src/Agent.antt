-- ===== src/Agent.antt =====
-- The turns of one agent: apps/server/src/kernel-next/runtime/agent-machine.ts. `on` is the table of
-- transitions, `on_entry` and `always` are those of its states, and `send` takes them in XState's
-- order: the actions of the transition, the entry of its target, then what is always enabled. A
-- value that is `unknown` is its JSON text.
pub mod Context
pub mod Output
pub mod Sound
pub mod Ending
pub mod Interrupt
pub mod Answered
pub mod Adapter
mod Samples
pub mod Backoff
use workflow_control.Prelude.{
  String, ℕ, ◌+◌, ◌*◌, ◌^◌, Option, none, some, Bool, true, false, ◌&&◌, ◌||◌, List, [], ◌∷◌, ◌++◌,
  ◌==◌, leb, nat_eq, length, if◌then◌else◌,
}
use workflow_control.Agent.Context.{
  AgentContext, AgentEvent, AgentMachineInput, AgentResult, AgentSnapshot, AgentState, Utilization,
  assistant_text, compact_ended, compact_started, compacting, dispatching_tool, done, error, failed,
  interrupt, interrupted, rate_limit_signal, result_error, result_success, sdk_init, starting,
  success, tool_result_received, tool_use_requested, waiting_for_claude,
}

-- RATE_LIMIT_UTIL_THRESHOLD, the number that 0.9 is read as.
abbrev threshold : Utilization
threshold = record { mantissa = 8106479329266893; scale = 53 }

unfoldable pub should_pause : Utilization → Bool
should_pause u = leb (threshold.mantissa * 2 ^ u.scale) (u.mantissa * 2 ^ threshold.scale)

unfoldable pub enqueue_tool_use : String → AgentContext → AgentContext
enqueue_tool_use id c = record c { pending_tool_use_ids = c.pending_tool_use_ids ++ id ∷ [] }

-- `splice` at the first place, if there is one.
unfoldable pub without_first : String → List String → List String
without_first id [] = []
without_first id (x ∷ xs) = let rest = without_first id xs in if x == id then xs else x ∷ rest

unfoldable pub dequeue_tool_result : String → AgentContext → AgentContext
dequeue_tool_result id c = record c {
  pending_tool_use_ids = without_first id c.pending_tool_use_ids;
}

abbrev pub arm_interrupt : AgentContext → AgentContext
arm_interrupt c = record c { interrupt_armed = true }

abbrev pub mark_summary_turn_used : AgentContext → AgentContext
mark_summary_turn_used c = record c { summary_turn_used = c.interrupt_armed || c.summary_turn_used }

abbrev pub record_result : AgentResult → AgentContext → AgentContext
record_result r c = record c { result = some r }

abbrev pub clear_compact : AgentContext → AgentContext
clear_compact c = record c { compact_metadata = none }

abbrev pub next_signals : Option Utilization → ℕ → ℕ
next_signals none n = 0
next_signals (some u) n = if should_pause u then n + 1 else 0

abbrev pub update_rate_limit_counter : Option Utilization → AgentContext → AgentContext
update_rate_limit_counter u c = record c {
  consecutive_rate_limit_signals = next_signals u c.consecutive_rate_limit_signals;
}

-- The guard of the first transition of TOOL_RESULT_RECEIVED.
unfoldable pub is_last_tool : String → List String → Bool
is_last_tool id [] = false
is_last_tool id (x ∷ xs) = nat_eq (length xs) 0 && x == id

-- What a transition does: it stays, after its actions, or it enters a state.
pub data Move : Type 0 where
  stays : AgentContext → Move
  enters : AgentState → AgentContext → Move

-- A transition of `starting`; `none` where none is declared.
unfoldable pub on_starting : AgentEvent → AgentContext → Option Move
on_starting sdk_init c = some (enters waiting_for_claude c)
on_starting interrupt c = some (enters done (record_result (interrupted starting) c))
on_starting (rate_limit_signal u) c = some (stays (update_rate_limit_counter u c))
on_starting assistant_text c = some (stays c)
on_starting e c = none

unfoldable pub on_waiting : AgentEvent → AgentContext → Option Move
on_waiting assistant_text c = some (stays c)
on_waiting (rate_limit_signal u) c = some (stays (update_rate_limit_counter u c))
on_waiting (tool_use_requested name input id) c =
    some (enters dispatching_tool (mark_summary_turn_used (enqueue_tool_use id c)))
on_waiting (compact_started metadata) c =
    some
      (enters compacting (mark_summary_turn_used (record c { compact_metadata = some metadata })))
on_waiting (result_success cost turns) c = some (enters done (record_result (success cost turns) c))
on_waiting (result_error subtype message) c =
    some (enters error (record_result (failed subtype message) c))
on_waiting interrupt c = some (stays (arm_interrupt c))
on_waiting e c = none

unfoldable pub on_dispatching : AgentEvent → AgentContext → Option Move
on_dispatching (tool_use_requested name input id) c = some (stays (enqueue_tool_use id c))
on_dispatching (tool_result_received id output is_error) c =
    let after = dequeue_tool_result id c in
    if is_last_tool id c.pending_tool_use_ids
    then some (enters waiting_for_claude after)
    else some (stays after)
on_dispatching assistant_text c = some (stays c)
on_dispatching (rate_limit_signal u) c = some (stays (update_rate_limit_counter u c))
on_dispatching interrupt c = some (stays (mark_summary_turn_used (arm_interrupt c)))
on_dispatching (result_success cost turns) c =
    some (enters done (record_result (success cost turns) c))
on_dispatching (result_error subtype message) c =
    some (enters error (record_result (failed subtype message) c))
on_dispatching e c = none

unfoldable pub on_compacting : AgentEvent → AgentContext → Option Move
on_compacting compact_ended c = some (enters waiting_for_claude (clear_compact c))
on_compacting interrupt c = some (stays (mark_summary_turn_used (arm_interrupt c)))
on_compacting (result_success cost turns) c =
    some (enters done (record_result (success cost turns) (clear_compact c)))
on_compacting (result_error subtype message) c =
    some (enters error (record_result (failed subtype message) (clear_compact c)))
on_compacting (rate_limit_signal u) c = some (stays (update_rate_limit_counter u c))
on_compacting assistant_text c = some (stays c)
on_compacting e c = none

unfoldable pub on : AgentState → AgentEvent → AgentContext → Option Move
unfolding on_starting on_waiting on_dispatching on_compacting
on starting e c = on_starting e c
on waiting_for_claude e c = on_waiting e c
on dispatching_tool e c = on_dispatching e c
on compacting e c = on_compacting e c
on done e c = none
on error e c = none

-- bumpTurns
abbrev pub on_entry : AgentState → AgentContext → AgentContext
on_entry waiting_for_claude c = record c { turns = c.turns + 1 }
on_entry _ c = c

unfoldable pub always : AgentState → AgentContext → AgentSnapshot
always waiting_for_claude c =
    if c.interrupt_armed && c.summary_turn_used
    then record { state = done; context = record_result (interrupted waiting_for_claude) c }
    else record { state = waiting_for_claude; context = c }
always s c = record { state = s; context = c }

abbrev pub take_move : AgentState → Option Move → AgentContext → AgentSnapshot
take_move s none c = record { state = s; context = c }
take_move s (some (stays c')) c = always s c'
take_move s (some (enters s' c')) c = always s' (on_entry s' c')

unfoldable pub send : AgentEvent → AgentSnapshot → AgentSnapshot
unfolding on always
send e s = take_move s.state (on s.state e s.context) s.context

abbrev pub send_all : List AgentEvent → AgentSnapshot → AgentSnapshot
send_all [] s = s
send_all (e ∷ es) s = send_all es (send e s)

abbrev input_or_empty : Option AgentMachineInput → AgentMachineInput
input_or_empty none = record { stage_name = ""; task_id = ""; attempt_id = ""; label = none }
input_or_empty (some input) = input

-- The actor once it is started.
unfoldable pub create_agent_machine : Option AgentMachineInput → AgentSnapshot
create_agent_machine input = record {
  state = starting;
  context = record {
    input = input_or_empty input;
    turns = 0;
    pending_tool_use_ids = [];
    compact_metadata = none;
    result = none;
    interrupt_armed = false;
    summary_turn_used = false;
    consecutive_rate_limit_signals = 0;
  };
}
