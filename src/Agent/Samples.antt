-- ===== src/Agent/Samples.antt =====
-- A turn that runs two tools, and one that compacts.
use workflow_control.Prelude.{
  String, Option, none, some, ◌≢◌, Bool, true, false, List, [], ◌∷◌, ◌≡◌, refl, eq_iff, arith,
}
use workflow_control.Agent.{
  is_last_tool, without_first, dequeue_tool_result, should_pause, send, send_all,
  create_agent_machine, enqueue_tool_use,
}
use workflow_control.Agent.Context.{
  dispatching_tool, waiting_for_claude, compacting, rate_limit_signal, AgentEvent, sdk_init,
  tool_use_requested, tool_result_received, interrupt, Content, text, Utilization,
  AgentMachineInput,
}
use workflow_control.Agent.Sound.{IsSound, send_all-IsSound, create_agent_machine-IsSound}
use workflow_control.Agent.Output.{output}
use workflow_control.Agent.Ending.{Tells, output_lem}
use workflow_control.Agent.Interrupt.{Winds, interrupt_lem}
use workflow_control.Agent.Answered.{IsAnswered, SameIds, count, ids_of, answered_lem}
use workflow_control.Agent.Backoff.{announce, signals, rate_limit_backoff_ms, announce_lem, IsLive}
use workflow_control.Agent.Adapter.{
  SdkMessage, is_compact_boundary, message, abort, pump_one, pump, start_turn,
}
use workflow_control.Agent.Adapter.Pumped.{pump_compacting}
use workflow_control.Agent.Adapter.Results.{HasEnded, result_lem}

abbrev two_tools : List AgentEvent
two_tools = sdk_init ∷ tool_use_requested "read" "{}" "a" ∷ tool_use_requested "grep" "{}" "b" ∷ []

abbrev answers : List (String × Option Content × Bool)
answers = ("b", some (text "found"), false) ∷ ("a", none, true) ∷ []

abbrev full : Utilization
full = record { mantissa = 1; scale = 0 }

abbrev input : AgentMachineInput
input = record { stage_name = "draft"; task_id = "t"; attempt_id = "1"; label = none }

abbrev plain : String → Option String → SdkMessage
plain type subtype = record {
  type = type;
  subtype = subtype;
  content = [];
  compact_metadata = none;
  utilization = none;
  total_cost_usd = none;
  num_turns = none;
  error_message = none;
  result = none;
}

abbrev init : SdkMessage
init = plain "system" (some "init")

abbrev boundary : SdkMessage
boundary = plain "system" (some "compact_boundary")

send_all-IsSound_example : IsSound (send_all two_tools (create_agent_machine none))
send_all-IsSound_example = send_all-IsSound none two_tools

output_lem_example :
    Tells
      (send_all (interrupt ∷ []) (create_agent_machine none)).state
      (interrupt ∷ [])
      (output (send_all (interrupt ∷ []) (create_agent_machine none)).context)
output_lem_example = output_lem none (interrupt ∷ [])

interrupt_lem_example :
    let s = send_all two_tools (create_agent_machine none) in
    let s' =
      send_all
        (tool_result_received "a" none false ∷ tool_result_received "b" none false ∷ [])
        (send interrupt s) in
    Winds s.context.turns s'.state s'.context
interrupt_lem_example =
    interrupt_lem none two_tools
      (tool_result_received "a" none false ∷ tool_result_received "b" none false ∷ [])

runs : (send_all two_tools (create_agent_machine none)).state ≡ dispatching_tool
unfolding send create_agent_machine enqueue_tool_use
runs = refl

live : IsLive (create_agent_machine none).state
unfolding create_agent_machine
live = tt

same :
    SameIds
      (ids_of answers)
      (send_all two_tools (create_agent_machine none)).context.pending_tool_use_ids
unfolding send create_agent_machine enqueue_tool_use count
same a = ground (arith, eq_iff "a" a, eq_iff "b" a)

answered_lem_example : IsAnswered answers (send_all two_tools (create_agent_machine none))
answered_lem_example = answered_lem none two_tools answers runs same

pauses : should_pause full ≡ true
unfolding should_pause
pauses = refl

-- The second signal of a row asks for a pause of a second.
announce_lem_example :
    announce
      (some full)
      (send_all (rate_limit_signal none ∷ signals (full ∷ [])) (create_agent_machine none))
    ≡ some (record { delay_ms = rate_limit_backoff_ms 2; signal_count = 2; utilization = full })
announce_lem_example =
    announce_lem (create_agent_machine none) live (create_agent_machine-IsSound none) none
      (full ∷ []) full tt (pauses, tt) pauses

pause_test : rate_limit_backoff_ms 2 ≡ 1000
unfolding rate_limit_backoff_ms
pause_test = refl

pump_compacting_example :
    let t = pump (message init ∷ abort ∷ message boundary ∷ []) (start_turn input) in
    (t.machine.state ≡ compacting → t.adapter.in_compact ≡ true)
    × ((m : SdkMessage)
        → is_compact_boundary m ≡ false
        → (pump_one (message m) t).machine.state ≢ compacting)
pump_compacting_example = pump_compacting input (message init ∷ abort ∷ message boundary ∷ [])

result_lem_example :
    HasEnded
      (pump_one (message (plain "result" none)) (
        pump
          (abort ∷ message boundary ∷ [])
          (pump_one (message init) (pump [] (start_turn input))))).machine.state
result_lem_example =
    result_lem input [] (abort ∷ message boundary ∷ []) init (plain "result" none) (refl, refl) refl

-- An interrupt while a tool runs: the parent is told that it came while the turn waited for Claude.
told_test :
    (output
      (send_all
        (sdk_init
          ∷ tool_use_requested "read" "{}" "a"
          ∷ interrupt
          ∷ tool_result_received "a" none false
          ∷ [])
        (create_agent_machine none)).context).interrupted_from
    ≡ some waiting_for_claude
unfolding output send create_agent_machine enqueue_tool_use dequeue_tool_result is_last_tool
    without_first
told_test = refl
