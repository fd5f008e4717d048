-- ===== src/Agent/Adapter.antt =====
-- The messages of the SDK and the events they become: apps/server/src/kernel-next/runtime/
-- sdk-adapter.ts, and the loop of stream-pump.ts that sends the events to the machine of the turn. A
-- field that is no text where the code asks for one is `none`.
pub mod Pumped
pub mod Results
use workflow_control.Prelude.{
  String, ℕ, Option, none, some, is_some, Bool, false, not, ◌&&◌, ◌||◌, List, [], ◌∷◌, ◌++◌, ◌==◌,
  any, codes, if◌then◌else◌,
}
use Prim.Native.String.{◌++◌ as ◌+++◌}
use workflow_control.Guards.{after_prefix}
use workflow_control.Agent.{send_all, create_agent_machine}
use workflow_control.Agent.Context.{
  auto, CompactMetadata, Utilization, Content, text, AgentEvent, sdk_init, assistant_text,
  tool_use_requested, tool_result_received, compact_started, compact_ended, rate_limit_signal,
  result_success, result_error, interrupt, AgentMachineInput, AgentSnapshot,
}

pub record ContentBlock : Type 0 where
  pub type : String
  pub id : Option String
  pub tool_use_id : Option String
  pub camel_tool_use_id : Option String
  pub is_error : Bool
  pub name : Option String
  pub input : String
  pub content : Option Content

-- `content` is `message?.content ?? []`, and `utilization` is that of `rate_limit_info`.
pub record SdkMessage : Type 0 where
  pub type : String
  pub subtype : Option String
  pub content : List ContentBlock
  pub compact_metadata : Option CompactMetadata
  pub utilization : Option Utilization
  pub total_cost_usd : Option String
  pub num_turns : Option ℕ
  pub error_message : Option String
  pub result : Option String

pub record SdkAdapter : Type 0 where
  pub in_compact : Bool
  pub unknown_messages : List (String × Option String)

unfoldable pub create_sdk_adapter : SdkAdapter
create_sdk_adapter = record { in_compact = false; unknown_messages = [] }

abbrev is_text : Option String → String → Bool
is_text none t = false
is_text (some s) t = s == t

unfoldable pub is_compact_boundary : SdkMessage → Bool
is_compact_boundary m = m.type == "system" && is_text m.subtype "compact_boundary"

-- The requests of an assistant's message, and whether one was seen.
unfoldable pub tool_uses : List ContentBlock → List AgentEvent
tool_uses [] = []
tool_uses (b ∷ bs) =
    let rest = tool_uses bs in
    if b.type == "tool_use"
    then elim b.id [
      | none ↦ rest
      | some id ↦ elim b.name [
        | none ↦ rest
        | some name ↦ tool_use_requested name b.input id ∷ rest
      ]
    ]
    else rest

abbrev pub saw_tool_use : List ContentBlock → Bool
saw_tool_use = any (λ b. b.type == "tool_use")

-- tool_use_id, toolUseId or id, the first that is a text.
abbrev pub result_id : ContentBlock → Option String
result_id b = elim b.tool_use_id [
  | some id ↦ some id
  | none ↦ elim b.camel_tool_use_id [ some id ↦ some id | none ↦ b.id ]
]

-- `String.includes`
unfoldable pub text_includes : (needle : List ℕ) → List ℕ → Bool
unfolding after_prefix
text_includes needle [] = is_some (after_prefix needle [])
text_includes needle (c ∷ cs) =
    let later = text_includes needle cs in is_some (after_prefix needle (c ∷ cs)) || later

abbrev pub has_error_tag : Option Content → Bool
has_error_tag (some (text t)) = text_includes (codes "<tool_use_error>") (codes t)
has_error_tag _ = false

unfoldable pub tool_results : List ContentBlock → List AgentEvent
tool_results [] = []
tool_results (b ∷ bs) =
    let rest = tool_results bs in
    if b.type == "tool_result"
    then elim (result_id b) [
      | none ↦ rest
      | some id ↦ tool_result_received id b.content (b.is_error || has_error_tag b.content) ∷ rest
    ]
    else rest

abbrev or_else {ℓ} : {A : Type ℓ} → Option A → A → A
or_else none a = a
or_else (some b) a = b

abbrev pub is_success : SdkMessage → Bool
is_success m = is_text m.subtype "success"

abbrev pub error_event : SdkMessage → AgentEvent
error_event m =
    let subtype = or_else m.subtype "unknown" in
    result_error subtype
      (or_else m.error_message (or_else m.result ("result subtype: " +++ subtype)))

-- What a message itself becomes; `none` where its type is unknown.
unfoldable pub own_events : SdkMessage → Option (List AgentEvent)
unfolding tool_uses tool_results
own_events m =
    if m.type == "system"
    then if is_text m.subtype "init"
      then some (sdk_init ∷ [])
      else if is_text m.subtype "compact_boundary"
      then some (
          compact_started (or_else m.compact_metadata (record { trigger = auto; pre_tokens = 0 }))
          ∷ [])
      else some []
    else if m.type == "assistant"
    then some (tool_uses m.content ++ (if saw_tool_use m.content then [] else assistant_text ∷ []))
    else if m.type == "user"
    then some (tool_results m.content)
    else if m.type == "rate_limit_event"
    then some (rate_limit_signal m.utilization ∷ [])
    else if m.type == "result"
    then some
        ((if is_success m then result_success m.total_cost_usd m.num_turns else error_event m) ∷ [])
    else none

-- The synthetic COMPACT_ENDED before another message.
abbrev pub leaving : SdkMessage → SdkAdapter → List AgentEvent
leaving m a = if a.in_compact && not (is_compact_boundary m) then compact_ended ∷ [] else []

unfoldable pub translate : SdkMessage → SdkAdapter → SdkAdapter × List AgentEvent
unfolding is_compact_boundary own_events
translate m a =
    let a' = record a { in_compact = is_compact_boundary m } in
    elim (own_events m) [
      | some events ↦ (a', leaving m a ++ events)
      | none ↦ (
        record a' { unknown_messages = a.unknown_messages ++ (m.type, m.subtype) ∷ [] },
        leaving m a,
      )
    ]

-- What comes to a turn: a message of the stream, or the abort that the runner signals between two.
pub data Input : Type 0 where
  message : SdkMessage → Input
  abort : Input

pub record Turn : Type 0 where
  pub adapter : SdkAdapter
  pub machine : AgentSnapshot

unfoldable pub pump_one : Input → Turn → Turn
unfolding translate
pump_one (message m) t =
    let (a, events) = translate m t.adapter in
    record { adapter = a; machine = send_all events t.machine }
pump_one abort t = record t { machine = send_all (interrupt ∷ []) t.machine }

abbrev pub pump : List Input → Turn → Turn
pump [] t = t
pump (i ∷ is) t = pump is (pump_one i t)

abbrev pub start_turn : AgentMachineInput → Turn
start_turn input = record {
  adapter = create_sdk_adapter;
  machine = create_agent_machine (some input);
}
