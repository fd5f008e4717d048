-- ===== src/Agent/Adapter/Pumped.antt =====
-- What a stream of messages makes of a turn, whenever the runner aborts it.
use mathlib.Core.List.{append-nil}
use workflow_control.Prelude.{
  Option, none, some, true, false, List, [], ◌∷◌, ◌++◌, ◌≡◌, ◌≢◌, refl, sym, ◌∙◌, inl, inr, All,
  if◌then◌else◌, arith, Bool-cases, Option-cases,
}
use workflow_control.Agent.{send, send_all, create_agent_machine}
use workflow_control.Agent.Context.{
  AgentState, starting, waiting_for_claude, dispatching_tool, compacting, done, error, AgentContext,
  AgentEvent, sdk_init, assistant_text, compact_started, compact_ended, interrupt,
  AgentMachineInput, AgentSnapshot,
}
use workflow_control.Agent.Adapter.{
  SdkMessage, ContentBlock, SdkAdapter, is_compact_boundary, tool_uses, tool_results, own_events,
  saw_tool_use, leaving, translate, Input, message, abort, Turn, pump_one, pump, start_turn,
}

-- An event that opens no window of compaction.
abbrev IsOther : AgentEvent → Type 0
IsOther (compact_started metadata) = ⊥
IsOther _ = Unit

tool_uses-IsOther : (bs : List ContentBlock) → All IsOther (tool_uses bs)
unfolding tool_uses
tool_uses-IsOther [] = tt
tool_uses-IsOther (b ∷ bs) = ground (arith, tool_uses-IsOther bs)

tool_results-IsOther : (bs : List ContentBlock) → All IsOther (tool_results bs)
unfolding tool_results
tool_results-IsOther [] = tt
tool_results-IsOther (b ∷ bs) = ground (arith, tool_results-IsOther bs)

All-append : {A : Type 0} (P : A → Type 0) (xs ys : List A) → All P xs → All P ys → All P (xs ++ ys)
All-append P [] ys a b = b
All-append P (x ∷ xs) ys a b = (a.0, All-append P xs ys a.1 b)

abbrev Others : Option (List AgentEvent) → Type 0
Others none = Unit
Others (some es) = All IsOther es

own_events-Others : (m : SdkMessage) → is_compact_boundary m ≡ false → Others (own_events m)
unfolding own_events is_compact_boundary
own_events-Others m h =
    let uses =
      All-append IsOther (tool_uses m.content)
        (if saw_tool_use m.content then [] else assistant_text ∷ []) (tool_uses-IsOther m.content)
        (ground arith) in
    ground (arith, uses, tool_results-IsOther m.content)

keeps_out :
    (st : AgentState) (c : AgentContext) (e : AgentEvent)
    → IsOther e
    → st ≢ compacting
    → (send e (record { state = st; context = c })).state ≢ compacting
unfolding send
keeps_out starting c sdk_init o h = ground arith
keeps_out starting c _ o h = ground arith
keeps_out waiting_for_claude c (compact_started metadata) o h = absurd o
keeps_out waiting_for_claude c _ o h = ground arith
keeps_out dispatching_tool c sdk_init o h = ground arith
keeps_out dispatching_tool c _ o h = ground arith
keeps_out compacting c e o h = absurd (h refl)
keeps_out done c e o h = h
keeps_out error c e o h = h

send_all-keeps_out :
    (es : List AgentEvent) (s : AgentSnapshot)
    → All IsOther es
    → s.state ≢ compacting
    → (send_all es s).state ≢ compacting
send_all-keeps_out [] s o h = h
send_all-keeps_out (e ∷ es) s o h =
    send_all-keeps_out es (send e s) o.1 (keeps_out s.state s.context e o.0 h)

leaves :
    (st : AgentState) (c : AgentContext)
    → (send compact_ended (record { state = st; context = c })).state ≢ compacting
unfolding send
leaves starting c = ground arith
leaves waiting_for_claude c = ground arith
leaves dispatching_tool c = ground arith
leaves compacting c = ground arith
leaves done c = ground arith
leaves error c = ground arith

abbrev pub told : Option (List AgentEvent) → List AgentEvent
told none = []
told (some es) = es

pub translate_lem :
    (m : SdkMessage) (a : SdkAdapter)
    → ((translate m a).0.in_compact ≡ is_compact_boundary m)
      × ((translate m a).1 ≡ leaving m a ++ told (own_events m))
unfolding translate
translate_lem m a = elim (Option-cases (own_events m)) [
  | inl e ↦ rw (e, translate) (refl, sym (append-nil (leaving m a)))
  | inr (es, e) ↦ rw (e, translate) (refl, refl)
]

told-Others : (o : Option (List AgentEvent)) → Others o → All IsOther (told o)
told-Others none h = tt
told-Others (some es) h = h

pub send_all-append :
    (xs ys : List AgentEvent) (s : AgentSnapshot)
    → send_all (xs ++ ys) s ≡ send_all ys (send_all xs s)
send_all-append [] ys s = refl
send_all-append (x ∷ xs) ys s = send_all-append xs ys (send x s)

-- While the machine compacts, the adapter knows.
abbrev IsKnown : Turn → Type 0
IsKnown t = t.machine.state ≡ compacting → t.adapter.in_compact ≡ true

after_leaving :
    (m : SdkMessage) (t : Turn)
    → is_compact_boundary m ≡ false
    → IsKnown t
    → (send_all (leaving m t.adapter) t.machine).state ≢ compacting
after_leaving m t h k = elim (Bool-cases t.adapter.in_compact) [
  | inl e ↦ rw (e, h) (leaves t.machine.state t.machine.context)
  | inr e ↦ rw e (λ c. ground (arith, k c))
]

leaves_compacting :
    (m : SdkMessage) (t : Turn)
    → is_compact_boundary m ≡ false
    → IsKnown t
    → (pump_one (message m) t).machine.state ≢ compacting
unfolding pump_one
leaves_compacting m t h k =
    let (_, e) = translate_lem m t.adapter in
    rw (e, send_all-append (leaving m t.adapter) (told (own_events m)) t.machine)
      (send_all-keeps_out (told (own_events m)) (send_all (leaving m t.adapter) t.machine)
        (told-Others (own_events m) (own_events-Others m h)) (after_leaving m t h k))

abort_compacting :
    (st : AgentState) (c : AgentContext)
    → (send interrupt (record { state = st; context = c })).state ≡ compacting
    → st ≡ compacting
unfolding send
abort_compacting starting c h = ground arith
abort_compacting waiting_for_claude c h = ground arith
abort_compacting dispatching_tool c h = ground arith
abort_compacting compacting c h = refl
abort_compacting done c h = h
abort_compacting error c h = h

pump_one-IsKnown : (i : Input) (t : Turn) → IsKnown t → IsKnown (pump_one i t)
unfolding pump_one
pump_one-IsKnown abort t k h = k (abort_compacting t.machine.state t.machine.context h)
pump_one-IsKnown (message m) t k h = elim (Bool-cases (is_compact_boundary m)) [
  | inl e ↦ (translate_lem m t.adapter).0 ∙ e
  | inr e ↦ absurd (leaves_compacting m t e k h)
]

pump-IsKnown : (is : List Input) (t : Turn) → IsKnown t → IsKnown (pump is t)
pump-IsKnown [] t k = k
pump-IsKnown (i ∷ is) t k = pump-IsKnown is (pump_one i t) (pump_one-IsKnown i t k)

start_turn-IsKnown : (input : AgentMachineInput) → IsKnown (start_turn input)
unfolding create_agent_machine
start_turn-IsKnown input h = ground arith

-- Whatever messages and aborts a turn has had: where the machine compacts, the adapter is in a
-- window of compaction, and the next message ends it, unless it announces another compaction.
pub pump_compacting :
    (input : AgentMachineInput) (is : List Input)
    → let t = pump is (start_turn input) in
      (t.machine.state ≡ compacting → t.adapter.in_compact ≡ true)
      × ((m : SdkMessage)
          → is_compact_boundary m ≡ false
          → (pump_one (message m) t).machine.state ≢ compacting)
pump_compacting input is =
    let known = pump-IsKnown is (start_turn input) (start_turn-IsKnown input) in
    (known, λ m h. leaves_compacting m (pump is (start_turn input)) h known)
