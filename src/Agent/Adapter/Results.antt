-- ===== src/Agent/Adapter/Results.antt =====
-- A stream of messages that starts and gives its result ends the turn.
use workflow_control.Prelude.{
  String, Option, some, List, [], ◌∷◌, ◌++◌, ◌≡◌, ◌≢◌, refl, ap, ℕ, subst, sym, ◌∙◌, ◌⊎◌, inl, inr,
  arith, Bool-cases,
}
use workflow_control.Agent.{send, send_all}
use workflow_control.Agent.Context.{
  AgentState, starting, waiting_for_claude, dispatching_tool, compacting, done, error, AgentContext,
  AgentEvent, sdk_init, result_success, result_error, interrupt, AgentMachineInput, AgentSnapshot,
}
use workflow_control.Agent.Adapter.{
  SdkMessage, own_events, leaving, error_event, is_success, translate, Input, message, abort, Turn,
  pump_one, pump, start_turn,
}
use workflow_control.Agent.Adapter.Pumped.{translate_lem, told, send_all-append}

abbrev pub HasEnded : AgentState → Type 0
HasEnded done = Unit
HasEnded error = Unit
HasEnded s = ⊥

abbrev pub IsInit : SdkMessage → Type 0
IsInit m = (m.type ≡ "system") × (m.subtype ≡ some "init")

-- The event of a result.
abbrev IsResult : AgentEvent → Type 0
IsResult e =
    ((cost : Option String) × (turns : Option ℕ) × (e ≡ result_success cost turns))
    ⊎ ((subtype : String) × (reason : String) × (e ≡ result_error subtype reason))

own_events-init : (m : SdkMessage) → IsInit m → own_events m ≡ some (sdk_init ∷ [])
unfolding own_events
own_events-init m (t, s) = rw (t, s) refl

own_events-IsResult :
    (m : SdkMessage)
    → m.type ≡ "result"
    → (e : AgentEvent) × (own_events m ≡ some (e ∷ [])) × IsResult e
unfolding own_events
own_events-IsResult m t = elim (Bool-cases (is_success m)) [
  | inl e ↦ (
    result_success m.total_cost_usd m.num_turns,
    rw (t, e) refl,
    inl (m.total_cost_usd, m.num_turns, refl),
  )
  | inr e ↦ (error_event m, rw (t, e) refl, inr (_, _, refl))
]

starts :
    (st : AgentState) (c : AgentContext) (e : AgentEvent)
    → st ≢ starting
    → (send e (record { state = st; context = c })).state ≢ starting
unfolding send
starts starting c e h = absurd (h refl)
starts waiting_for_claude c sdk_init h = ground arith
starts waiting_for_claude c _ h = ground arith
starts dispatching_tool c sdk_init h = ground arith
starts dispatching_tool c _ h = ground arith
starts compacting c sdk_init h = ground arith
starts compacting c _ h = ground arith
starts done c e h = h
starts error c e h = h

send_all-starts :
    (es : List AgentEvent) (s : AgentSnapshot)
    → s.state ≢ starting
    → (send_all es s).state ≢ starting
send_all-starts [] s h = h
send_all-starts (e ∷ es) s h = send_all-starts es (send e s) (starts s.state s.context e h)

inits :
    (st : AgentState) (c : AgentContext)
    → (send sdk_init (record { state = st; context = c })).state ≢ starting
unfolding send
inits starting c = ground arith
inits waiting_for_claude c = ground arith
inits dispatching_tool c = ground arith
inits compacting c = ground arith
inits done c = ground arith
inits error c = ground arith

ends :
    (st : AgentState) (c : AgentContext) (e : AgentEvent)
    → IsResult e
    → st ≢ starting
    → HasEnded (send e (record { state = st; context = c })).state
unfolding send
ends starting c e r h = absurd (h refl)
ends waiting_for_claude c e (inl (cost, turns, p)) h = rw p tt
ends waiting_for_claude c e (inr (subtype, reason, p)) h = rw p tt
ends dispatching_tool c e (inl (cost, turns, p)) h = rw p tt
ends dispatching_tool c e (inr (subtype, reason, p)) h = rw p tt
ends compacting c e (inl (cost, turns, p)) h = rw p tt
ends compacting c e (inr (subtype, reason, p)) h = rw p tt
ends done c e r h = tt
ends error c e r h = tt

-- The events of a message, and the turn after them.
module _ (m : SdkMessage) (t : Turn) (es : List AgentEvent) (told_es : own_events m ≡ some es) where
  machine_after :
      (pump_one (message m) t).machine ≡ send_all es (send_all (leaving m t.adapter) t.machine)
  unfolding pump_one
  machine_after =
      ap (λ l. send_all l t.machine) ((translate_lem m t.adapter).1)
      ∙ ap (λ o. send_all (leaving m t.adapter ++ told o) t.machine) told_es
      ∙ send_all-append (leaving m t.adapter) es t.machine

pump_one-starts :
    (i : Input) (t : Turn) → t.machine.state ≢ starting → (pump_one i t).machine.state ≢ starting
unfolding pump_one
pump_one-starts (message m) t h = send_all-starts (translate m t.adapter).1 t.machine h
pump_one-starts abort t h = send_all-starts (interrupt ∷ []) t.machine h

pump-starts :
    (is : List Input) (t : Turn) → t.machine.state ≢ starting → (pump is t).machine.state ≢ starting
pump-starts [] t h = h
pump-starts (i ∷ is) t h = pump-starts is (pump_one i t) (pump_one-starts i t h)

-- A turn that has had the SDK's first message, whatever came before it and came after it, ends at
-- the message with the result: neither a compaction, a pending tool nor an abort keeps it from that.
pub result_lem :
    (input : AgentMachineInput) (before between : List Input) (init result : SdkMessage)
    → IsInit init
    → result.type ≡ "result"
    → HasEnded
        (pump_one
          (message result)
          (pump between (pump_one (message init) (pump before (start_turn input))))).machine.state
result_lem input before between init result i r =
    let t = pump before (start_turn input) in
    let begun : (pump_one (message init) t).machine.state ≢ starting =
      subst (λ (s : AgentSnapshot). s.state ≢ starting)
        (sym (machine_after init t (sdk_init ∷ []) (own_events-init init i))) (inits _ _) in
    let u = pump between (pump_one (message init) t) in
    let (e, told_e, is_result) = own_events-IsResult result r in
    subst (λ (s : AgentSnapshot). HasEnded s.state) (sym (machine_after result u (e ∷ []) told_e))
      (ends _ _ e is_result (
        send_all-starts (leaving result u.adapter) u.machine
          (pump-starts between (pump_one (message init) t) begun)))
