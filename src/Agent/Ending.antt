-- ===== src/Agent/Ending.antt =====
-- Why a turn has ended, and what its parent is told.
use workflow_control.Prelude.{
  String, ℕ, Option, none, some, Bool, true, false, List, [], ◌∷◌, ◌≡◌, refl, subst, ◌⊎◌, inl, inr,
  In, All, arith,
}
use workflow_control.Agent.{
  send, send_all, create_agent_machine, enqueue_tool_use, dequeue_tool_result,
}
use workflow_control.Agent.Context.{
  AgentState, starting, waiting_for_claude, dispatching_tool, compacting, done, error, AgentResult,
  success, failed, interrupted, AgentMachineInput, AgentContext, AgentEvent, sdk_init,
  result_success, result_error, interrupt, AgentSnapshot,
}
use workflow_control.Agent.Output.{
  status_done, status_interrupted, status_error, AgentMachineOutput, output,
}
use workflow_control.Agent.Sound.{Ended, send_all-IsSound}

module _ (Seen : AgentEvent → Type 0) where
  -- The event that a result comes from.
  abbrev pub Cause : Option AgentResult → Type 0
  Cause none = Unit
  Cause (some (success cost turns)) = Seen (result_success cost turns)
  Cause (some (failed subtype message)) = Seen (result_error subtype message)
  Cause (some (interrupted from)) = Seen interrupt

  abbrev Arms : Bool → Type 0
  Arms false = Unit
  Arms true = Seen interrupt

  record IsCaused (s : AgentSnapshot) : Type 0 where
    pub result : Cause s.context.result
    pub armed : Arms s.context.interrupt_armed

  starting-IsCaused :
      (c : AgentContext) (e : AgentEvent)
      → Seen e
      → IsCaused (record { state = starting; context = c })
      → IsCaused (send e (record { state = starting; context = c }))
  unfolding send
  starting-IsCaused c sdk_init m h = ground arith
  starting-IsCaused c _ m h = ground arith

  waiting-IsCaused :
      (c : AgentContext) (e : AgentEvent)
      → Seen e
      → IsCaused (record { state = waiting_for_claude; context = c })
      → IsCaused (send e (record { state = waiting_for_claude; context = c }))
  unfolding send enqueue_tool_use
  waiting-IsCaused c interrupt m h = ground arith
  waiting-IsCaused c _ m h = ground arith

  dispatching-IsCaused :
      (c : AgentContext) (e : AgentEvent)
      → Seen e
      → IsCaused (record { state = dispatching_tool; context = c })
      → IsCaused (send e (record { state = dispatching_tool; context = c }))
  unfolding send enqueue_tool_use dequeue_tool_result
  dispatching-IsCaused c interrupt m h = ground arith
  dispatching-IsCaused c _ m h = ground arith

  compacting-IsCaused :
      (c : AgentContext) (e : AgentEvent)
      → Seen e
      → IsCaused (record { state = compacting; context = c })
      → IsCaused (send e (record { state = compacting; context = c }))
  unfolding send
  compacting-IsCaused c interrupt m h = ground arith
  compacting-IsCaused c _ m h = ground arith

  step-IsCaused :
      (st : AgentState) (c : AgentContext) (e : AgentEvent)
      → Seen e
      → IsCaused (record { state = st; context = c })
      → IsCaused (send e (record { state = st; context = c }))
  unfolding send
  step-IsCaused starting c e m h = starting-IsCaused c e m h
  step-IsCaused waiting_for_claude c e m h = waiting-IsCaused c e m h
  step-IsCaused dispatching_tool c e m h = dispatching-IsCaused c e m h
  step-IsCaused compacting c e m h = compacting-IsCaused c e m h
  step-IsCaused done c e m h = h
  step-IsCaused error c e m h = h

  send_all-IsCaused :
      (es : List AgentEvent) (s : AgentSnapshot)
      → All Seen es
      → IsCaused s
      → IsCaused (send_all es s)
  send_all-IsCaused [] s m h = h
  send_all-IsCaused (e ∷ es) s m h =
      send_all-IsCaused es (send e s) m.1 (step-IsCaused s.state s.context e m.0 h)

-- What a turn that has ended in `done` tells of itself, and the event behind it.
abbrev pub TellsDone : List AgentEvent → AgentMachineOutput → Type 0
TellsDone es o =
    ((o.status ≡ status_done)
      × (o.diagnostic ≡ none)
      × (o.interrupted_from ≡ none)
      × (cost : Option String) × (turns : Option ℕ) × In (result_success cost turns) es)
    ⊎ ((o.status ≡ status_interrupted)
        × (o.diagnostic ≡ none)
        × In interrupt es
        × ((o.interrupted_from ≡ some starting) ⊎ (o.interrupted_from ≡ some waiting_for_claude)))

abbrev pub TellsError : List AgentEvent → AgentMachineOutput → Type 0
TellsError es o =
    (o.status ≡ status_error)
    × (o.interrupted_from ≡ none)
    × (subtype : String) × (message : String) × (o.diagnostic
        ≡ some (record { subtype = subtype; message = message }))
    × In (result_error subtype message) es

abbrev pub Tells : AgentState → List AgentEvent → AgentMachineOutput → Type 0
Tells done es o = TellsDone es o
Tells error es o = TellsError es o
Tells s es o = Unit

tells_done :
    (es : List AgentEvent) (c : AgentContext)
    → Ended done c.result
    → Cause (λ e. In e es) c.result
    → TellsDone es (output c)
unfolding output
tells_done es c (inl (cost, turns, e)) m =
    let m' = subst (Cause (λ x. In x es)) e m in
    rw (e, output) (inl (refl, refl, refl, cost, turns, m'))
tells_done es c (inr (inl e)) m =
    let m' = subst (Cause (λ x. In x es)) e m in rw (e, output) (inr (refl, refl, m', inl refl))
tells_done es c (inr (inr e)) m =
    let m' = subst (Cause (λ x. In x es)) e m in rw (e, output) (inr (refl, refl, m', inr refl))

tells_error :
    (es : List AgentEvent) (c : AgentContext)
    → Ended error c.result
    → Cause (λ e. In e es) c.result
    → TellsError es (output c)
unfolding output
tells_error es c (subtype, message, e) m =
    let m' = subst (Cause (λ x. In x es)) e m in
    rw (e, output) (refl, refl, subtype, message, refl, m')

tells :
    (st : AgentState) (es : List AgentEvent) (c : AgentContext)
    → Ended st c.result
    → Cause (λ e. In e es) c.result
    → Tells st es (output c)
tells done es c h m = tells_done es c h m
tells error es c h m = tells_error es c h m
tells _ es c h m = tt

All-In : (es ds : List AgentEvent) → ((e : AgentEvent) → In e es → In e ds) → All (λ e. In e ds) es
All-In [] ds h = tt
All-In (e ∷ es) ds h = (h e (inl refl), All-In es ds (λ x m. h x (inr m)))

-- A turn that ends in `done` tells its parent that it is done, after a success of the SDK, or that
-- it was interrupted, after an interrupt, from the start or from the wait for Claude; one that ends
-- in `error` tells the subtype and the message of an error of the SDK. No other result is told.
pub output_lem :
    (input : Option AgentMachineInput) (es : List AgentEvent)
    → Tells
        (send_all es (create_agent_machine input)).state
        es
        (output (send_all es (create_agent_machine input)).context)
unfolding create_agent_machine
output_lem input es =
    tells (send_all es (create_agent_machine input)).state es
      (send_all es (create_agent_machine input)).context (send_all-IsSound input es).ended
      (send_all-IsCaused (λ e. In e es) es (create_agent_machine input) (All-In es es (λ e m. m))
        (record { result = tt; armed = tt })).result
