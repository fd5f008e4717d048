-- ===== src/Agent/Interrupt.antt =====
-- What an interrupt leaves of a turn.
use workflow_control.Prelude.{ℕ, ◌+◌, Option, some, true, List, [], ◌∷◌, ◌≡◌, ◌⊎◌, arith}
use workflow_control.Agent.{
  send, send_all, create_agent_machine, enqueue_tool_use, dequeue_tool_result,
}
use workflow_control.Agent.Context.{
  AgentState, starting, waiting_for_claude, dispatching_tool, compacting, done, error, interrupted,
  AgentMachineInput, AgentContext, AgentEvent, interrupt, AgentSnapshot,
}
use workflow_control.Agent.Sound.{IsSound, send-IsSound, send_all-IsSound}

-- A turn that was interrupted when it had waited `n` times: it goes on without waiting again, or it
-- has ended; if it came back to wait, it has ended as interrupted.
abbrev pub Winds : ℕ → AgentState → AgentContext → Type 0
Winds n starting c = ⊥
Winds n done c =
    (c.turns ≡ n) ⊎ ((c.turns ≡ n + 1) × (c.result ≡ some (interrupted waiting_for_claude)))
Winds n error c = c.turns ≡ n
Winds n s c = (c.turns ≡ n) × (c.interrupt_armed ≡ true)

interrupt-Winds :
    (st : AgentState) (c : AgentContext)
    → IsSound (record { state = st; context = c })
    → Winds c.turns
        (send interrupt (record { state = st; context = c })).state
        (send interrupt (record { state = st; context = c })).context
unfolding send
interrupt-Winds starting c h = ground arith
interrupt-Winds waiting_for_claude c h = ground arith
interrupt-Winds dispatching_tool c h = ground arith
interrupt-Winds compacting c h = ground arith
interrupt-Winds done c h = ground arith
interrupt-Winds error c h = ground arith

module _ (n : ℕ) (c : AgentContext) where
  abbrev AfterSend : AgentState → AgentEvent → Type 0
  AfterSend st e =
      IsSound (record { state = st; context = c })
      → Winds n st c
      → Winds n (send e (record { state = st; context = c })).state
          (send e (record { state = st; context = c })).context

  waiting-Winds : (e : AgentEvent) → AfterSend waiting_for_claude e
  unfolding send enqueue_tool_use
  waiting-Winds interrupt h w = ground arith
  waiting-Winds _ h w = ground arith

  dispatching-Winds : (e : AgentEvent) → AfterSend dispatching_tool e
  unfolding send enqueue_tool_use dequeue_tool_result
  dispatching-Winds interrupt h w = ground arith
  dispatching-Winds _ h w = ground arith

  compacting-Winds : (e : AgentEvent) → AfterSend compacting e
  unfolding send
  compacting-Winds interrupt h w = ground arith
  compacting-Winds _ h w = ground arith

  step-Winds : (st : AgentState) (e : AgentEvent) → AfterSend st e
  unfolding send
  step-Winds starting e h w = absurd w
  step-Winds waiting_for_claude e h w = waiting-Winds e h w
  step-Winds dispatching_tool e h w = dispatching-Winds e h w
  step-Winds compacting e h w = compacting-Winds e h w
  step-Winds done e h w = w
  step-Winds error e h w = w

send_all-Winds :
    (n : ℕ) (es : List AgentEvent) (s : AgentSnapshot)
    → IsSound s
    → Winds n s.state s.context
    → Winds n (send_all es s).state (send_all es s).context
send_all-Winds n [] s h w = w
send_all-Winds n (e ∷ es) s h w =
    send_all-Winds n es (send e s) (send-IsSound e s h) (step-Winds n s.context s.state e h w)

-- After an interrupt, at any point of a turn and whatever follows: the turn waits for Claude at most
-- once more than it has, and if it comes back to do so it ends there as interrupted.
pub interrupt_lem :
    (input : Option AgentMachineInput) (before after : List AgentEvent)
    → let s = send_all before (create_agent_machine input) in
      let s' = send_all after (send interrupt s) in Winds s.context.turns s'.state s'.context
interrupt_lem input before after =
    let s = send_all before (create_agent_machine input) in
    let h = send_all-IsSound input before in
    send_all-Winds s.context.turns after (send interrupt s) (send-IsSound interrupt s h)
      (interrupt-Winds s.state s.context h)
