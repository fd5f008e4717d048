-- ===== src/Agent/Sound.antt =====
-- What holds of a turn after any events.
use workflow_control.Prelude.{
  String, ℕ, Option, none, some, Bool, true, false, List, [], ◌∷◌, ◌++◌, ◌≡◌, ◌≢◌, refl, ◌⊎◌, inl,
  inr, ◌==◌, arith, Bool-cases,
}
use workflow_control.Agent.{
  send, send_all, create_agent_machine, is_last_tool, without_first, enqueue_tool_use,
  dequeue_tool_result,
}
use workflow_control.Agent.Context.{
  AgentState, starting, waiting_for_claude, dispatching_tool, compacting, done, error,
  CompactMetadata, AgentResult, success, failed, interrupted, AgentMachineInput, AgentContext,
  AgentEvent, sdk_init, tool_use_requested, tool_result_received, compact_ended, AgentSnapshot,
}

-- How a turn ends.
abbrev pub Ended : AgentState → Option AgentResult → Type 0
Ended done r =
    ((cost : Option String) × (turns : Option ℕ) × (r ≡ some (success cost turns)))
    ⊎ (r ≡ some (interrupted starting))
    ⊎ (r ≡ some (interrupted waiting_for_claude))
Ended error r = (subtype : String) × (message : String) × (r ≡ some (failed subtype message))
Ended s r = r ≡ none

-- The tools that are waited for: some while they run, none while the agent thinks or compacts.
abbrev pub Awaits : AgentState → List String → Type 0
Awaits dispatching_tool ids = ids ≢ []
Awaits done ids = Unit
Awaits error ids = Unit
Awaits s ids = ids ≡ []

abbrev pub Compacts : AgentState → Option CompactMetadata → Type 0
Compacts compacting m = (d : CompactMetadata) × (m ≡ some d)
Compacts s m = m ≡ none

-- The flags of an interrupt: a turn that comes back to Claude has not used up its last turn.
abbrev pub Flags : AgentState → (armed used : Bool) → Type 0
Flags starting armed used = (armed ≡ false) × (used ≡ false)
Flags waiting_for_claude armed used = used ≡ false
Flags dispatching_tool armed used = used ≡ armed
Flags compacting armed used = used ≡ armed
Flags s armed used = Unit

pub record IsSound (s : AgentSnapshot) : Type 0 where
  pub ended : Ended s.state s.context.result
  pub awaits : Awaits s.state s.context.pending_tool_use_ids
  pub compacts : Compacts s.state s.context.compact_metadata
  pub flags : Flags s.state s.context.interrupt_armed s.context.summary_turn_used

pub create_agent_machine-IsSound :
    (input : Option AgentMachineInput) → IsSound (create_agent_machine input)
unfolding create_agent_machine
create_agent_machine-IsSound input = ground arith

snoc_nonempty : {A : Type 0} (xs : List A) (x : A) → xs ++ x ∷ [] ≢ []
snoc_nonempty [] x e = cc
snoc_nonempty (y ∷ ys) x e = cc

-- A result that is not the last one leaves a tool pending, and the last one none.
without_first_last :
    (id : String) (ids : List String)
    → ids ≢ []
    → ((is_last_tool id ids ≡ true) × (without_first id ids ≡ []))
      ⊎ ((is_last_tool id ids ≡ false) × (without_first id ids ≢ []))
unfolding is_last_tool without_first
without_first_last id [] h = absurd (h refl)
without_first_last id (x ∷ []) h = elim (Bool-cases (x == id)) [
  | inl e ↦ inl (rw e refl, rw e refl)
  | inr e ↦ inr (rw e refl, rw e (λ p. cc))
]
without_first_last id (x ∷ y ∷ ys) h = elim (Bool-cases (x == id)) [
  | inl e ↦ inr (ground arith, rw e (λ p. cc))
  | inr e ↦ inr (ground arith, rw e (λ p. cc))
]

module _ (c : AgentContext) where
  starting-IsSound :
      (e : AgentEvent)
      → IsSound (record { state = starting; context = c })
      → IsSound (send e (record { state = starting; context = c }))
  unfolding send
  starting-IsSound sdk_init h = ground arith
  starting-IsSound _ h = ground arith

  waiting-IsSound :
      (e : AgentEvent)
      → IsSound (record { state = waiting_for_claude; context = c })
      → IsSound (send e (record { state = waiting_for_claude; context = c }))
  unfolding send enqueue_tool_use
  waiting-IsSound (tool_use_requested name input id) h =
      ground (arith, snoc_nonempty c.pending_tool_use_ids id)
  waiting-IsSound _ h = ground arith

  dispatching-IsSound :
      (e : AgentEvent)
      → IsSound (record { state = dispatching_tool; context = c })
      → IsSound (send e (record { state = dispatching_tool; context = c }))
  unfolding send enqueue_tool_use dequeue_tool_result
  dispatching-IsSound (tool_use_requested name input id) h =
      ground (arith, snoc_nonempty c.pending_tool_use_ids id)
  dispatching-IsSound (tool_result_received id output is_error) h =
      ground (arith, without_first_last id c.pending_tool_use_ids)
  dispatching-IsSound _ h = ground arith

  compacting-IsSound :
      (e : AgentEvent)
      → IsSound (record { state = compacting; context = c })
      → IsSound (send e (record { state = compacting; context = c }))
  unfolding send
  compacting-IsSound compact_ended h = ground arith
  compacting-IsSound _ h = ground arith

step-IsSound :
    (st : AgentState) (c : AgentContext) (e : AgentEvent)
    → IsSound (record { state = st; context = c })
    → IsSound (send e (record { state = st; context = c }))
unfolding send
step-IsSound starting c e h = starting-IsSound c e h
step-IsSound waiting_for_claude c e h = waiting-IsSound c e h
step-IsSound dispatching_tool c e h = dispatching-IsSound c e h
step-IsSound compacting c e h = compacting-IsSound c e h
step-IsSound done c e h = h
step-IsSound error c e h = h

pub send-IsSound : (e : AgentEvent) (s : AgentSnapshot) → IsSound s → IsSound (send e s)
send-IsSound e s h = step-IsSound s.state s.context e h

-- Whatever events a turn has had: it has a result exactly in a final state, the one that belongs to
-- the state; while tools run it waits for some, before for none; it holds the metadata of a
-- compaction just while it compacts; and where Claude is waited for, an interrupt has not used up
-- the last turn.
pub send_all-IsSound :
    (input : Option AgentMachineInput) (es : List AgentEvent)
    → IsSound (send_all es (create_agent_machine input))
send_all-IsSound input es = go es _ (create_agent_machine-IsSound input)
  where
    go : (es : List AgentEvent) (s : AgentSnapshot) → IsSound s → IsSound (send_all es s)
    go [] s h = h
    go (e ∷ es) s h = go es (send e s) (send-IsSound e s h)
