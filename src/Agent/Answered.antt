-- ===== src/Agent/Answered.antt =====
-- The tools of a turn, and the order of their results.
use workflow_control.Prelude.{
  String, ℕ, suc, ◌+◌, ◌<◌, Option, some, Bool, true, false, List, [], ◌∷◌, ◌++◌, ◌≡◌, refl, ap,
  subst, sym, ◌∙◌, ◌==◌, eq_iff, length, nat_eq, if◌then◌else◌, arith,
}
use workflow_control.Agent.{
  create_agent_machine, send, send_all, without_first, is_last_tool, dequeue_tool_result, always,
}
use workflow_control.Agent.Context.{
  waiting_for_claude, dispatching_tool, done, interrupted, AgentContext, AgentMachineInput, Content,
  AgentEvent, tool_result_received, AgentSnapshot,
}
use workflow_control.Agent.Sound.{IsSound, send_all-IsSound}

unfoldable pub count : String → List String → ℕ
count a [] = 0
count a (x ∷ xs) = let rest = count a xs in if x == a then suc rest else rest

-- Two lists hold the same ids, as often.
abbrev pub SameIds : List String → List String → Type 0
SameIds xs ys = (a : String) → count a xs ≡ count a ys

count-without_first :
    (id a : String) (xs : List String)
    → 0 < count id xs
    → count a xs
      ≡ (if id == a then suc (count a (without_first id xs)) else count a (without_first id xs))
unfolding count without_first
count-without_first id a [] h = absurd (omega arith)
count-without_first id a (x ∷ xs) h =
    ground (arith, eq_iff x id, eq_iff x a, eq_iff id a, count-without_first id a xs)

SameIds-without_first :
    (id : String) (ids xs : List String) → SameIds (id ∷ ids) xs → SameIds ids (without_first id xs)
unfolding count
SameIds-without_first id ids xs h a =
    ground (arith, h id, h a, eq_iff id id, count-without_first id a xs)

-- Where all ids of a list are spent, it is empty.
SameIds-nil : (xs : List String) → SameIds [] xs → xs ≡ []
unfolding count
SameIds-nil [] h = refl
SameIds-nil (x ∷ xs) h = ground (arith, h x, eq_iff x x)

-- The last of the ids that are left, and no other, is the last tool.
last_left :
    (id : String) (ids xs : List String)
    → SameIds (id ∷ ids) xs
    → is_last_tool id xs ≡ nat_eq (length ids) 0
unfolding count is_last_tool
last_left id [] [] h = ground (arith, h id, eq_iff id id)
last_left id (y ∷ ys) [] h = ground (arith, h id, eq_iff id id)
last_left id [] (x ∷ []) h = ground (arith, h x, eq_iff x x, eq_iff id x, eq_iff x id)
last_left id (y ∷ ys) (x ∷ []) h =
    ground (arith, h id, h y, eq_iff id id, eq_iff y y, eq_iff id y, eq_iff x id, eq_iff x y)
last_left id (y ∷ ys) (x ∷ z ∷ zs) h = ground arith
last_left id [] (x ∷ z ∷ zs) h =
    ground
      (arith, h x, h z, eq_iff id x, eq_iff id z, eq_iff x x, eq_iff z z, eq_iff x z, eq_iff z x)

abbrev pub results : List (String × Option Content × Bool) → List AgentEvent
results [] = []
results ((id, output, is_error) ∷ rs) = tool_result_received id output is_error ∷ results rs

abbrev pub ids_of : List (String × Option Content × Bool) → List String
ids_of [] = []
ids_of ((id, output, is_error) ∷ rs) = id ∷ ids_of rs

-- A turn that runs tools, and one that waits again once they are done.
abbrev pub running : AgentContext → AgentSnapshot
running c = record { state = dispatching_tool; context = c }

abbrev pub resumed : AgentContext → AgentSnapshot
resumed c = always waiting_for_claude (record c { pending_tool_use_ids = []; turns = c.turns + 1 })

length-ids_of : (rs : List (String × Option Content × Bool)) → length (ids_of rs) ≡ length rs
length-ids_of [] = refl
length-ids_of (r ∷ rs) = ap suc (length-ids_of rs)

answer_one :
    (c : AgentContext) (id : String) (output : Option Content) (is_error : Bool) (ids : List String)
    → SameIds (id ∷ ids) c.pending_tool_use_ids
    → send (tool_result_received id output is_error) (running c) ≡ (
        if nat_eq (length ids) 0
        then resumed c
        else running (record c { pending_tool_use_ids = without_first id c.pending_tool_use_ids }))
unfolding send dequeue_tool_result
answer_one c id output is_error [] h =
    let none_left =
      SameIds-nil (without_first id c.pending_tool_use_ids)
        (SameIds-without_first id [] c.pending_tool_use_ids h) in
    rw (last_left id [] c.pending_tool_use_ids h, none_left) refl
answer_one c id output is_error (x ∷ xs) h =
    rw (last_left id (x ∷ xs) c.pending_tool_use_ids h) (ground arith)

answer_all :
    (c : AgentContext) (r : String × Option Content × Bool)
    (rs : List (String × Option Content × Bool))
    → SameIds (ids_of (r ∷ rs)) c.pending_tool_use_ids
    → send_all (results (r ∷ rs)) (running c) ≡ resumed c
answer_all c (id, output, is_error) [] h = answer_one c id output is_error [] h
answer_all c (id, output, is_error) (r ∷ rs) h =
    ap (send_all (results (r ∷ rs)))
      (answer_one c id output is_error (ids_of (r ∷ rs)) h ∙ ground arith)
    ∙ answer_all (record c { pending_tool_use_ids = without_first id c.pending_tool_use_ids }) r rs
        (SameIds-without_first id (ids_of (r ∷ rs)) c.pending_tool_use_ids h)

answer_some :
    (c : AgentContext) (bs : List (String × Option Content × Bool))
    (r : String × Option Content × Bool) (rest : List (String × Option Content × Bool))
    → SameIds (ids_of (bs ++ r ∷ rest)) c.pending_tool_use_ids
    → (send_all (results bs) (running c)).state ≡ dispatching_tool
answer_some c [] r rest h = refl
answer_some c ((id, output, is_error) ∷ bs) r rest h =
    let left = ids_of (bs ++ r ∷ rest) in
    let one : send (tool_result_received id output is_error) (running c)
        ≡ running (record c { pending_tool_use_ids = without_first id c.pending_tool_use_ids }) =
      answer_one c id output is_error left h ∙ go bs in
    ap (λ s. (send_all (results bs) s).state) one
    ∙ answer_some (record c { pending_tool_use_ids = without_first id c.pending_tool_use_ids }) bs r
        rest (SameIds-without_first id left c.pending_tool_use_ids h)
  where
    go :
        (bs : List (String × Option Content × Bool))
        → (if nat_eq (length (ids_of (bs ++ r ∷ rest))) 0
            then resumed c
            else running
                (record c { pending_tool_use_ids = without_first id c.pending_tool_use_ids }))
          ≡ running (record c { pending_tool_use_ids = without_first id c.pending_tool_use_ids })
    go [] = ground arith
    go (b ∷ bs) = ground arith

resumed_lem :
    (c : AgentContext)
    → c.summary_turn_used ≡ c.interrupt_armed
    → ((resumed c).context.pending_tool_use_ids ≡ [])
      × ((resumed c).context.turns ≡ c.turns + 1)
      × (c.interrupt_armed ≡ false → (resumed c).state ≡ waiting_for_claude)
      × (c.interrupt_armed ≡ true
          → ((resumed c).state ≡ done)
            × ((resumed c).context.result ≡ some (interrupted waiting_for_claude)))
unfolding always
resumed_lem c h = ground arith

-- What the results of the tools make of a turn.
abbrev pub IsAnswered : List (String × Option Content × Bool) → AgentSnapshot → Type 0
IsAnswered rs s =
    let s' = send_all (results rs) s in
    (s'.context.pending_tool_use_ids ≡ [])
    × (s'.context.turns ≡ s.context.turns + 1)
    × (s.context.interrupt_armed ≡ false → s'.state ≡ waiting_for_claude)
    × (s.context.interrupt_armed ≡ true
        → (s'.state ≡ done) × (s'.context.result ≡ some (interrupted waiting_for_claude)))
    × ((bs : List (String × Option Content × Bool)) (r : String × Option Content × Bool)
          (rest : List (String × Option Content × Bool))
        → rs ≡ bs ++ r ∷ rest
        → (send_all (results bs) s).state ≡ dispatching_tool)

running-IsAnswered :
    (c : AgentContext) (rs : List (String × Option Content × Bool))
    → IsSound (running c)
    → SameIds (ids_of rs) c.pending_tool_use_ids
    → IsAnswered rs (running c)
running-IsAnswered c [] h same = absurd (h.awaits (SameIds-nil c.pending_tool_use_ids same))
running-IsAnswered c (r ∷ rs) h same =
    let (a, b, d, e) = resumed_lem c h.flags in
    rw (answer_all c r rs same) (
      a,
      b,
      d,
      e,
      λ bs x rest eq.
          answer_some c bs x rest (subst (λ l. SameIds (ids_of l) c.pending_tool_use_ids) eq same),
    )

-- In a turn that runs tools, let the results of all that are pending come, in any order and each as
-- often as it is pending. The turn runs on until the last of them; then no tool is pending and it
-- waits for Claude once more, or ends as interrupted where an interrupt was sent.
pub answered_lem :
    (input : Option AgentMachineInput) (es : List AgentEvent)
    (rs : List (String × Option Content × Bool))
    → (send_all es (create_agent_machine input)).state ≡ dispatching_tool
    → SameIds (ids_of rs) (send_all es (create_agent_machine input)).context.pending_tool_use_ids
    → IsAnswered rs (send_all es (create_agent_machine input))
answered_lem input es rs e h =
    at (send_all es (create_agent_machine input)) e (send_all-IsSound input es) h
  where
    at :
        (s : AgentSnapshot)
        → s.state ≡ dispatching_tool
        → IsSound s
        → SameIds (ids_of rs) s.context.pending_tool_use_ids
        → IsAnswered rs s
    at s e sound same =
        let e' : s ≡ running s.context = ap (λ st. record { state = st; context = s.context }) e in
        subst (IsAnswered rs) (sym e')
          (running-IsAnswered s.context rs (subst IsSound e' sound) same)
