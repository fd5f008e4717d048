-- ===== src/Machine/Run/Invariant.antt =====
-- Induction over the steps of the machine.
use workflow_control.Prelude.{String, Option, none, some, List, sym, subst, In}
use workflow_control.Machine.Context.{
  MachineContext, MachineEvent, Region, Phase, waiting, executing, done, error, Reaction, go,
  go_raise, forward_interrupt,
}
use workflow_control.Machine.Waiting.{react, react_always}
use workflow_control.Machine.Run.{
  Snapshot, moved, write_port, Enters, Step, on_event, of_itself, write, Runs, here, next,
}
use workflow_control.Machine.Run.Effects.{Effect, OnReaction}
use workflow_control.Machine.Run.Reacting.{react-Effect, react_always-Effect}

-- The region has not come to an end.
abbrev pub Active : Phase → Type 0
Active waiting = Unit
Active executing = Unit
Active done = ⊥
Active error = ⊥

pub entered :
    (P : Phase → MachineContext → Type 0) (o : Option Reaction) (p : Phase) (c : MachineContext)
    → OnReaction P o
    → Enters o p c
    → P p c
entered P none p c h m = elim m [ ]
entered P (some (go q d)) p c h (e, f) = subst (λ x. P x c) e (subst (P q) f h)
entered P (some (go_raise q d retry)) p c h (e, f) = subst (λ x. P x c) e (subst (P q) f h)
entered P (some forward_interrupt) p c h m = elim m [ ]

pub react-Active :
    (r : Region) (e : MachineEvent) (q p : Phase) (c c' : MachineContext)
    → Enters (react r e q c) p c'
    → Active q
unfolding react
react-Active r e waiting p c c' m = tt
react-Active r e executing p c c' m = tt
react-Active r e done p c c' m = m
react-Active r e error p c c' m = m

pub react_always-Active :
    (r : Region) (q p : Phase) (c c' : MachineContext) → Enters (react_always r q c) p c' → Active q
unfolding react_always
react_always-Active r waiting p c c' m = tt
react_always-Active r executing p c c' m = tt
react_always-Active r done p c c' m = m
react_always-Active r error p c c' m = m

-- What a move of a region and a write keep, every run keeps.
module _ (rs : List Region) (P : Snapshot → Type 0)
    (on_move : (s : Snapshot) (r : Region) (p : Phase) (c : MachineContext)
      → In r rs
      → Active (s.phase r.name)
      → Effect r s.context p c
      → P s
      → P (moved s r.name p c))
    (on_write : (s : Snapshot) (key value : String)
      → P s
      → P (record s { context = write_port key value s.context })) where
  keeps_step : {s s' : Snapshot} → Step rs s s' → P s → P s'
  keeps_step {s} {s'} (on_event r e p c i m q) h = subst P (sym q) (
      on_move s r p c i (react-Active r e (s.phase r.name) p s.context c m)
        (entered (Effect r s.context) _ p c (react-Effect r e (s.phase r.name) s.context) m) h)
  keeps_step {s} {s'} (of_itself r p c i m q) h = subst P (sym q) (
      on_move s r p c i (react_always-Active r (s.phase r.name) p s.context c m)
        (entered (Effect r s.context) _ p c (react_always-Effect r (s.phase r.name) s.context) m) h)
  keeps_step {s} {s'} (write key value q) h = subst P (sym q) (on_write s key value h)

  pub keeps_run : {s t : Snapshot} → P s → Runs rs s t → P t
  keeps_run h here = h
  keeps_run h (next w st) = keeps_step st (keeps_run h w)
