-- ===== src/Machine/Run/Ending.antt =====
-- How the runner brings a stage to its end: STAGE_FAILED and STAGE_CANCELLED, each with the name
-- of a stage.
use workflow_control.Prelude.{String, none, some, ◌≡◌, refl, ◌⊎◌, inl, inr, ◌==◌, if◌then◌else◌}
use workflow_control.Machine.{cancel, executing_on}
use workflow_control.Machine.Context.{
  MachineContext, MachineEvent, stage_cancelled, Region, Phase, waiting, executing, done, error,
}
use workflow_control.Machine.Waiting.{react, waiting_on}
use workflow_control.Machine.Run.Invariant.{Active}

-- STAGE_CANCELLED moves exactly the region that it names, if that has not ended, to `error`.
pub cancelled_lem :
    (r : Region) (stage upstream : String) (p : Phase) (c : MachineContext)
    → Active p
    → react r (stage_cancelled stage upstream) p c
      ≡ (if stage == r.name then some (cancel r c) else none)
unfolding react waiting_on executing_on
cancelled_lem r stage upstream waiting c a = refl
cancelled_lem r stage upstream executing c a = refl
cancelled_lem r stage upstream done c a = elim a [ ]
cancelled_lem r stage upstream error c a = elim a [ ]

-- A region that has ended takes no event.
pub ended_lem :
    (r : Region) (e : MachineEvent) (p : Phase) (c : MachineContext)
    → ¬ Active p
    → react r e p c ≡ none
unfolding react
ended_lem r e waiting c h = absurd (h tt)
ended_lem r e executing c h = absurd (h tt)
ended_lem r e done c h = refl
ended_lem r e error c h = refl

pub Active-or_ended : (p : Phase) → Active p ⊎ (Active p → ⊥)
Active-or_ended waiting = inl tt
Active-or_ended executing = inl tt
Active-or_ended done = inr (λ a. a)
Active-or_ended error = inr (λ a. a)
