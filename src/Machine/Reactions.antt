-- ===== src/Machine/Reactions.antt =====
-- How a region answers events, and what it does of itself.
use workflow_control.Prelude.{
  String, Option, none, some, Bool, true, false, ◌≡◌, refl, includes, if◌then◌else◌,
}
use workflow_control.Machine.{was_finalized, executing_always, executing_on}
use workflow_control.Machine.Context.{
  MachineContext, port_written, Region, Phase, waiting, executing, done, error, Reaction,
  outcome_done, outcome_error,
}
use workflow_control.Machine.Waiting.{
  react, react_always, waiting_on, waiting_always, waiting_written,
}

abbrev pub FirstNone : Bool → Option Reaction → Type 0
FirstNone t o = (t ≡ false) × (o ≡ none)

-- A guard before a reaction that is not taken.
pub not_taken :
    (t : Bool) (x : Reaction) (o : Option Reaction)
    → (if t then some x else o) ≡ none
    → FirstNone t o
not_taken true x o h = cc
not_taken false x o h = (refl, h)

waiting_written_lem :
    (r : Region) (c : MachineContext) → waiting_always r c ≡ none → waiting_written r c ≡ none
unfolding waiting_always waiting_written
waiting_written_lem r c h =
    let a = not_taken (was_finalized c r.name outcome_done) _ _ h in
    let b = not_taken (was_finalized c r.name outcome_error) _ _ a.1 in
    let d = not_taken (includes c.gate_skipped_targets r.name) _ _ b.1 in d.1

-- A region that has nothing to do of itself has no transition on PORT_WRITTEN, so that the machine's
-- own handler takes the event and writes the value.
pub port_written_lem :
    (r : Region) (key value : String) (p : Phase) (c : MachineContext)
    → react_always r p c ≡ none
    → react r (port_written key value) p c ≡ none
unfolding react react_always waiting_on executing_on executing_always
port_written_lem r key value waiting c h = waiting_written_lem r c h
port_written_lem r key value executing c h = h
port_written_lem r key value done c h = refl
port_written_lem r key value error c h = refl
