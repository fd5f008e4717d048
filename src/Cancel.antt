-- ===== src/Cancel.antt =====
-- The propagation of a failure, in apps/server/src/kernel-next/runtime/runner.ts: once a stage has
-- entered its final state `error` by itself, each stage that its outputs lead to gets
-- STAGE_CANCELLED. The events that are sent while the snapshot is read are taken one after the other;
-- each is offered to every region of the machine. No transition that a region takes of itself comes
-- in between: of what the guards read, a cancelled region changes only the entries of its own name.
pub mod Regions
pub mod Failure
pub mod Finals
mod Samples
use workflow_control.Prelude.{
  String, Option, none, some, Bool, true, false, ◌&&◌, List, ◌++◌, [], ◌∷◌, foldl, includes,
  if◌then◌else◌,
}
use workflow_control.Ir.{Wire}
use workflow_control.Machine.Context.{
  MachineEvent, stage_cancelled, Region, Reaction, go, go_raise, forward_interrupt, FinalizedStage,
  FailureReason, no_active_wire, executor_failed, upstream_cancelled, outcome_error,
}
use workflow_control.Machine.{is_outcome}
use workflow_control.Machine.Waiting.{react}
use workflow_control.Machine.Run.{Snapshot, moved}
use workflow_control.Reach.{compute_transitive_downstreams}

-- A region takes an event, if it has a transition for it.
abbrev pub after_reaction : Region → Snapshot → Option Reaction → Snapshot
after_reaction r s none = s
after_reaction r s (some (go p c)) = moved s r.name p c
after_reaction r s (some (go_raise p c retry)) = moved s r.name p c
after_reaction r s (some forward_interrupt) = s

abbrev pub take_event : MachineEvent → Snapshot → Region → Snapshot
take_event e s r = after_reaction r s (react r e (s.phase r.name) s.context)

-- The event is offered to the regions of the list.
abbrev pub send_event : List Region → MachineEvent → Snapshot → Snapshot
send_event rs e s = foldl (take_event e) s rs

-- cancelledByPropagation, and the machine
pub record Propagation : Type 0 where
  pub cancelled : List String
  pub snapshot : Snapshot

-- The errors that a stage comes to by itself.
abbrev pub is_root_cause : Option FailureReason → Bool
is_root_cause none = false
is_root_cause (some no_active_wire) = true
is_root_cause (some executor_failed) = true
is_root_cause (some upstream_cancelled) = false

abbrev pub propagates : FinalizedStage → Bool
propagates entry = is_outcome entry.outcome outcome_error && is_root_cause entry.reason

module _ (rs : List Region) (published : List String) (stage_name : String) where
  -- the body of the `for` loop over the downstream stages
  unfoldable pub cancel_downstream : Propagation → String → Propagation
  cancel_downstream p ds =
      if includes p.cancelled ds then p else if includes published ds then p else record {
        cancelled = p.cancelled ++ ds ∷ [];
        snapshot = send_event rs (stage_cancelled ds stage_name) p.snapshot;
      }

-- For one entry of `finalizedStages` that is published; `published` is `publishedStageFinal`.
unfoldable pub propagate_failure :
    List Region
    → List Wire
    → (published : List String) → (entry : FinalizedStage) → Propagation
    → Option Propagation
unfolding cancel_downstream
propagate_failure rs wires published entry p =
    if propagates entry
    then elim (compute_transitive_downstreams wires entry.name) [
      | none ↦ none
      | some downstreams ↦ some (foldl (cancel_downstream rs published entry.name) p downstreams)
    ]
    else some p

-- publishedStageFinal, with what the propagation changes
pub record Publication : Type 0 where
  pub published : List String
  pub propagation : Propagation

-- The body of the loop over `finalizedStages`, but for the texts that it publishes.
unfoldable pub publish_final :
    List Region → List Wire → Publication → FinalizedStage → Option Publication
unfolding propagate_failure
publish_final rs wires st entry =
    if includes st.published entry.name
    then some st
    else let seen = st.published ++ entry.name ∷ [] in
      elim (propagate_failure rs wires seen entry st.propagation) [
        | none ↦ none
        | some p ↦ some (record { published = seen; propagation = p })
      ]

unfoldable pub publish_finals :
    List Region → List Wire → Publication → (finals : List FinalizedStage) → Option Publication
unfolding publish_final
publish_finals rs wires st [] = some st
publish_finals rs wires st (entry ∷ entries) = elim (publish_final rs wires st entry) [
  | none ↦ none
  | some next ↦ publish_finals rs wires next entries
]
