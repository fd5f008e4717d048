-- ===== src/Cancel/Samples.antt =====
-- The stage `draft` of a pipeline fails, while no other stage has started.
use workflow_control.Prelude.{some, [], ◌∷◌, ◌≡◌, subst, inl, inr}
use workflow_control.Machine.{finalize_error}
use workflow_control.Machine.Context.{
  waiting, error, executor_failed, outcome_error, FinalizedStage,
}
use workflow_control.Machine.Run.{moved}
use workflow_control.Machine.Run.Invariant.{Active}
use workflow_control.Compile.Samples.{reviewed}
use workflow_control.Compile.Build.Samples.{machine, draft_region}
use workflow_control.Cancel.{Propagation, Publication, publish_finals}
use workflow_control.Cancel.Failure.{Settled, IsPropagated}
use workflow_control.Cancel.Finals.{Behind, HaveEnded, publish_finals_correct}

abbrev failed : FinalizedStage
failed = record {
  name = "draft";
  outcome = outcome_error;
  reason = some executor_failed;
  message = some "no answer";
}

abbrev at_failure : Propagation
at_failure = record {
  cancelled = [];
  snapshot =
      moved (record { phase = λ n. waiting; context = machine.context }) "draft" error
        (finalize_error draft_region executor_failed (some "no answer") ":error" machine.context);
}

failed_ended : HaveEnded (failed ∷ []) at_failure.snapshot
failed_ended f (inl e) =
    subst (λ (z : FinalizedStage). ¬ Active (at_failure.snapshot.phase z.name)) e (λ a. a)
failed_ended f (inr never) = absurd never

abbrev nothing_published : Publication
nothing_published = record { published = []; propagation = at_failure }

nothing_Settled : Settled machine.regions [] at_failure
nothing_Settled r i (inl never) = absurd never
nothing_Settled r i (inr never) = absurd never

publish_finals_correct_example :
    (st : Publication) × (publish_finals machine.regions reviewed.wires nothing_published
        (failed ∷ [])
      ≡ some st)
    × IsPropagated machine.regions
        (Behind reviewed.wires [] (failed ∷ []))
        at_failure.snapshot
        st.propagation.snapshot
    × Settled machine.regions st.published st.propagation
publish_finals_correct_example =
    publish_finals_correct machine.regions reviewed.wires nothing_published (failed ∷ [])
      ((λ m. m), tt) failed_ended nothing_Settled
