-- ===== src/Machine/Run/Reacting.antt =====
-- What each reaction of a region does to the context.
use workflow_control.Prelude.{
  String, none, some, true, not, ◌&&◌, List, [], ◌∷◌, ◌≡◌, refl, inl, ◌==◌, includes, any, arith,
}
use workflow_control.Structural.Stages.{targets_of}
use workflow_control.Machine.{
  was_finalized, all_inbound_delivered, no_deliverable_wire, all_delivered, has_dropped,
  is_unpicked, is_outcome, is_gate, all_outbound_present, is_mine, enter_executing, authorize, skip,
  executing_always, executing_on, gate_answered_assign,
}
use workflow_control.Machine.Context.{
  MachineContext, MachineEvent, start, port_written, stage_failed, stage_cancelled, gate_answered,
  interrupt, retry_to_stage, gate_rejected, Region, Phase, waiting, executing, done, error,
  FinalizedStage, Outcome, outcome_done, outcome_error,
}
use workflow_control.Machine.Waiting.{
  react, react_always, waiting_on, waiting_always, waiting_written, waiting_answered, run_stage,
  dead_end,
}
use workflow_control.Machine.Run.Effects.{
  Effect, OnReaction, guarded, enter_done-Effect, finalize_error-Effect, authorize_keeps,
  authorized_now, add_picked_keeps, retry_or_fail-Effect, done_Effect,
}

module _ (r : Region) where
  executing_always-Effect : (c : MachineContext) → OnReaction (Effect r c) (executing_always r c)
  unfolding executing_always
  executing_always-Effect c =
      guarded r (Effect r c) (not (is_gate r) && all_outbound_present r c) _ none
        (λ t. done_Effect r c) tt

  executing_on-Effect :
      (e : MachineEvent) (c : MachineContext) → OnReaction (Effect r c) (executing_on r e c)
  unfolding executing_on gate_answered_assign
  executing_on-Effect (stage_failed stage message) c =
      guarded r (Effect r c) (stage == r.name) _ none
        (λ t. retry_or_fail-Effect r r.retry message c) tt
  executing_on-Effect (stage_cancelled stage upstream) c =
      guarded r (Effect r c) (stage == r.name) _ none
        (λ t. finalize_error-Effect r c c _ _ _ refl refl (λ n m. m)) tt
  executing_on-Effect (gate_answered id g answer target) c =
      guarded r (Effect r c) (is_gate r && g == r.name) _ none
        (λ t.
          enter_done-Effect r c (gate_answered_assign r g (targets_of target) c) refl refl
            (add_picked_keeps r c.gate_authorized_targets (targets_of target)))
        tt
  executing_on-Effect (port_written key value) c =
      guarded r (Effect r c) (not (is_gate r) && all_outbound_present r c) _ none
        (λ t. done_Effect r c) tt
  executing_on-Effect (interrupt stage) c =
      guarded r (Effect r c) (not (is_gate r) && is_mine r stage) _ none (λ t. tt) tt
  executing_on-Effect start c = tt
  executing_on-Effect (retry_to_stage retry) c = tt
  executing_on-Effect (gate_rejected id g answer target affected) c = tt

  was_is :
      (o : Outcome) (l : List FinalizedStage)
      → any (λ (f : FinalizedStage). f.name == r.name && is_outcome f.outcome o) l ≡ true
      → any (λ (f : FinalizedStage). f.name == r.name) l ≡ true
  was_is o [] h = cc
  was_is o (f ∷ l) h = ground (arith, was_is o l)

  run_stage-Effect :
      (c : MachineContext)
      → all_inbound_delivered r c ≡ true
      → OnReaction (Effect r c) (some (run_stage r c))
  unfolding enter_executing
  run_stage-Effect c t = record {
    values = refl;
    finals = refl;
    keeps = λ n m. m;
    starts = λ e. ground arith;
  }

  dead_end-Effect : (c : MachineContext) → OnReaction (Effect r c) (some (dead_end r c))
  dead_end-Effect c = finalize_error-Effect r c c _ _ _ refl refl (λ n m. m)

  waiting_written-Effect : (c : MachineContext) → OnReaction (Effect r c) (waiting_written r c)
  unfolding waiting_written
  waiting_written-Effect c =
      guarded r (Effect r c) (all_inbound_delivered r c) _ _ (run_stage-Effect c)
        (guarded r (Effect r c) (no_deliverable_wire r c) _ none (λ t. dead_end-Effect c) tt)

  waiting_always-Effect : (c : MachineContext) → OnReaction (Effect r c) (waiting_always r c)
  unfolding waiting_always
  waiting_always-Effect c =
      guarded r (Effect r c) (was_finalized c r.name outcome_done) _ _ (λ t. done_Effect r c)
        (guarded r (Effect r c) (was_finalized c r.name outcome_error) _ _
          (λ t. record {
            values = refl;
            finals = inl (was_is outcome_error c.finalized_stages t, refl);
            keeps = λ n m. m;
            starts = λ e. cc;
          })
          (guarded r (Effect r c) (includes c.gate_skipped_targets r.name) _ _
            (λ t. done_Effect r c)
            (guarded r (Effect r c) (all_inbound_delivered r c) _ _ (run_stage-Effect c) (
              guarded r (Effect r c) (no_deliverable_wire r c) _ none (λ t. dead_end-Effect c)
                tt))))

  waiting_answered-Effect :
      (g : String) (picked : List String) (c : MachineContext)
      → OnReaction (Effect r c) (waiting_answered r g picked c)
  unfolding waiting_answered skip authorize enter_executing
  waiting_answered-Effect g picked c =
      guarded r (Effect r c) (is_unpicked r g picked) _ _
        (λ t. enter_done-Effect r c (skip r c) refl refl (λ n m. m))
        (guarded r (Effect r c) (includes picked r.name && all_delivered r c) _ _
          (λ t. record {
            values = refl;
            finals = refl;
            keeps = authorize_keeps r c;
            starts = λ e. (authorized_now r c, ground arith);
          })
          (guarded r (Effect r c) (includes picked r.name && has_dropped r c) _ none
            (λ t. finalize_error-Effect r c (authorize r c) _ _ _ refl refl (authorize_keeps r c))
            tt))

  waiting_on-Effect :
      (e : MachineEvent) (c : MachineContext) → OnReaction (Effect r c) (waiting_on r e c)
  unfolding waiting_on
  waiting_on-Effect (port_written key value) c = waiting_written-Effect c
  waiting_on-Effect (stage_failed stage message) c =
      guarded r (Effect r c) (stage == r.name) _ none
        (λ t. finalize_error-Effect r c c _ _ _ refl refl (λ n m. m)) tt
  waiting_on-Effect (stage_cancelled stage upstream) c =
      guarded r (Effect r c) (stage == r.name) _ none
        (λ t. finalize_error-Effect r c c _ _ _ refl refl (λ n m. m)) tt
  waiting_on-Effect (gate_answered id g answer target) c =
      waiting_answered-Effect g (targets_of target) c
  waiting_on-Effect start c = tt
  waiting_on-Effect (interrupt stage) c = tt
  waiting_on-Effect (retry_to_stage retry) c = tt
  waiting_on-Effect (gate_rejected id g answer target affected) c = tt

  pub react-Effect :
      (e : MachineEvent) (p : Phase) (c : MachineContext) → OnReaction (Effect r c) (react r e p c)
  unfolding react
  react-Effect e waiting c = waiting_on-Effect e c
  react-Effect e executing c = executing_on-Effect e c
  react-Effect e done c = tt
  react-Effect e error c = tt

  pub react_always-Effect :
      (p : Phase) (c : MachineContext) → OnReaction (Effect r c) (react_always r p c)
  unfolding react_always
  react_always-Effect waiting c = waiting_always-Effect c
  react_always-Effect executing c = executing_always-Effect c
  react_always-Effect done c = tt
  react_always-Effect error c = tt
