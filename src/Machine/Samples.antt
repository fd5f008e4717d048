-- ===== src/Machine/Samples.antt =====
-- A machine with an agent stage, a gate after it and a target of the gate: a run of it, and the
-- theorems on runs at this run.
use workflow_control.Prelude.{
  String, eq_iff, subst, ◌*◌, none, some, Bool, true, false, List, [], ◌∷◌, map, ◌≡◌, refl, inl,
  inr, ◌≤◌, In, Distinct, length, map_get, map_set, includes, set_add, arith,
}
use workflow_control.Ir.{one}
use workflow_control.Structural.{StageType, agent_type, gate_type}
use workflow_control.Machine.{
  siblings_of, enter_executing, enter_done, gate_answered_assign, wire_delivers, executing_on,
  new_skips, add_picked, was_finalized,
}
use workflow_control.Machine.Context.{
  MachineContext, gate_answered, Region, InboundWire, waiting, executing, done, go, Outcome,
  FinalizedStage,
}
use workflow_control.Machine.Waiting.{
  react, react_always, waiting_always, waiting_on, waiting_answered,
}
use workflow_control.Machine.Run.{
  Snapshot, moved, write_port, Step, of_itself, on_event, write, Runs, here, next,
}
use workflow_control.Structural.Stages.{targets_of}
use workflow_control.Machine.Answers.{is_known, Ends, answered-routes}
use workflow_control.Machine.Run.Bounds.{moves, moves-Runs}
use workflow_control.Machine.Run.Finalized.{finalized_stages-Runs, ended_as}

abbrev siblings : List (String × List String)
siblings = ("review", "ship" ∷ "redo" ∷ []) ∷ []

abbrev draft_wire : (to : String) → InboundWire
draft_wire to = record {
  source_key = "draft.text";
  from = record { stage = "draft"; port = "text" };
  to = record { stage = to; port = "text" };
  guard = none;
}

abbrev region : String → StageType → List InboundWire → List String → Bool → Region
region name type inbound outbound routed = record {
  name = name;
  meta = record { stage_type = type; inbound = inbound; outbound = outbound; gate_routed = routed };
  gate_siblings = siblings;
  retry = none;
  evaluate = λ w g v. true;
}

abbrev draft : Region
draft = region "draft" agent_type [] ("draft.text" ∷ []) false

abbrev review : Region
review = region "review" gate_type (draft_wire "review" ∷ []) [] false

abbrev ship : Region
ship = region "ship" agent_type (draft_wire "ship" ∷ []) ("ship.url" ∷ []) true

abbrev redo : Region
redo = region "redo" agent_type (draft_wire "redo" ∷ []) [] true

abbrev regions : List Region
regions = draft ∷ review ∷ ship ∷ []

abbrev blank : MachineContext
blank = record {
  task_id = "t";
  version_hash = "";
  port_values = [];
  log = [];
  gate_authorized_targets = [];
  gate_skipped_targets = [];
  finalized_stages = [];
  retry_counts = [];
}

abbrev s0 : Snapshot
s0 = record { phase = λ n. waiting; context = blank }

abbrev s1 : Snapshot
s1 = moved s0 "draft" executing (enter_executing draft blank)

abbrev s2 : Snapshot
s2 = record s1 { context = write_port "draft.text" "1" s1.context }

abbrev s3 : Snapshot
s3 = moved s2 "review" executing (enter_executing review s2.context)

abbrev s4 : Snapshot
s4 =
    moved s3 "review" done
      (enter_done review (gate_answered_assign review "review" ("ship" ∷ []) s3.context))

abbrev s5 : Snapshot
s5 = moved s4 "ship" executing (enter_executing ship s4.context)

draft_starts : Step regions s0 s1
unfolding react_always waiting_always includes
draft_starts = of_itself draft executing (enter_executing draft blank) (inl refl) (refl, refl) refl

draft_writes : Step regions s1 s2
draft_writes = write "draft.text" "1" refl

review_starts : Step regions s2 s3
unfolding react_always waiting_always includes write_port enter_executing wire_delivers map_get
    map_set
review_starts =
    of_itself review executing (enter_executing review s2.context) (inr (inl refl)) (refl, refl)
      refl

review_answered : Step regions s3 s4
unfolding react executing_on
review_answered =
    on_event review (gate_answered "q" "review" "yes" (one "ship")) done s4.context (inr (inl refl))
      (refl, refl) refl

ship_starts : Step regions s4 s5
unfolding react_always waiting_always includes write_port enter_executing enter_done
    gate_answered_assign new_skips add_picked set_add wire_delivers map_get map_set
ship_starts =
    of_itself ship executing (enter_executing ship s4.context) (inr (inr (inl refl))) (refl, refl)
      refl

sample_run : Runs regions s0 s5
sample_run =
    next (next (next (next (next here draft_starts) draft_writes) review_starts) review_answered)
      ship_starts

names_Distinct : Distinct (map (λ (q : Region). q.name) regions)
names_Distinct = ground (
  arith,
  eq_iff "draft" "review",
  eq_iff "draft" "ship",
  eq_iff "review" "ship",
  eq_iff "review" "draft",
  eq_iff "ship" "draft",
  eq_iff "ship" "review",
)

abbrev NoRetryOne : Region → Type 0
NoRetryOne r = r.retry ≡ none

finalized_stages-Runs_example :
    ((n : String) (o : Outcome) → was_finalized s5.context n o ≡ ended_as (s5.phase n) o)
    × Distinct (map (λ (f : FinalizedStage). f.name) s5.context.finalized_stages)
finalized_stages-Runs_example = finalized_stages-Runs regions s0 s5 (λ n. refl) refl sample_run

moves-Runs_example : moves sample_run ≤ 2 * length regions
moves-Runs_example =
    moves-Runs regions s0 s5 names_Distinct
      (λ r i. elim i [
        | inl e ↦ subst NoRetryOne e refl
        | inr (inl e) ↦ subst NoRetryOne e refl
        | inr (inr (inl e)) ↦ subst NoRetryOne e refl
        | inr (inr (inr never)) ↦ absurd never
      ])
      sample_run

idle_wait : react_always ship waiting s2.context ≡ none
unfolding react_always waiting_always includes write_port enter_executing wire_delivers map_get
    map_set
idle_wait = refl

answered-routes_example :
    (c' : MachineContext) × (react review
        (gate_answered "q" "review" "yes" (one "ship"))
        executing
        s3.context
      ≡ some (go done c'))
    × (In "redo" (targets_of (one "ship")) → In "redo" c'.gate_authorized_targets)
    × (is_known review "review" (targets_of (one "ship")) ≡ true
        → In "redo" (siblings_of review "review")
        → ¬ In "redo" (targets_of (one "ship"))
        → Ends (react_always redo waiting c'))
answered-routes_example = answered-routes review redo "q" "yes" (one "ship") s3.context refl

unsettled_wait : react ship (gate_answered "q" "review" "yes" (one "ship")) waiting blank ≡ none
unfolding react waiting_on waiting_answered includes wire_delivers map_get
unsettled_wait = refl
