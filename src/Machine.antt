-- ===== src/Machine.antt =====
-- The state machine of a run: `buildStageRegion` and the machine's own handler in
-- apps/server/src/kernel-next/compiler/ir-to-machine.ts. One function for each table of transitions
-- gives the first that is enabled. A port value is its JSON text. `evaluate` stands for
-- `evaluateGuard`, which Guards models.
-- XState, which runs the tables, is no code of the repository: Machine/Run takes its order as any.
pub mod Context
pub mod Waiting
pub mod Run
pub mod Reactions
pub mod Answers
mod Samples
use Prim.Native.String.{◌++◌ as ◌+++◌}
use workflow_control.Prelude.{
  String, ℕ, Option, none, some, Bool, true, false, not, ◌&&◌, ◌||◌, List, [], ◌∷◌, ◌++◌, ◌==◌,
  includes, any, all, length, nat_eq, ltb, map_get, map_has, set_add, if◌then◌else◌,
}
use workflow_control.Ir.{RetrySpec}
use workflow_control.Structural.{agent_type, script_type, gate_type}
use workflow_control.Structural.Stages.{targets_of}
use workflow_control.Kahn.{or_zero}
use workflow_control.Machine.Context.{
  FailureReason, FinalizedStage, InboundWire, MachineContext, MachineEvent, Outcome, Reaction,
  Region, done, error, executor_failed, forward_interrupt, gate_answered, gate_rejected, go,
  go_raise, interrupt, outcome_done, outcome_error, port_written, retry_to_stage, stage_cancelled,
  stage_failed, start, upstream_cancelled, waiting,
}

abbrev pub wire_settled : InboundWire → List (String × String) → Bool
wire_settled w values = map_has values w.source_key

abbrev pub guard_passes : Region → InboundWire → Option String → String → Bool
guard_passes r w none value = true
guard_passes r w (some g) value = if g == "" then true else r.evaluate w g value

unfoldable pub wire_delivers : Region → InboundWire → List (String × String) → Bool
wire_delivers r w values = elim (map_get values w.source_key) [
  | none ↦ false
  | some value ↦ guard_passes r w w.guard value
]

abbrev pub is_authorized : Region → MachineContext → Bool
is_authorized r c = not r.meta.gate_routed || includes c.gate_authorized_targets r.name

abbrev pub all_delivered : Region → MachineContext → Bool
all_delivered r c = all (λ w. wire_delivers r w c.port_values) r.meta.inbound

-- Every source has fired, and at least one wire was dropped by its guard.
abbrev pub has_dropped : Region → MachineContext → Bool
has_dropped r c =
    not (nat_eq (length r.meta.inbound) 0)
    && (all (λ w. wire_settled w c.port_values) r.meta.inbound
        && any (λ w. not (wire_delivers r w c.port_values)) r.meta.inbound)

abbrev pub all_inbound_delivered : Region → MachineContext → Bool
all_inbound_delivered r c = is_authorized r c && all_delivered r c

abbrev pub no_deliverable_wire : Region → MachineContext → Bool
no_deliverable_wire r c = is_authorized r c && has_dropped r c

abbrev pub all_outbound_present : Region → MachineContext → Bool
all_outbound_present r c = all (map_has c.port_values) r.meta.outbound

abbrev pub is_gate : Region → Bool
is_gate r = elim r.meta.stage_type [ agent_type ↦ false | script_type ↦ false | gate_type ↦ true ]

abbrev pub is_outcome : Outcome → Outcome → Bool
is_outcome outcome_done outcome_done = true
is_outcome outcome_done outcome_error = false
is_outcome outcome_error outcome_done = false
is_outcome outcome_error outcome_error = true

abbrev pub was_finalized : MachineContext → String → Outcome → Bool
was_finalized c n o =
    any (λ (f : FinalizedStage). f.name == n && is_outcome f.outcome o) c.finalized_stages

abbrev pub is_finalized : MachineContext → String → Bool
is_finalized c n = any (λ (f : FinalizedStage). f.name == n) c.finalized_stages

-- The actions of the transitions into `error`, and the entry of `done`.
unfoldable pub finalize_error :
    Region
    → FailureReason
    → (message : Option String) → (line : String) → MachineContext
    → MachineContext
finalize_error r reason message line c = record c {
  log = c.log ++ (r.name +++ line) ∷ [];
  finalized_stages =
      c.finalized_stages
      ++ record { name = r.name; outcome = outcome_error; reason = some reason; message = message }
        ∷ [];
}

unfoldable pub enter_done : Region → MachineContext → MachineContext
enter_done r c = if is_finalized c r.name then c else record c {
  log = c.log ++ (r.name +++ ":done") ∷ [];
  finalized_stages =
      c.finalized_stages
      ++ record { name = r.name; outcome = outcome_done; reason = none; message = none } ∷ [];
}

unfoldable pub enter_executing : Region → MachineContext → MachineContext
enter_executing r c = record c { log = c.log ++ (r.name +++ ":executing") ∷ [] }

unfoldable pub authorize : Region → MachineContext → MachineContext
authorize r c = record c { gate_authorized_targets = set_add c.gate_authorized_targets r.name }

unfoldable pub skip : Region → MachineContext → MachineContext
skip r c = record c { gate_skipped_targets = set_add c.gate_skipped_targets r.name }

abbrev pub siblings_of : Region → (gate : String) → List String
siblings_of r g = elim (map_get r.gate_siblings g) [ none ↦ [] | some ts ↦ ts ]

-- The answered gate picked known targets, and this stage is a target that it did not pick.
abbrev pub is_unpicked : Region → (gate : String) → List String → Bool
is_unpicked r g picked =
    all (includes (siblings_of r g)) picked
    && (includes (siblings_of r g) r.name && not (includes picked r.name))

-- applyGateAnsweredContextAssign
unfoldable pub new_skips : (picked skipped : List String) → (siblings : List String) → List String
new_skips picked skipped [] = []
new_skips picked skipped (t ∷ ts) =
    let rest = new_skips picked skipped ts in
    if not (includes picked t) && not (includes skipped t) then t ∷ rest else rest

unfoldable pub add_picked : List String → (picked : List String) → List String
add_picked authorized [] = authorized
add_picked authorized (t ∷ ts) = add_picked (set_add authorized t) ts

unfoldable pub gate_answered_assign :
    Region → (gate : String) → (picked : List String) → MachineContext → MachineContext
unfolding new_skips add_picked
gate_answered_assign r g picked c = record c {
  gate_authorized_targets = add_picked c.gate_authorized_targets picked;
  gate_skipped_targets =
      if all (includes (siblings_of r g)) picked
      then c.gate_skipped_targets ++ new_skips picked c.gate_skipped_targets (siblings_of r g)
      else c.gate_skipped_targets;
}

-- `executing`: its `always` and its handlers.
unfoldable pub executing_always : Region → MachineContext → Option Reaction
unfolding enter_done
executing_always r c =
    if not (is_gate r) && all_outbound_present r c then some (go done (enter_done r c)) else none

abbrev pub retry_count : Region → MachineContext → ℕ
retry_count r c = or_zero (map_get c.retry_counts r.name)

abbrev pub fail : Region → (message : String) → MachineContext → Reaction
fail r message c = go error (finalize_error r executor_failed (some message) ":error" c)

-- The guarded entry for a retry stands before the one that fails.
unfoldable pub retry_or_fail :
    Option RetrySpec → Region → (message : String) → MachineContext → Reaction
unfolding finalize_error
retry_or_fail none r message c = fail r message c
retry_or_fail (some spec) r message c =
    if ltb (retry_count r c) spec.max_retries
    then go_raise waiting c (record {
      failed_stage_name = r.name;
      back_to_stage = spec.back_to_stage;
      retry_idx = retry_count r c;
      max_retries = spec.max_retries;
      error_message = message;
    })
    else fail r message c

abbrev pub cancel : Region → MachineContext → Reaction
cancel r c = go error (finalize_error r upstream_cancelled none ":cancelled" c)

abbrev pub is_mine : Region → Option String → Bool
is_mine r none = true
is_mine r (some stage) = stage == r.name

unfoldable pub executing_on : Region → MachineEvent → MachineContext → Option Reaction
unfolding retry_or_fail gate_answered_assign enter_done finalize_error
executing_on r (stage_failed stage message) c =
    if stage == r.name then some (retry_or_fail r.retry r message c) else none
executing_on r (stage_cancelled stage upstream) c =
    if stage == r.name then some (cancel r c) else none
executing_on r (gate_answered id g answer target) c =
    if is_gate r && g == r.name
    then some (go done (enter_done r (gate_answered_assign r g (targets_of target) c)))
    else none
executing_on r (port_written key value) c =
    if not (is_gate r) && all_outbound_present r c then some (go done (enter_done r c)) else none
executing_on r (interrupt stage) c =
    if not (is_gate r) && is_mine r stage then some forward_interrupt else none
executing_on r start c = none
executing_on r (retry_to_stage retry) c = none
executing_on r (gate_rejected id g answer target affected) c = none
