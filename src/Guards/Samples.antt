-- ===== src/Guards/Samples.antt =====
-- Guards on small expressions.
use workflow_control.Prelude.{
  String, none, some, true, false, List, [], ◌∷◌, ◌≡◌, ◌≢◌, refl, inl, inr, In, codes, map_get,
}
use workflow_control.Structural.{agent_type}
use workflow_control.Machine.{wire_delivers, no_deliverable_wire}
use workflow_control.Machine.Context.{InboundWire, StageMeta, Region, MachineContext}
use workflow_control.Guards.{
  denied_identifiers, is_word, deny_exec, token_at, after_prefix, Ran, returned, guard_denied,
  evaluate_guard, GuardFailure, describe_wire_failure, upstream_not_written,
  build_no_active_wire_error,
}
use workflow_control.Guards.Denied.{StandsIn, evaluate_guard-StandsIn}
use workflow_control.Guards.Report.{guarded_by, no_active_wire_report}

escape : StandsIn false (codes "value.constructor") "constructor"
unfolding is_word
escape = (inr (inr (inr (inr (inr (inr (inr (inl refl))))))), codes "value.", [], refl, refl, refl)

evaluate_guard-StandsIn_example :
    (u : String) × In u denied_identifiers
    × ((run : String → String → Ran) (value : String)
        → evaluate_guard run "value.constructor" value
          ≡ (false, some (guard_denied u "value.constructor")))
evaluate_guard-StandsIn_example = evaluate_guard-StandsIn "value.constructor" "constructor" escape

processing_is_allowed : deny_exec false (codes "value.processing > 1") ≡ none
unfolding deny_exec token_at after_prefix is_word
processing_is_allowed = refl

abbrev below : String → String → Ran
below expr value = returned false

abbrev guarded_wire : InboundWire
guarded_wire = record {
  source_key = "draft.score";
  from = record { stage = "draft"; port = "score" };
  to = record { stage = "ship"; port = "score" };
  guard = some "value > 1";
}

abbrev ship : Region
ship = record {
  name = "ship";
  meta = record {
    stage_type = agent_type;
    inbound = guarded_wire ∷ [];
    outbound = [];
    gate_routed = false;
  };
  gate_siblings = [];
  retry = none;
  evaluate = λ w g v. false;
}

abbrev scored : MachineContext
scored = record {
  task_id = "t";
  version_hash = "";
  port_values = ("draft.score", "0") ∷ [];
  log = [];
  gate_authorized_targets = [];
  gate_skipped_targets = [];
  finalized_stages = [];
  retry_counts = [];
}

abbrev metas : List (String × StageMeta)
metas = ("ship", ship.meta) ∷ []

found : map_get metas "ship" ≡ some ship.meta
unfolding map_get
found = refl

dead : no_deliverable_wire (guarded_by below ship) scored ≡ true
unfolding wire_delivers map_get evaluate_guard deny_exec token_at after_prefix is_word
dead = refl

no_active_wire_report_example :
    ((build_no_active_wire_error below "ship" metas scored.port_values).failed_wires ≢ [])
    × ((f : GuardFailure)
        → In f (build_no_active_wire_error below "ship" metas scored.port_values).failed_wires
        → (f.reason ≢ upstream_not_written)
          × (w : InboundWire) × In w (guarded_wire ∷ [])
          × (describe_wire_failure below w scored.port_values ≡ some f)
          × (wire_delivers (guarded_by below ship) w scored.port_values ≡ false))
no_active_wire_report_example = no_active_wire_report below ship scored metas found dead
