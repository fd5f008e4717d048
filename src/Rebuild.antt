-- ===== src/Rebuild.antt =====
-- How the runner resets a run before it compiles the machine anew: after a gate was rejected, and to
-- retry from an earlier stage (the end of the loop of attempts in
-- apps/server/src/kernel-next/runtime/runner.ts). The sets that keep events from being published twice
-- and the rows of the database are left out.
pub mod Correct
pub mod Retry
mod Samples
use Prim.Native.Char.{code}
use workflow_control.Prelude.{
  String, ℕ, ◌+◌, Option, none, some, is_some, Bool, true, false, not, ◌&&◌, ◌||◌, List, [], ◌∷◌,
  ◌==◌, nat_eq, includes, keep, map_get, map_set, if◌then◌else◌,
}
use workflow_control.Ir.{Pipeline, Stage}
use workflow_control.Kahn.{or_zero}
use workflow_control.Reach.{topo_downstream}
use workflow_control.Machine.Context.{MachineContext, FinalizedStage, RetryToStage}
use workflow_control.Compile.{port_key, routes_of}
use workflow_control.Compile.Build.{InitialContext}

-- What stands before the first such character, and what behind it.
unfoldable pub text_before : ℕ → String → String
text_before d String.[] = String.[]
text_before d (String.◌∷◌ c s) =
    let rest = text_before d s in if nat_eq (code c) d then String.[] else String.◌∷◌ c rest

unfoldable pub text_behind : ℕ → String → Option String
text_behind d String.[] = none
text_behind d (String.◌∷◌ c s) =
    let rest = text_behind d s in if nat_eq (code c) d then some s else rest

-- const [stageName, portName] = key.split(".")
abbrev pub key_stage : (key : String) → String
key_stage key = text_before b'.' key

abbrev pub key_port : (key : String) → Option String
key_port key = elim (text_behind b'.' key) [
  | none ↦ none
  | some rest ↦ some (text_before b'.' rest)
]

abbrev pub is_feedback : Option String → Bool
is_feedback none = false
is_feedback (some p) = p == "__gate_feedback__"

-- The values that a rejection keeps.
unfoldable pub keeps_value : (affected : List String) (from_gate : String) → (key : String) → Bool
unfolding text_before text_behind
keeps_value affected from_gate key =
    not (includes affected (key_stage key))
    || (is_feedback (key_port key) && key_stage key == from_gate)

abbrev pub is_gate_stage : Stage → Bool
is_gate_stage s = is_some (routes_of s.config)

-- The feedback of the gates that a test holds of starts empty again.
unfoldable pub reseed :
    (Stage → Bool) → List (String × String) → List Stage → List (String × String)
reseed wanted values [] = values
reseed wanted values (s ∷ stages) =
    reseed wanted
      (if is_gate_stage s && wanted s
        then map_set values (port_key s.name "__gate_feedback__") "\"\""
        else values)
      stages

abbrev pub reopened : (affected : List String) (from_gate : String) → Stage → Bool
reopened affected from_gate s = includes affected s.name && not (s.name == from_gate)

abbrev pub entries_without {ℓ} : {V : Type ℓ} → List String → List (String × V) → List (String × V)
entries_without {V} affected m = keep (λ (e : String × V). not (includes affected e.0)) m

abbrev pub finals_without : List String → List FinalizedStage → List FinalizedStage
finals_without affected l = keep (λ (f : FinalizedStage). not (includes affected f.name)) l

abbrev pub names_without : List String → List String → List String
names_without affected l = keep (λ n. not (includes affected n)) l

abbrev pub keeps_line : List String → (entry : String) → Bool
keeps_line affected entry = elim (text_behind b':' entry) [
  | none ↦ true
  | some rest ↦ not (includes affected (text_before b':' entry))
]

-- After a rejection.
unfoldable pub rollback_rebuild :
    Pipeline → MachineContext → (from_gate : String) → (affected : List String) → InitialContext
unfolding keeps_value reseed
rollback_rebuild ir c from_gate affected = record {
  port_values = some (
      reseed (reopened affected from_gate)
        (keep (λ (e : String × String). keeps_value affected from_gate e.0) c.port_values)
        ir.stages);
  finalized_stages = some (finals_without affected c.finalized_stages);
  gate_authorized_targets = some (names_without affected c.gate_authorized_targets);
  gate_skipped_targets = some (names_without affected c.gate_skipped_targets);
  retry_counts = some (entries_without affected c.retry_counts);
  log = some (keep (keeps_line affected) c.log);
}

-- To retry, the stages from `back_to_stage` on are reset; `none` means that the search ran out of fuel.
abbrev pub reset_for_retry : Pipeline → MachineContext → RetryToStage → List String → InitialContext
reset_for_retry ir c e resets = record {
  port_values = some (
      reseed (λ s. includes resets s.name)
        (keep (λ (v : String × String). not (includes resets (text_before b'.' v.0))) c.port_values)
        ir.stages);
  finalized_stages = some (finals_without resets c.finalized_stages);
  gate_authorized_targets = some c.gate_authorized_targets;
  gate_skipped_targets = some c.gate_skipped_targets;
  retry_counts = some (
      map_set c.retry_counts e.failed_stage_name
        (or_zero (map_get c.retry_counts e.failed_stage_name) + 1));
  log = some (keep (keeps_line resets) c.log);
}

unfoldable pub retry_rebuild : Pipeline → MachineContext → RetryToStage → Option InitialContext
unfolding reseed text_before
retry_rebuild ir c e = elim (topo_downstream ir.wires e.back_to_stage) [
  | none ↦ none
  | some downstream ↦ some (reset_for_retry ir c e (e.back_to_stage ∷ downstream))
]
