-- ===== src/Compile/Build.antt =====
-- `compileIRToMachine`: the check for cycles, the maps, the regions and the first context. `evaluate`
-- stands for the evaluation of guards.
pub mod Correct
pub mod Entry
pub mod Samples
use workflow_control.Prelude.{String, ℕ, Option, none, some, Bool, List, [], ◌∷◌, map_get}
use workflow_control.Ir.{
  Pipeline, Stage, StageConfig, agent, script, gate, ScriptConfig, registry, inline, RetrySpec,
}
use workflow_control.Dag.{build_dag, dag, cycle, type_error, out_of_fuel}
use workflow_control.Machine.Context.{
  StageMeta, InboundWire, MachineContext, FinalizedStage, Region,
}
use workflow_control.Compile.{index_stages, gate_routing_map, RejectRollback, reject_rollback_map}
use workflow_control.Compile.Values.{build_initial_port_values}

pub record InitialContext : Type 0 where
  pub port_values : Option (List (String × String))
  pub retry_counts : Option (List (String × ℕ))
  pub gate_authorized_targets : Option (List String)
  pub gate_skipped_targets : Option (List String)
  pub log : Option (List String)
  pub finalized_stages : Option (List FinalizedStage)

pub record CompileOptions : Type 0 where
  pub task_id : String
  pub seed_values : Option (List (String × String))
  pub initial_context : Option InitialContext

pub record CompiledMachine : Type 0 where
  pub regions : List Region
  pub context : MachineContext
  pub stage_meta : List (String × StageMeta)
  pub reject_rollback_map : List (String × RejectRollback)

-- `cyclic` is the error that is thrown on a cycle; `broken` an exception of another kind, or fuel that
-- ran out, which is no outcome of the program.
pub data CompileResult : Type 0 where
  compiled : CompiledMachine → CompileResult
  cyclic : Option (List String) → CompileResult
  broken : CompileResult

-- `a ?? b`
abbrev pub or_default {ℓ} : {A : Type ℓ} → Option A → A → A
or_default none d = d
or_default (some a) d = a

abbrev script_retry : ScriptConfig → Option RetrySpec
script_retry (registry module_id retry) = retry
script_retry (inline module_source sample_inputs retry) = retry

abbrev pub retry_spec : StageConfig → Option RetrySpec
retry_spec (agent c) = none
retry_spec (script c) = script_retry c
retry_spec (gate c) = none

abbrev pub no_initial : InitialContext
no_initial = record {
  port_values = none;
  retry_counts = none;
  gate_authorized_targets = none;
  gate_skipped_targets = none;
  log = none;
  finalized_stages = none;
}

abbrev pub context_from : Pipeline → CompileOptions → InitialContext → MachineContext
context_from ir options i = record {
  task_id = options.task_id;
  version_hash = "";
  port_values = or_default i.port_values (build_initial_port_values ir options.seed_values);
  log = or_default i.log [];
  gate_authorized_targets = or_default i.gate_authorized_targets [];
  gate_skipped_targets = or_default i.gate_skipped_targets [];
  finalized_stages = or_default i.finalized_stages [];
  retry_counts = or_default i.retry_counts [];
}

abbrev pub first_context : Pipeline → CompileOptions → MachineContext
first_context ir options = context_from ir options (or_default options.initial_context no_initial)

module _ (evaluate : InboundWire → (guard value : String) → Bool) where
  abbrev pub region_of : List (String × List String) → Stage → StageMeta → Region
  region_of siblings s meta = record {
    name = s.name;
    meta = meta;
    gate_siblings = siblings;
    retry = retry_spec s.config;
    evaluate = evaluate;
  }

  unfoldable pub build_regions :
      List (String × StageMeta) → List (String × List String) → List Stage → Option (List Region)
  build_regions index siblings [] = some []
  build_regions index siblings (s ∷ stages) =
      let rest = build_regions index siblings stages in
      elim (map_get index s.name) [
        | none ↦ none
        | some meta ↦ elim rest [
          | none ↦ none
          | some regions ↦ some (region_of siblings s meta ∷ regions)
        ]
      ]

  unfoldable pub assemble : Pipeline → CompileOptions → CompileResult
  unfolding build_regions
  assemble ir options = elim (index_stages ir) [
    | none ↦ broken
    | some index ↦ elim (reject_rollback_map ir.wires [] ir.stages) [
      | none ↦ broken
      | some rollbacks ↦ elim (build_regions index (gate_routing_map [] ir.stages) ir.stages) [
        | none ↦ broken
        | some regions ↦ compiled (record {
          regions = regions;
          context = first_context ir options;
          stage_meta = index;
          reject_rollback_map = rollbacks;
        })
      ]
    ]
  ]

  unfoldable pub compile_ir_to_machine : Pipeline → CompileOptions → CompileResult
  unfolding assemble
  compile_ir_to_machine ir options = elim (build_dag ir) [
    | dag order g ↦ assemble ir options
    | cycle c ↦ cyclic c
    | type_error ↦ broken
    | out_of_fuel ↦ broken
  ]
