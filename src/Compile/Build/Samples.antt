-- ===== src/Compile/Build/Samples.antt =====
-- A pipeline whose gate picks its stage `ship`: the compiled machine and a run of it up to that stage.
use workflow_control.Prelude.{
  String, some, Bool, true, false, List, [], ◌∷◌, map, ◌≡◌, refl, inl, inr, In, map_get, map_set,
  includes, set_add,
}
use workflow_control.Ir.{Stage, Wire, one}
use workflow_control.Ir.Wires.{wire_source_key_prefix}
use workflow_control.Ir.Samples.{seed, wire}
use workflow_control.Dag.{build_dag, note_wires, kahn, sort_names, finish_dag}
use workflow_control.Kahn.{run, degree}
use workflow_control.Structural.Sessions.{note_feed}
use workflow_control.Structural.Ancestors.{down_adjacency}
use workflow_control.Structural.Wiring.{type_of}
use workflow_control.Machine.{
  enter_executing, enter_done, gate_answered_assign, new_skips, add_picked, wire_delivers,
  executing_on,
}
use workflow_control.Machine.Context.{Region, gate_answered, waiting, executing, done}
use workflow_control.Machine.Waiting.{react, react_always, waiting_always}
use workflow_control.Machine.Run.{
  Snapshot, moved, write_port, Step, of_itself, on_event, write, Runs, here, next,
}
use workflow_control.Compile.{
  inbound_wire, index_stages, ancestors_of, upstream_of, gate_routing_map, reject_rollback_map,
}
use workflow_control.Compile.Values.{build_initial_port_values}
use workflow_control.Compile.Routed.{IsRouted}
use workflow_control.Compile.Build.{CompiledMachine, compiled, region_of, compile_ir_to_machine}
use workflow_control.Compile.Build.Entry.{executing-compiled}
use workflow_control.Compile.Samples.{
  reviewed, draft, review, ship, distinct, ends, options, always_open,
}

abbrev region : Stage → List Wire → List String → Bool → Region
region s inbound outbound routed =
    region_of always_open (("review", "ship" ∷ "draft" ∷ []) ∷ []) s (record {
      stage_type = type_of s.config;
      inbound = map inbound_wire inbound;
      outbound = outbound;
      gate_routed = routed;
    })

abbrev pub draft_region : Region
draft_region =
    region draft
      (seed "task" "draft" "task" ∷ wire "review" "__gate_feedback__" "draft" "task" ∷ [])
      ("draft.text" ∷ []) false

abbrev review_region : Region
review_region = region review (wire "draft" "text" "review" "text" ∷ []) [] false

abbrev ship_region : Region
ship_region = region ship (wire "draft" "text" "ship" "text" ∷ []) ("ship.url" ∷ []) true

abbrev pub machine : CompiledMachine
machine = record {
  regions = draft_region ∷ review_region ∷ ship_region ∷ [];
  context = record {
    task_id = "t";
    version_hash = "";
    port_values = ("review.__gate_feedback__", "\"\"") ∷ ("__external__.task", "1") ∷ [];
    log = [];
    gate_authorized_targets = [];
    gate_skipped_targets = [];
    finalized_stages = [];
    retry_counts = [];
  };
  stage_meta =
      ("draft", draft_region.meta)
      ∷ ("review", review_region.meta)
      ∷ ("ship", ship_region.meta)
      ∷ [];
  reject_rollback_map =
      (
        "review",
        record {
          answer = "no";
          target_stages = "draft" ∷ [];
          affected_stages = "draft" ∷ "review" ∷ "ship" ∷ [];
        },
      )
      ∷ [];
}

compiles_to : compile_ir_to_machine always_open reviewed options ≡ compiled machine
unfolding compile_ir_to_machine map_get map_set includes set_add build_dag note_wires kahn run
    sort_names degree finish_dag index_stages ancestors_of upstream_of note_feed reject_rollback_map
    down_adjacency build_initial_port_values gate_routing_map
compiles_to = refl

abbrev s0 : Snapshot
s0 = record { phase = λ n. waiting; context = machine.context }

abbrev s1 : Snapshot
s1 = moved s0 "draft" executing (enter_executing draft_region s0.context)

abbrev s2 : Snapshot
s2 = record s1 { context = write_port "draft.text" "1" s1.context }

abbrev s3 : Snapshot
s3 = moved s2 "review" executing (enter_executing review_region s2.context)

abbrev s4 : Snapshot
s4 = moved s3 "review" done (
    enter_done review_region (gate_answered_assign review_region "review" ("ship" ∷ []) s3.context))

abbrev s5 : Snapshot
s5 = moved s4 "ship" executing (enter_executing ship_region s4.context)

draft_starts : Step machine.regions s0 s1
unfolding react_always waiting_always includes wire_delivers map_get wire_source_key_prefix
draft_starts =
    of_itself draft_region executing (enter_executing draft_region s0.context) (inl refl)
      (refl, refl) refl

review_starts : Step machine.regions s2 s3
unfolding react_always waiting_always includes write_port enter_executing wire_delivers map_get
    map_set wire_source_key_prefix
review_starts =
    of_itself review_region executing (enter_executing review_region s2.context) (inr (inl refl))
      (refl, refl) refl

review_answered : Step machine.regions s3 s4
unfolding react executing_on
review_answered =
    on_event review_region (gate_answered "q" "review" "yes" (one "ship")) done s4.context
      (inr (inl refl)) (refl, refl) refl

ship_starts : Step machine.regions s4 s5
unfolding react_always waiting_always includes write_port enter_executing enter_done
    gate_answered_assign new_skips add_picked set_add wire_delivers map_get map_set
    wire_source_key_prefix
ship_starts =
    of_itself ship_region executing (enter_executing ship_region s4.context) (inr (inr (inl refl)))
      (refl, refl) refl

sample_run : Runs machine.regions s0 s5
sample_run =
    next
      (next (next (next (next here draft_starts) (write "draft.text" "1" refl)) review_starts)
        review_answered)
      ship_starts

executing-compiled_example :
    ((w : Wire)
      → In w reviewed.wires
      → w.to.stage ≡ "ship"
      → (value : String) × (map_get s5.context.port_values (inbound_wire w).source_key
          ≡ some value))
    × (IsRouted reviewed "ship" → In "ship" s5.context.gate_authorized_targets)
executing-compiled_example =
    executing-compiled always_open reviewed options machine ship s0 s5 distinct ends compiles_to
      (inr (inr (inl refl))) (λ n e. cc) sample_run refl
