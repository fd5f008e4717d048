-- ===== src/Compile/Samples.antt =====
-- A pipeline in which a gate sends the run on or back, and what the compiler makes of it.
use workflow_control.Prelude.{
  String, none, some, true, List, [], ◌∷◌, ◌≡◌, refl, eq_iff, ◌⊎◌, inl, inr, In, Distinct, map_get,
  map_set, set_add, includes, arith, Bool, Option,
}
use workflow_control.Ir.{Pipeline, Stage, RouteTarget, one, gate}
use workflow_control.Ir.Samples.{agent_stage, wire, seed, port, pipeline}
use workflow_control.Segments.{stage_names}
use workflow_control.Machine.Context.{StageMeta, InboundWire}
use workflow_control.Structural.Stages.{targets_of}
use workflow_control.Structural.Ancestors.{
  rollback_diagnostics, mixed_routes, mixed_route, down_adjacency,
}
use workflow_control.Compile.{index_stages, find_rollback, RejectRollback, gate_routed_targets}
use workflow_control.Compile.Values.{build_initial_port_values}
use workflow_control.Compile.Ancestors.{IsAncestor}
use workflow_control.Compile.Index.{IsIndexed, index_stages_correct}
use workflow_control.Compile.Rollback.{IsFirst, NoRollback, find_rollback_correct}
use workflow_control.Dag.Correct.{EndsDeclared, IsAcyclic}
use workflow_control.Compile.Build.{
  CompileOptions, CompiledMachine, compiled, cyclic, compile_ir_to_machine,
}
use workflow_control.Compile.Build.Correct.{IsMachine, compile_ir_to_machine_correct}
use workflow_control.Compile.Routing.{IsDeclared, routes_coherent}

abbrev routes : List (String × RouteTarget)
routes = ("yes", one "ship") ∷ ("no", one "draft") ∷ []

abbrev pub review : Stage
review = record {
  name = "review";
  inputs = port "text" ∷ [];
  outputs = [];
  fanout = none;
  config = gate (record {
    question = record { text = "Ship it?"; options = none };
    routing = record { routes = routes };
    timeout_minutes = none;
  });
}

abbrev pub draft : Stage
draft = agent_stage "draft" ("task" ∷ []) ("text" ∷ [])

abbrev pub ship : Stage
ship = agent_stage "ship" ("text" ∷ []) ("url" ∷ [])

abbrev pub reviewed : Pipeline
reviewed =
    pipeline (draft ∷ review ∷ ship ∷ [])
      (seed "task" "draft" "task"
        ∷ wire "draft" "text" "review" "text"
        ∷ wire "draft" "text" "ship" "text"
        ∷ wire "review" "__gate_feedback__" "draft" "task"
        ∷ [])
      (port "task" ∷ [])

pub distinct : Distinct (stage_names reviewed)
distinct = ground (
  arith,
  eq_iff "draft" "review",
  eq_iff "draft" "ship",
  eq_iff "review" "ship",
  eq_iff "review" "draft",
  eq_iff "ship" "draft",
  eq_iff "ship" "review",
)

declared : IsDeclared reviewed
declared n m = ground arith

index_stages_correct_example :
    (index : List (String × StageMeta)) × (index_stages reviewed ≡ some index)
    × ((s : Stage)
        → In s reviewed.stages
        → (meta : StageMeta) × (map_get index s.name ≡ some meta) × IsIndexed reviewed s meta)
    × ((n : String) → ¬ In n (stage_names reviewed) → map_get index n ≡ none)
index_stages_correct_example = index_stages_correct reviewed distinct

find_rollback_correct_example :
    ((b : RejectRollback) × (find_rollback reviewed.wires "review" routes ≡ some (some b))
      × IsFirst reviewed.wires "review" routes b)
    ⊎ ((find_rollback reviewed.wires "review" routes ≡ some none)
        × NoRollback reviewed.wires "review" routes)
find_rollback_correct_example = find_rollback_correct reviewed.wires "review" routes

silent : rollback_diagnostics reviewed.wires reviewed.stages ≡ some []
unfolding rollback_diagnostics mixed_routes mixed_route
silent = refl

routes_coherent_example :
    (index : List (String × StageMeta)) × (index_stages reviewed ≡ some index)
    × (((t : String) → In t (targets_of (one "ship")) → IsAncestor reviewed "review" t)
        ⊎ ((s : Stage)
            → In s reviewed.stages
            → In s.name (targets_of (one "ship"))
            → (meta : StageMeta) × (map_get index s.name ≡ some meta) × (meta.gate_routed ≡ true)))
routes_coherent_example =
    routes_coherent reviewed review routes "yes" (one "ship") distinct declared silent
      (inr (inl refl)) refl (inl refl)
      (λ m. elim m [ inl e ↦ ground (arith, eq_iff "ship" "review") | inr never ↦ absurd never ])

-- The gate's answer `no` goes back, and resets the stages after `draft`.
rollback_test :
    find_rollback reviewed.wires "review" routes
    ≡ some (
        some (record {
          answer = "no";
          target_stages = "draft" ∷ [];
          affected_stages = "draft" ∷ "review" ∷ "ship" ∷ [];
        }))
unfolding find_rollback map_get down_adjacency map_set includes set_add
rollback_test = refl

abbrev again : Stage
again = record review {
  config = gate (record {
    question = record { text = "Ship it?"; options = none };
    routing = record { routes = ("no", one "review") ∷ [] };
    timeout_minutes = none;
  });
}

-- A gate that is its own target counts as a rollback here, while it waits for its own answer there.
again_back_test :
    find_rollback reviewed.wires "review" (("no", one "review") ∷ [])
    ≡ some (
        some (record {
          answer = "no";
          target_stages = "review" ∷ [];
          affected_stages = "review" ∷ [];
        }))
unfolding find_rollback map_get down_adjacency map_set includes set_add
again_back_test = refl

again_waits_test :
    gate_routed_targets (("review", "draft" ∷ []) ∷ []) [] (again ∷ []) ≡ "review" ∷ []
unfolding gate_routed_targets map_get includes set_add
again_waits_test = refl

seeds_test :
    build_initial_port_values reviewed (some (("task", "1") ∷ []))
    ≡ ("review.__gate_feedback__", "\"\"") ∷ ("__external__.task", "1") ∷ []
unfolding build_initial_port_values map_get map_set
seeds_test = refl

pub ends : EndsDeclared reviewed
ends a b edge = ground (arith, eq_iff "__gate_feedback__" "__gate_feedback__")

abbrev pub always_open : InboundWire → String → String → Bool
always_open w g v = true

abbrev pub options : CompileOptions
options = record { task_id = "t"; seed_values = some (("task", "1") ∷ []); initial_context = none }

compile_ir_to_machine_correct_example :
    ((m : CompiledMachine) × (compile_ir_to_machine always_open reviewed options ≡ compiled m)
      × IsAcyclic reviewed
      × IsMachine always_open reviewed options m)
    ⊎ ((c : Option (List String)) × (compile_ir_to_machine always_open reviewed options ≡ cyclic c)
        × ¬ IsAcyclic reviewed)
compile_ir_to_machine_correct_example =
    compile_ir_to_machine_correct always_open reviewed options distinct ends
