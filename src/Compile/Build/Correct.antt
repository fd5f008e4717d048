-- ===== src/Compile/Build/Correct.antt =====
-- What compiling a pipeline gives.
use workflow_control.Prelude.{
  String, Option, some, Bool, List, [], ◌∷◌, map, ◌≡◌, refl, ap, ◌⊎◌, inl, inr, In, Distinct,
  map_get, map_set, Option-cases,
}
use workflow_control.Ir.{Pipeline, Stage}
use workflow_control.Dag.{
  build_dag, BuildResult, dag, cycle, type_error, out_of_fuel, validate_dag, accepted, has_cycle,
  throws, unknown,
}
use workflow_control.Dag.Correct.{EndsDeclared, IsAcyclic, validate_dag_correct}
use workflow_control.Segments.{stage_names}
use workflow_control.Machine.Context.{StageMeta, InboundWire, Region}
use workflow_control.Compile.{routes_of, gate_routing_map, RejectRollback, reject_rollback_map}
use workflow_control.Compile.Index.{IsIndexed, index_stages_correct}
use workflow_control.Compile.Rollback.{find_rollback_correct}
use workflow_control.Compile.Build.{
  CompileOptions, CompiledMachine, compiled, cyclic, first_context, retry_spec, region_of,
  build_regions, assemble, compile_ir_to_machine,
}

rollback_map_returns :
    (ir : Pipeline) (found : List (String × RejectRollback)) (stages : List Stage)
    → (m : List (String × RejectRollback)) × (reject_rollback_map ir.wires found stages ≡ some m)
unfolding reject_rollback_map
rollback_map_returns ir found [] = (found, refl)
rollback_map_returns ir found (s ∷ stages) = elim (Option-cases (routes_of s.config)) [
  | inl e ↦ let (m, f) = rollback_map_returns ir found stages in (m, rw (e, reject_rollback_map) f)
  | inr (routes, e) ↦ elim (find_rollback_correct ir.wires s.name routes) [
    | inl (b, f, first) ↦
        let (m, g) = rollback_map_returns ir (map_set found s.name b) stages in
        (m, rw (e, reject_rollback_map, f) g)
    | inr (f, without) ↦
        let (m, g) = rollback_map_returns ir found stages in (m, rw (e, reject_rollback_map, f) g)
  ]
]

module _ (evaluate : InboundWire → (guard value : String) → Bool) where
  -- A region for each stage, in their order, built from what the index holds of it.
  abbrev pub AreRegions : Pipeline → List Stage → List Region → Type 0
  AreRegions ir [] [] = Unit
  AreRegions ir [] (r ∷ rs) = ⊥
  AreRegions ir (s ∷ ss) [] = ⊥
  AreRegions ir (s ∷ ss) (r ∷ rs) =
      (r.name ≡ s.name)
      × IsIndexed ir s r.meta
      × (r.retry ≡ retry_spec s.config)
      × AreRegions ir ss rs

  regions_lem :
      (ir : Pipeline) (index : List (String × StageMeta)) (siblings : List (String × List String))
      (stages : List Stage)
      → ((s : Stage)
          → In s stages
          → (meta : StageMeta) × (map_get index s.name ≡ some meta) × IsIndexed ir s meta)
      → (rs : List Region) × (build_regions evaluate index siblings stages ≡ some rs)
        × AreRegions ir stages rs
        × (map (λ (r : Region). r.name) rs ≡ map (λ (s : Stage). s.name) stages)
  unfolding build_regions
  regions_lem ir index siblings [] h = ([], refl, tt, refl)
  regions_lem ir index siblings (s ∷ stages) h =
      let (meta, e, k) = h s (inl refl) in
      let (rs, f, ok, names) = regions_lem ir index siblings stages (λ q i. h q (inr i)) in
      (
        region_of evaluate siblings s meta ∷ rs,
        rw (e, build_regions, f) refl,
        (refl, k, refl, ok),
        ap (λ l. s.name ∷ l) names,
      )

  -- The compiled machine has a region for each stage, with distinct names, and starts from the context
  -- that the options ask for.
  abbrev pub IsMachine : Pipeline → CompileOptions → CompiledMachine → Type 0
  IsMachine ir options m =
      AreRegions ir ir.stages m.regions
      × (map (λ (r : Region). r.name) m.regions ≡ stage_names ir)
      × (m.context ≡ first_context ir options)

  assemble_lem :
      (ir : Pipeline) (options : CompileOptions)
      → Distinct (stage_names ir)
      → (m : CompiledMachine) × (assemble evaluate ir options ≡ compiled m) × IsMachine ir options m
  unfolding assemble
  assemble_lem ir options d =
      let (index, e, held, other) = index_stages_correct ir d in
      let (rollbacks, f) = rollback_map_returns ir [] ir.stages in
      let (rs, g, ok, names) =
        regions_lem ir index (gate_routing_map [] ir.stages) ir.stages held in
      (
        record {
          regions = rs;
          context = first_context ir options;
          stage_meta = index;
          reject_rollback_map = rollbacks;
        },
        rw (e, assemble, f, g) refl,
        (ok, names, refl),
      )

  by_dag :
      (ir : Pipeline) (options : CompileOptions) (b : BuildResult)
      → Distinct (stage_names ir)
      → build_dag ir ≡ b
      → ((validate_dag ir ≡ accepted) × IsAcyclic ir)
        ⊎ ((c : Option (List String)) × (validate_dag ir ≡ has_cycle c) × ¬ IsAcyclic ir)
      → ((m : CompiledMachine) × (compile_ir_to_machine evaluate ir options ≡ compiled m)
          × IsAcyclic ir
          × IsMachine ir options m)
        ⊎ ((c : Option (List String)) × (compile_ir_to_machine evaluate ir options ≡ cyclic c)
            × ¬ IsAcyclic ir)
  unfolding compile_ir_to_machine validate_dag
  by_dag ir options (dag order g) d e (inl (v, acyclic)) =
      let (m, f, ok) = assemble_lem ir options d in
      inl (m, rw (e, compile_ir_to_machine) f, acyclic, ok)
  by_dag ir options (dag order g) d e (inr (c, v, cyc)) =
      let never : accepted ≡ has_cycle c = rw (validate_dag, e) at v in cc
  by_dag ir options (cycle c) d e (inl (v, acyclic)) =
      let never : has_cycle c ≡ accepted = rw (validate_dag, e) at v in cc
  by_dag ir options (cycle c) d e (inr (c', v, cyc)) =
      inr (c, rw (e, compile_ir_to_machine) refl, cyc)
  by_dag ir options type_error d e (inl (v, acyclic)) =
      let never : throws ≡ accepted = rw (validate_dag, e) at v in cc
  by_dag ir options type_error d e (inr (c, v, cyc)) =
      let never : throws ≡ has_cycle c = rw (validate_dag, e) at v in cc
  by_dag ir options out_of_fuel d e (inl (v, acyclic)) =
      let never : unknown ≡ accepted = rw (validate_dag, e) at v in cc
  by_dag ir options out_of_fuel d e (inr (c, v, cyc)) =
      let never : unknown ≡ has_cycle c = rw (validate_dag, e) at v in cc

  -- For a pipeline whose stage names are distinct and whose edges run between declared stages, compiling
  -- either gives a machine, exactly when the pipeline has no cycle, or reports a cycle. The machine has one
  -- region for each stage, in their order, built from the indexed wires, keys and gate of that stage and
  -- from its retry, and it starts from the context that the options ask for.
  pub compile_ir_to_machine_correct :
      (ir : Pipeline) (options : CompileOptions)
      → Distinct (stage_names ir)
      → EndsDeclared ir
      → ((m : CompiledMachine) × (compile_ir_to_machine evaluate ir options ≡ compiled m)
          × IsAcyclic ir
          × IsMachine ir options m)
        ⊎ ((c : Option (List String)) × (compile_ir_to_machine evaluate ir options ≡ cyclic c)
            × ¬ IsAcyclic ir)
  compile_ir_to_machine_correct ir options d ends =
      by_dag ir options (build_dag ir) d refl (validate_dag_correct ir d ends)
