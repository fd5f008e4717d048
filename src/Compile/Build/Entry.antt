-- ===== src/Compile/Build/Entry.antt =====
-- What holds of a stage of a pipeline while it executes in a run of the compiled machine.
use workflow_control.Prelude.{
  String, some, is_some, Bool, true, List, [], ◌∷◌, ◌≡◌, ◌≢◌, refl, sym, ap, subst, ◌∙◌, inl, inr,
  ◌==◌, eq_iff, all, includes, includes_iff, In, In-map, In-keep_intro, Distinct, map_get,
  Option-cases, arith,
}
use workflow_control.Ir.{Pipeline, Stage, Wire}
use workflow_control.Dag.Correct.{EndsDeclared}
use workflow_control.Segments.{stage_names}
use workflow_control.Machine.{wire_settled}
use workflow_control.Machine.Context.{InboundWire, Region, executing}
use workflow_control.Machine.Run.{Snapshot, Runs}
use workflow_control.Machine.Run.Entry.{executing-Runs}
use workflow_control.Compile.{inbound_wire}
use workflow_control.Compile.Index.{IsIndexed, wires_into}
use workflow_control.Compile.Routed.{IsRouted}
use workflow_control.Compile.Build.{
  CompileOptions, CompiledMachine, CompileResult, compiled, cyclic, broken, compile_ir_to_machine,
}
use workflow_control.Compile.Build.Correct.{AreRegions, IsMachine, compile_ir_to_machine_correct}

all_In : {A : Type 0} (p : A → Bool) (x : A) (xs : List A) → all p xs ≡ true → In x xs → p x ≡ true
all_In p x [] h i = absurd i
all_In p x (y ∷ ys) h (inl e) = let k : p y ≡ true = ground arith in subst (λ z. p z ≡ true) e k
all_In p x (y ∷ ys) h (inr i) = all_In p x ys (ground arith) i

module _ (evaluate : InboundWire → (guard value : String) → Bool) where
  region_for :
      (ir : Pipeline) (stages : List Stage) (rs : List Region) (s : Stage)
      → AreRegions evaluate ir stages rs
      → In s stages
      → (r : Region) × In r rs × (r.name ≡ s.name) × IsIndexed ir s r.meta
  region_for ir [] rs s h i = absurd i
  region_for ir (q ∷ stages) [] s h i = absurd h
  region_for ir (q ∷ stages) (r ∷ rs) s h (inl e) =
      (r, inl refl, h.0 ∙ ap (λ (z : Stage). z.name) e, subst (λ z. IsIndexed ir z r.meta) e h.1)
  region_for ir (q ∷ stages) (r ∷ rs) s h (inr i) =
      let (r', j, e, k) = region_for ir stages rs s h.3 i in (r', inr j, e, k)

  compile_ir_to_machine-IsMachine :
      (ir : Pipeline) (options : CompileOptions) (m : CompiledMachine)
      → Distinct (stage_names ir)
      → EndsDeclared ir
      → compile_ir_to_machine evaluate ir options ≡ compiled m
      → IsMachine evaluate ir options m
  compile_ir_to_machine-IsMachine ir options m d ends e =
      elim (compile_ir_to_machine_correct evaluate ir options d ends) [
        | inl (m', f, acyclic, is_machine) ↦
            subst (IsMachine evaluate ir options) (ap the_machine (sym f ∙ e)) is_machine
        | inr (c, f, cyc) ↦ let never : cyclic c ≡ compiled m = sym f ∙ e in cc
      ]
    where
      the_machine : CompileResult → CompiledMachine
      the_machine (compiled k) = k
      the_machine (cyclic c) = m
      the_machine broken = m

  -- In every run of a machine that was compiled from a pipeline whose stage names are distinct and whose
  -- edges run between declared stages, started with no region executing: while a stage executes, every
  -- wire of the pipeline into it has a value at its source; and if some gate has the stage among its
  -- targets and the stage is no ancestor of that gate, the stage has been authorized.
  pub executing-compiled :
      (ir : Pipeline) (options : CompileOptions) (m : CompiledMachine) (s : Stage)
      (from to : Snapshot)
      → Distinct (stage_names ir)
      → EndsDeclared ir
      → compile_ir_to_machine evaluate ir options ≡ compiled m
      → In s ir.stages
      → ((n : String) → from.phase n ≢ executing)
      → Runs m.regions from to
      → to.phase s.name ≡ executing
      → ((w : Wire)
          → In w ir.wires
          → w.to.stage ≡ s.name
          → (value : String) × (map_get to.context.port_values (inbound_wire w).source_key
              ≡ some value))
        × (IsRouted ir s.name → In s.name to.context.gate_authorized_targets)
  executing-compiled ir options m s from to d ends e i idle run x =
      let (regions, names, start) = compile_ir_to_machine-IsMachine ir options m d ends e in
      let (r, j, n, k) = region_for ir ir.stages m.regions s regions i in
      let (let_in, settled) =
        executing-Runs m.regions from to r (subst Distinct (sym names) d) idle run j
          (ap to.phase n ∙ x) in
      (
        (λ w at_wire into. settled_value to (inbound_wire w) (
            all_In (λ v. wire_settled v to.context.port_values) (inbound_wire w) r.meta.inbound
              settled
              (subst (In (inbound_wire w)) (sym k.wires_in) (
                In-map inbound_wire w (wires_into ir.wires s.name) (
                  In-keep_intro (λ (v : Wire). v.to.stage == s.name) w ir.wires at_wire
                    ((eq_iff w.to.stage s.name).1 into)))))),
        (λ routed.
            let waits = k.waits.1 routed in
            let l : includes to.context.gate_authorized_targets r.name ≡ true =
              rw waits at let_in in
            subst (λ z. In z to.context.gate_authorized_targets) n
              ((includes_iff to.context.gate_authorized_targets r.name).0 l)),
      )
    where
      settled_value :
          (t : Snapshot) (w : InboundWire)
          → wire_settled w t.context.port_values ≡ true
          → (value : String) × (map_get t.context.port_values w.source_key ≡ some value)
      settled_value t w h = elim (Option-cases (map_get t.context.port_values w.source_key)) [
        | inl f ↦
            let never : is_some (map_get t.context.port_values w.source_key) ≡ true = h in
            let no = rw f at never in cc
        | inr found ↦ found
      ]
