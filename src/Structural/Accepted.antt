-- ===== src/Structural/Accepted.antt =====
-- What the other parts may rely on once the rules on names and wires are silent.
use workflow_control.Prelude.{
  String, Option, some, List, [], ◌∷◌, map, ◌≡◌, subst, ◌⊎◌, inl, inr, In, All, arith,
}
use mathlib.Core.Option.{some-injective}
use workflow_control.Ir.{Pipeline, Stage, Wire, WireSource, stage, external}
use workflow_control.Ir.Wires.{source_stage}
use workflow_control.Segments.{stage_names}
use workflow_control.Dag.{accepted, has_cycle, validate_dag}
use workflow_control.Dag.Links.{DagEdge}
use workflow_control.Dag.Correct.{IsAcyclic, validate_dag_correct}
use workflow_control.Structural.{PortSide, in_side, out_side}
use workflow_control.Structural.Names.{name_diagnostics}
use workflow_control.Structural.Names.Correct.{name_diagnostics_correct}
use workflow_control.Structural.Wiring.{wire_diagnostics}
use workflow_control.Structural.Wiring.Correct.{
  Declares, IsGate-listed, IsSource, wire_diagnostics_correct,
}

Declares-listed :
    (side : PortSide) (stages : List Stage) (a p : String)
    → Declares side stages a p
    → In a (map (λ (s : Stage). s.name) stages)
Declares-listed side [] a p h = h
Declares-listed side (s ∷ stages) a p h = ground (arith, Declares-listed side stages a p)

IsSource-listed :
    (ir : Pipeline) (src : WireSource) (a : String)
    → IsSource ir src
    → source_stage src ≡ some a
    → In a (stage_names ir)
IsSource-listed ir (external p) a h e = cc
IsSource-listed ir (stage b p) a (inl out) e =
    subst (λ x. In x (stage_names ir)) (some-injective b a e)
      (Declares-listed out_side ir.stages b p out)
IsSource-listed ir (stage b p) a (inr (feedback, gate')) e =
    subst (λ x. In x (stage_names ir)) (some-injective b a e) (IsGate-listed ir.stages b gate')

pub edges_listed :
    (ir : Pipeline) (ws : List Wire) (a b : String)
    → All (λ (w : Wire). IsSource ir w.from × Declares in_side ir.stages w.to.stage w.to.port) ws
    → DagEdge ws a b
    → In a (stage_names ir) × In b (stage_names ir)
edges_listed ir [] a b h e = absurd e
edges_listed ir (w ∷ ws) a b h (inl (from, to, edge)) = (
  IsSource-listed ir w.from a h.0.0 from,
  subst (λ x. In x (stage_names ir)) to
      (Declares-listed in_side ir.stages w.to.stage w.to.port h.0.1),
)
edges_listed ir (w ∷ ws) a b h (inr e) = edges_listed ir ws a b h.1 e

-- For a pipeline on whose names and wires there is no diagnostic, the check for cycles does not
-- throw: it accepts exactly the pipelines without a wire from a stage to itself and with a rank of
-- the stages that rises along every edge, and it reports a cycle for all others.
pub silent-validate_dag :
    (ir : Pipeline)
    → name_diagnostics ir ≡ []
    → wire_diagnostics ir [] ir.wires ≡ []
    → ((validate_dag ir ≡ accepted) × IsAcyclic ir)
      ⊎ ((c : Option (List String)) × (validate_dag ir ≡ has_cycle c) × ¬ IsAcyclic ir)
silent-validate_dag ir names wires =
    let d = ((name_diagnostics_correct ir).0 names).stages_distinct in
    let ok = (wire_diagnostics_correct ir d).0 wires in
    validate_dag_correct ir d (λ a b e. edges_listed ir ir.wires a b ok.0 e)
