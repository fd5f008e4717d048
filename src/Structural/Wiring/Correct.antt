-- ===== src/Structural/Wiring/Correct.antt =====
-- What the wires of a pipeline are like on which there is no diagnostic.
use workflow_control.Prelude.{
  String, some, true, List, [], ◌∷◌, ◌++◌, map, ◌≡◌, ◌≢◌, refl, sym, subst, ◌↔◌, ◌⊎◌, inl, inr,
  eq_iff, includes_iff, set_add, set_add_iff, any, In, All, Distinct, map_get, map_set,
  map_get-map_set, arith,
}
use workflow_control.Ir.{Pipeline, Stage, Wire, WireSource, WireTarget, stage, external}
use workflow_control.Segments.{stage_names}
use workflow_control.Structural.{PortSide, in_side, out_side, report, wire_target_already_driven}
use workflow_control.Structural.Silence.{append_silent, append3_silent, report_silent}
use workflow_control.Structural.Names.{port_names, inputs_of, external_names, reserved}
use workflow_control.Structural.Wiring.{
  type_of, stage_types, side_names, has_port, is_gate_type, source_diagnostics, target_diagnostics,
  same_target, wire_diagnostics,
}
use workflow_control.Structural.{StageType, agent_type, script_type, gate_type}

-- A stage of the list has the name and, on the side, the port.
abbrev pub Declares : PortSide → List Stage → String → String → Type 0
Declares side [] a p = ⊥
Declares side (s ∷ stages) a p =
    ((s.name ≡ a) × In p (side_names side s)) ⊎ Declares side stages a p

has_port_iff :
    (stages : List Stage) (side : PortSide) (a p : String)
    → (has_port stages side a p ≡ true) ↔ Declares side stages a p
unfolding has_port
has_port_iff [] side a p = ground arith
has_port_iff (s ∷ stages) side a p =
    ground
      (arith, has_port_iff stages side a p, eq_iff s.name a, includes_iff (side_names side s) p)

abbrev pub IsGate : List Stage → String → Type 0
IsGate [] a = ⊥
IsGate (s ∷ stages) a = ((s.name ≡ a) × (type_of s.config ≡ gate_type)) ⊎ IsGate stages a

pub IsGate-listed :
    (stages : List Stage) (a : String) → IsGate stages a → In a (map (λ (s : Stage). s.name) stages)
IsGate-listed [] a h = h
IsGate-listed (s ∷ stages) a h = ground (arith, IsGate-listed stages a)

is_gate_iff : (t : StageType) → (is_gate_type (some t) ≡ true) ↔ (t ≡ gate_type)
is_gate_iff agent_type = ground arith
is_gate_iff script_type = ground arith
is_gate_iff gate_type = ground arith

stage_types-is_gate_type :
    (types : List (String × StageType)) (stages : List Stage) (a : String)
    → Distinct (map (λ (s : Stage). s.name) stages)
    → (is_gate_type (map_get (stage_types types stages) a) ≡ true) ↔ (
        IsGate stages a
        ⊎ (¬ In a (map (λ (s : Stage). s.name) stages) × (is_gate_type (map_get types a) ≡ true)))
unfolding stage_types
stage_types-is_gate_type types [] a d = ground arith
stage_types-is_gate_type types (s ∷ stages) a d = ground (
  arith,
  stage_types-is_gate_type (map_set types s.name (type_of s.config)) stages a d.1,
  map_get-map_set types s.name a (type_of s.config),
  eq_iff s.name a,
  is_gate_iff (type_of s.config),
  IsGate-listed stages a,
  d.0,
  λ (e : s.name ≡ a). subst (λ x. ¬ In x (map (λ (s : Stage). s.name) stages)) e d.0,
)

external_names_iff :
    (seen ns : List String) (x : String)
    → In x (external_names seen ns) ↔ (In x seen ⊎ In x ns × (x ≢ reserved))
unfolding external_names
external_names_iff seen [] x = ground arith
external_names_iff seen (n ∷ ns) x = ground (
  arith,
  external_names_iff seen ns x,
  external_names_iff (set_add seen n) ns x,
  set_add_iff seen n x,
  eq_iff n reserved,
)

-- An external source is an external input whose name is not reserved. Another is a declared output,
-- or the feedback of a gate.
abbrev pub IsSource : Pipeline → WireSource → Type 0
IsSource ir (external p) = In p (port_names (inputs_of ir)) × (p ≢ reserved)
IsSource ir (stage a p) =
    Declares out_side ir.stages a p ⊎ (p ≡ "__gate_feedback__") × IsGate ir.stages a

source_diagnostics_silent :
    (ir : Pipeline) (src : WireSource)
    → Distinct (stage_names ir)
    → (source_diagnostics ir src ≡ []) ↔ IsSource ir src
unfolding source_diagnostics map_get
source_diagnostics_silent ir (external p) d = ground (
  arith,
  external_names_iff [] (port_names (inputs_of ir)) p,
  includes_iff (external_names [] (port_names (inputs_of ir))) p,
)
source_diagnostics_silent ir (stage a p) d = ground (
  arith,
  stage_types-is_gate_type [] ir.stages a d,
  has_port_iff ir.stages out_side a p,
  has_port_iff ir.stages in_side a p,
  eq_iff p "__gate_feedback__",
)

target_silent :
    (ir : Pipeline) (t : WireTarget)
    → (target_diagnostics ir t ≡ []) ↔ Declares in_side ir.stages t.stage t.port
unfolding target_diagnostics
target_silent ir t = ground (
  arith,
  has_port_iff ir.stages out_side t.stage t.port,
  has_port_iff ir.stages in_side t.stage t.port,
)

same_target_iff :
    (t : WireTarget) (ts : List WireTarget) → (any (same_target t) ts ≡ true) ↔ In t ts
same_target_iff t [] = ground arith
same_target_iff t (u ∷ ts) =
    ground (arith, same_target_iff t ts, eq_iff t.stage u.stage, eq_iff t.port u.port)

abbrev targets : List Wire → List WireTarget
targets = map (λ (w : Wire). w.to)

wires_silent :
    (ir : Pipeline) (driven : List WireTarget) (ws : List Wire)
    → Distinct (stage_names ir)
    → (wire_diagnostics ir driven ws ≡ []) ↔ (
        All (λ (w : Wire). IsSource ir w.from × Declares in_side ir.stages w.to.stage w.to.port) ws
        × Distinct (targets ws)
        × ((t : WireTarget) → In t (targets ws) → ¬ In t driven))
unfolding wire_diagnostics
wires_silent ir driven [] d = ((λ e. (tt, tt, λ t m. absurd m)), λ h. refl)
wires_silent ir driven (w ∷ ws) d =
    let ih = wires_silent ir (w.to ∷ driven) ws d in
    let source = source_diagnostics_silent ir w.from d in
    let target = target_silent ir w.to in
    let driver = report_silent (any (same_target w.to) driven) (wire_target_already_driven w.to) in
    let first =
      append3_silent (source_diagnostics ir w.from ++ target_diagnostics ir w.to)
        (report (any (same_target w.to) driven) (wire_target_already_driven w.to))
        (wire_diagnostics ir (w.to ∷ driven) ws) in
    let second = append_silent (source_diagnostics ir w.from) (target_diagnostics ir w.to) in
    (
      (λ p.
          let (q, c, e) = first.0 p in
          let (a, b) = second.0 q in
          let (ok, once, apart) = ih.0 e in
          (
            ((source.0 a, target.0 b), ok),
            ((λ m. apart w.to m (inl refl)), once),
            λ t m o. elim m [
              | inl same ↦ ground (
                arith,
                driver.0 c,
                same_target_iff w.to driven,
                subst (λ u. In u driven) (sym same) o,
              )
              | inr m' ↦ apart t m' (inr o)
            ],
          )),
      λ h.
          let (ok, once, apart) = h in
          first.1 (
            second.1 (source.1 ok.0.0, target.1 ok.0.1),
            driver.1 (ground (arith, same_target_iff w.to driven, apart w.to (inl refl))),
            ih.1 (
              ok.1,
              once.1,
              λ t m o. elim o [
                | inl same ↦ once.0 (subst (λ u. In u (targets ws)) (sym same) m)
                | inr o' ↦ apart t (inr m) o'
              ],
            ),
          ),
    )

-- Every wire reads a source that is there, leads to a declared input, and shares it with no other.
abbrev pub WiresOk : Pipeline → Type 0
WiresOk ir =
    All (λ (w : Wire). IsSource ir w.from × Declares in_side ir.stages w.to.stage w.to.port)
      ir.wires
    × Distinct (targets ir.wires)

-- For a pipeline whose stage names are distinct, the rules on wires give no diagnostic exactly
-- where every wire reads an external input of no reserved name, a declared output or the feedback
-- of a gate, leads to a declared input, and no two wires lead to one input.
pub wire_diagnostics_correct :
    (ir : Pipeline)
    → Distinct (stage_names ir)
    → (wire_diagnostics ir [] ir.wires ≡ []) ↔ WiresOk ir
wire_diagnostics_correct ir d =
    let h = wires_silent ir [] ir.wires d in
    ((λ p. ((h.0 p).0, (h.0 p).1)), λ q. h.1 (q.0, q.1, λ t m o. o))
