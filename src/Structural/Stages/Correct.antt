-- ===== src/Structural/Stages/Correct.antt =====
-- What the stages of a pipeline are like on which there is no diagnostic.
use workflow_control.Prelude.{
  String, Option, none, some, is_some, true, List, [], ◌∷◌, ◌≡◌, refl, subst, ◌↔◌, ◌⊎◌, inl, inr,
  eq_iff, includes, includes_iff, any, In, All, Bool-cases, Option-cases, arith,
}
use workflow_control.Ir.{
  Stage, Wire, StageConfig, agent, script, gate, registry, inline, RouteTarget, FanoutSpec,
}
use workflow_control.Structural.{report, gate_fanout_forbidden, gate_output_reserved}
use workflow_control.Structural.Silence.{append_silent, append3_silent, report_silent}
use workflow_control.Structural.Names.{port_names}
use workflow_control.Structural.Stages.{
  targets_of, missing_targets, missing_routes, gate_diagnostics, delivers, fanout_diagnostics,
  module_diagnostics, gate_part, script_part, stage_diagnostics, type_diagnostics,
}

targets_silent :
    (names : List String) (stage answer : String) (ts : List String)
    → (missing_targets names stage answer ts ≡ []) ↔ ((t : String) → In t ts → In t names)
unfolding missing_targets
targets_silent names stage answer [] = ((λ e t m. absurd m), λ h. refl)
targets_silent names stage answer (t ∷ ts) =
    let ih = targets_silent names stage answer ts in
    elim (Bool-cases (includes names t)) [
      | inl e ↦
          rw (e, missing_targets)
            (
              (λ p x m. elim m [
                | inl same ↦ subst (λ y. In y names) same ((includes_iff names t).0 e)
                | inr m' ↦ ih.0 p x m'
              ]),
              λ h. ih.1 (λ x m. h x (inr m)),
            )
      | inr e ↦
          rw (e, missing_targets)
            ((λ p. cc), λ h. absurd (ground (arith, includes_iff names t, h t (inl refl))))
    ]

abbrev pub RoutesOk : List String → List (String × RouteTarget) → Type 0
RoutesOk names [] = Unit
RoutesOk names ((answer, target) ∷ routes) =
    ((t : String) → In t (targets_of target) → In t names) × RoutesOk names routes

routes_silent :
    (names : List String) (stage : String) (routes : List (String × RouteTarget))
    → (missing_routes names stage routes ≡ []) ↔ RoutesOk names routes
unfolding missing_routes
routes_silent names stage [] = ground arith
routes_silent names stage ((answer, target) ∷ routes) =
    let ih = routes_silent names stage routes in
    let first = targets_silent names stage answer (targets_of target) in
    let both =
      append_silent (missing_targets names stage answer (targets_of target))
        (missing_routes names stage routes) in
    ((λ p. let (a, b) = both.0 p in (first.0 a, ih.0 b)), λ h. both.1 (first.1 h.0, ih.1 h.1))

-- A gate has no fanout and declares no output for its feedback; all its targets are stages.
abbrev pub GateOk : List String → Stage → StageConfig → Type 0
GateOk names s (agent c) = Unit
GateOk names s (script c) = Unit
GateOk names s (gate c) =
    (s.fanout ≡ none)
    × ¬ In "__gate_feedback__" (port_names s.outputs)
    × RoutesOk names c.routing.routes

gate_silent :
    (names : List String) (s : Stage) (c : StageConfig)
    → (gate_part names s c ≡ []) ↔ GateOk names s c
unfolding gate_diagnostics
gate_silent names s (agent c) = ground arith
gate_silent names s (script c) = ground arith
gate_silent names s (gate c) = ground (
  arith,
  append3_silent (report (is_some s.fanout) (gate_fanout_forbidden s.name))
      (report (includes (port_names s.outputs) "__gate_feedback__") (gate_output_reserved s.name))
      (missing_routes names s.name c.routing.routes),
  report_silent (is_some s.fanout) (gate_fanout_forbidden s.name),
  report_silent (includes (port_names s.outputs) "__gate_feedback__") (gate_output_reserved s.name),
  routes_silent names s.name c.routing.routes,
  includes_iff (port_names s.outputs) "__gate_feedback__",
)

-- Some wire leads to the port.
abbrev pub IsWired : List Wire → (stage port : String) → Type 0
IsWired [] a p = ⊥
IsWired (w ∷ ws) a p = ((w.to.stage ≡ a) × (w.to.port ≡ p)) ⊎ IsWired ws a p

delivers_iff : (a p : String) (ws : List Wire) → (any (delivers a p) ws ≡ true) ↔ IsWired ws a p
delivers_iff a p [] = ground arith
delivers_iff a p (w ∷ ws) =
    ground (arith, delivers_iff a p ws, eq_iff w.to.stage a, eq_iff w.to.port p)

-- A fanout is over an input of the stage that a wire leads to.
abbrev pub FanoutOk : List Wire → Stage → Option FanoutSpec → Type 0
FanoutOk wires s none = Unit
FanoutOk wires s (some f) = In f.input (port_names s.inputs) × IsWired wires s.name f.input

fanout_silent :
    (wires : List Wire) (s : Stage) → (fanout_diagnostics wires s ≡ []) ↔ FanoutOk wires s s.fanout
unfolding fanout_diagnostics
fanout_silent wires s = elim (Option-cases s.fanout) [
  | inl e ↦ rw (e, fanout_diagnostics) ((λ p. tt), λ h. refl)
  | inr (f, e) ↦
      rw (e, fanout_diagnostics)
        (ground
          (arith, includes_iff (port_names s.inputs) f.input, delivers_iff s.name f.input wires))
]

-- A script of the registry is registered, where the registry is known.
abbrev pub ModuleOk : Option (List String) → StageConfig → Type 0
ModuleOk none c = Unit
ModuleOk (some ids) (agent c) = Unit
ModuleOk (some ids) (gate c) = Unit
ModuleOk (some ids) (script (inline source samples retry)) = Unit
ModuleOk (some ids) (script (registry id retry)) = In id ids

script_silent :
    (allowed : Option (List String)) (stage : String) (c : StageConfig)
    → (script_part allowed stage c ≡ []) ↔ ModuleOk allowed c
unfolding module_diagnostics
script_silent none stage (agent c) = ground arith
script_silent none stage (gate c) = ground arith
script_silent none stage (script c) = ground arith
script_silent (some ids) stage (agent c) = ground arith
script_silent (some ids) stage (gate c) = ground arith
script_silent (some ids) stage (script (inline source samples retry)) = ground arith
script_silent (some ids) stage (script (registry id retry)) = ground (arith, includes_iff ids id)

abbrev pub StageOk : Option (List String) → List String → List Wire → Stage → Type 0
StageOk allowed names wires s =
    GateOk names s s.config × FanoutOk wires s s.fanout × ModuleOk allowed s.config

-- The rules on the stages by their type give no diagnostic exactly where every gate has no fanout,
-- declares no output for its feedback and routes to declared stages only, every fanout is over an
-- input of its stage that a wire leads to, and every script of the registry is registered, where
-- the registry is given.
pub type_diagnostics_correct :
    (allowed : Option (List String)) (names : List String) (wires : List Wire) (stages : List Stage)
    → (type_diagnostics allowed names wires stages ≡ []) ↔ All (StageOk allowed names wires) stages
unfolding type_diagnostics stage_diagnostics
type_diagnostics_correct allowed names wires [] = ((λ e. tt), λ h. refl)
type_diagnostics_correct allowed names wires (s ∷ stages) =
    let ih = type_diagnostics_correct allowed names wires stages in
    let gate' = gate_silent names s s.config in
    let fanout' = fanout_silent wires s in
    let script' = script_silent allowed s.name s.config in
    let both =
      append_silent (stage_diagnostics allowed names wires s)
        (type_diagnostics allowed names wires stages) in
    let parts =
      append3_silent (gate_part names s s.config) (fanout_diagnostics wires s)
        (script_part allowed s.name s.config) in
    (
      (λ p.
          let (here, rest) = both.0 p in
          let (a, b, c) = parts.0 here in ((gate'.0 a, fanout'.0 b, script'.0 c), ih.0 rest)),
      λ h. both.1 (parts.1 (gate'.1 h.0.0, fanout'.1 h.0.1, script'.1 h.0.2), ih.1 h.1),
    )
