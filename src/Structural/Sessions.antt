-- ===== src/Structural/Sessions.antt =====
-- The rules on `cross_segment_resume_from`: the stage that is resumed is an agent stage upstream, in
-- another segment, of a pipeline in single-session mode. A stage is expanded once and puts into the
-- queue at most one entry for each wire into it, so with the entries of the start two rounds for
-- each wire are given; `none` means that this or the planner's fuel ran out.
pub mod Rounds
pub mod Weights
use workflow_control.Prelude.{
  String, ℕ, zero, suc, ◌+◌, Option, none, some, Bool, true, false, not, List, [], ◌∷◌, ◌++◌, foldl,
  includes, length, nat_eq, map_get, map_set, if◌then◌else◌,
}
use workflow_control.Ir.{Pipeline, Stage, Wire, StageConfig, agent, script, gate}
use workflow_control.Ir.Wires.{wire_from_stage}
use workflow_control.Reach.{Search}
use workflow_control.Segments.{or_empty, stage_names, is_single, plan_segments}
use workflow_control.Structural.{
  Diagnostic, cross_segment_requires_single, cross_segment_target_not_found,
  cross_segment_target_not_agent, cross_segment_target_not_reachable,
  cross_segment_target_same_segment,
}
use workflow_control.Structural.Ancestors.{join}
use workflow_control.Structural.Wiring.{stage_types}
use workflow_control.Structural.{StageType, agent_type, script_type, gate_type}

abbrev resumed : StageConfig → Option String
resumed (agent c) = c.cross_segment_resume_from
resumed (script c) = none
resumed (gate c) = none

-- stagesWithCrossSegField: a stage and the one it resumes.
unfoldable pub resuming_stages : List Stage → List (String × String)
resuming_stages [] = []
resuming_stages (s ∷ stages) =
    let rest = resuming_stages stages in
    elim (resumed s.config) [ none ↦ rest | some target ↦ (s.name, target) ∷ rest ]

unfoldable pub note_feed : List (String × List String) → Wire → List (String × List String)
note_feed ups w = elim (wire_from_stage w) [
  | none ↦ ups
  | some from ↦ elim (map_get ups w.to.stage) [
    | none ↦ ups
    | some list ↦ if includes list from then ups else map_set ups w.to.stage (list ++ from ∷ [])
  ]
]

unfoldable pub wire_upstream : Pipeline → List (String × List String)
unfolding note_feed
wire_upstream ir = foldl note_feed (foldl (λ m n. map_set m n []) [] (stage_names ir)) ir.wires

-- The loop up the wires from a stage.
unfoldable pub climb : List (String × List String) → ℕ → Search → Option (List String)
climb ups zero s = elim s.queue [ [] ↦ some s.visited | _ ∷ _ ↦ none ]
climb ups (suc fuel) s = elim s.queue [
  | [] ↦ some s.visited
  | cur ∷ rest ↦ climb ups fuel (
      if includes s.visited cur
      then record s { queue = rest }
      else record { visited = s.visited ++ cur ∷ []; queue = rest ++ or_empty (map_get ups cur) })
]

-- segmentOf.get(name): the last segment that holds the name.
unfoldable pub segment_index : List (List String) → ℕ → String → Option ℕ
segment_index [] i n = none
segment_index (seg ∷ segs) i n = elim (segment_index segs (suc i) n) [
  | none ↦ if includes seg n then some i else none
  | some j ↦ some j
]

abbrev pub same_index : Option ℕ → Option ℕ → Bool
same_index none none = true
same_index none (some j) = false
same_index (some i) none = false
same_index (some i) (some j) = nat_eq i j

abbrev pub is_agent : Option StageType → Bool
is_agent none = false
is_agent (some agent_type) = true
is_agent (some script_type) = false
is_agent (some gate_type) = false

-- The checks of one stage; each that fails ends them.
unfoldable pub check_resume :
    Pipeline → List (List String) → (stage target : String) → Option (List Diagnostic)
check_resume ir segments stage target =
    if not (includes (stage_names ir) target)
    then some (cross_segment_target_not_found stage target ∷ [])
    else if not (is_agent (map_get (stage_types [] ir.stages) target))
    then some (
        cross_segment_target_not_agent stage target (map_get (stage_types [] ir.stages) target)
        ∷ [])
    else elim (climb (wire_upstream ir) (length ir.wires + length ir.wires)
        (record { visited = []; queue = or_empty (map_get (wire_upstream ir) stage) })) [
          | none ↦ none
          | some reachable ↦
              if not (includes reachable target)
              then some (cross_segment_target_not_reachable stage target ∷ [])
              else if same_index (segment_index segments 0 stage) (segment_index segments 0 target)
              then some (cross_segment_target_same_segment stage target ∷ [])
              else some []
        ]

abbrev pub require_single : List (String × String) → List Diagnostic
require_single [] = []
require_single ((stage, target) ∷ rest) = cross_segment_requires_single stage ∷ require_single rest

abbrev pub check_all :
    Pipeline → List (List String) → List (String × String) → Option (List Diagnostic)
check_all ir segments [] = some []
check_all ir segments ((stage, target) ∷ rest) =
    join (check_resume ir segments stage target) (check_all ir segments rest)

abbrev pub checked :
    Pipeline → List (String × String) → Option (List (List String)) → Option (List Diagnostic)
checked ir resuming none = none
checked ir resuming (some segments) = check_all ir segments resuming

unfoldable pub session_diagnostics : Pipeline → Option (List Diagnostic)
session_diagnostics ir =
    let resuming = resuming_stages ir.stages in
    if nat_eq (length resuming) 0
    then some []
    else if is_single ir.session_mode
    then checked ir resuming (plan_segments ir)
    else some (require_single resuming)
