-- ===== src/Segments.antt =====
-- Segments of stages that share one session:
-- apps/server/src/kernel-next/runtime/segment-planner.ts.
pub mod Links
pub mod Topo
pub mod Upstream
pub mod Chain
pub mod Visits
pub mod Plan
mod Samples
use workflow_control.Prelude.{
  String, ℕ, zero, suc, ◌+◌, Option, none, some, is_some, Bool, true, false, not, ◌&&◌, List, [],
  ◌∷◌, ◌++◌, map, foldl, ◌==◌, includes, length, keep, ltb, nat_eq, map_get, map_set, map_has,
  set_add, if◌then◌else◌,
}
use workflow_control.Ir.{Pipeline, Stage, agent, Wire, SessionMode, multi, single}
use workflow_control.Ir.Wires.{wire_from_stage}
use workflow_control.Kahn.{degree, run}

abbrev pub stage_names : Pipeline → List String
stage_names ir = map (λ (s : Stage). s.name) ir.stages

-- adjacency.get(name) ?? []
abbrev pub or_empty : Option (List String) → List String
or_empty none = []
or_empty (some xs) = xs

pub record Graph : Type 0 where
  pub in_degree : List (String × ℕ)
  pub adjacency : List (String × List String)

unfoldable pub successors : Graph → String → List String
successors g n = or_empty (map_get g.adjacency n)

-- The loop over the stages: each has no edge yet.
unfoldable pub add_node : Graph → String → Graph
add_node g n = record { in_degree = map_set g.in_degree n 0; adjacency = map_set g.adjacency n [] }

-- The body of the loop over the wires.
unfoldable pub link_edge : Graph → (from to : String) → Graph
unfolding successors
link_edge g from to =
    if not (map_has g.in_degree from && map_has g.in_degree to)
    then g
    else if from == to
    then g
    else if includes (successors g from) to
    then g
    else record {
      in_degree = map_set g.in_degree to (degree g.in_degree to + 1);
      adjacency = map_set g.adjacency from (successors g from ++ to ∷ []);
    }

unfoldable pub link_wire : Graph → Wire → Graph
unfolding link_edge
link_wire g w = elim (wire_from_stage w) [ none ↦ g | some from ↦ link_edge g from w.to.stage ]

unfoldable pub stage_graph : Pipeline → Graph
unfolding add_node link_wire
stage_graph ir =
    foldl link_wire (foldl add_node (record { in_degree = []; adjacency = [] }) (stage_names ir))
      ir.wires

abbrev pub push : List String → String → List String
push queue n = queue ++ n ∷ []

abbrev pub ready_stages : Pipeline → Graph → List String
ready_stages ir g = keep (λ n. nat_eq (degree g.in_degree n) 0) (stage_names ir)

-- The stages that the loop did not list are appended in the order of the file.
unfoldable pub append_missing : Pipeline → List String → List String
append_missing ir out =
    if ltb (length out) (length ir.stages)
    then out ++ keep (λ n. not (includes out n)) (stage_names ir)
    else out

unfoldable pub topological_stage_order : Pipeline → Option (List String)
unfolding stage_graph append_missing
topological_stage_order ir =
    let g = stage_graph ir in
    elim (run (successors g) push (length ir.stages)
      (record { degrees = g.in_degree; queue = ready_stages ir g; out = [] })) [
        | none ↦ none
        | some out ↦ some (append_missing ir out)
      ]

-- An agent stage without fanout.
unfoldable pub is_plain_agent : Stage → Bool
is_plain_agent s = elim s.config [ agent c ↦ not (is_some s.fanout) | _ ↦ false ]

-- new Map(ir.stages.map((s) => [s.name, s]))
unfoldable pub stage_by_name : List Stage → List (String × Stage)
stage_by_name = foldl (λ m s. map_set m s.name s) []

-- The body of the loop that collects the plain agent stages upstream of each stage.
unfoldable pub note_agent :
    List (String × Stage)
    → List (String × List String)
    → (from to : String) → List (String × List String)
unfolding is_plain_agent
note_agent by_name ups from to = elim (map_get by_name from) [
  | none ↦ ups
  | some upstream ↦ if not (is_plain_agent upstream) then ups else elim (map_get ups to) [
    | none ↦ ups
    | some list ↦ if includes list from then ups else map_set ups to (list ++ from ∷ [])
  ]
]

unfoldable pub note_upstream :
    List (String × Stage) → List (String × List String) → Wire → List (String × List String)
unfolding note_agent
note_upstream by_name ups w = elim (wire_from_stage w) [
  | none ↦ ups
  | some from ↦ note_agent by_name ups from w.to.stage
]

unfoldable pub upstream_agents : Pipeline → List (String × List String)
unfolding note_upstream stage_by_name
upstream_agents ir =
    foldl (note_upstream (stage_by_name ir.stages))
      (foldl (λ m n. map_set m n []) [] (stage_names ir)) ir.wires

pub record Walk : Type 0 where
  pub segments : List (List String)
  pub segment_of : List (String × ℕ)
  pub consumed : List String

-- segments[i].push(n)
unfoldable pub push_at : List (List String) → ℕ → String → List (List String)
push_at [] i n = []
push_at (seg ∷ segs) zero n = (seg ++ n ∷ []) ∷ segs
push_at (seg ∷ segs) (suc i) n = seg ∷ push_at segs i n

-- ups.length === 1 ? ups[0] : null
abbrev pub sole : List String → Option String
sole [] = none
sole (u ∷ []) = some u
sole (u ∷ v ∷ us) = none

unfoldable pub open_segment : Walk → String → Walk
open_segment st n = record st {
  segments = st.segments ++ (n ∷ []) ∷ [];
  segment_of = map_set st.segment_of n (length st.segments);
}

unfoldable pub extend_segment : Walk → (i : ℕ) (upstream n : String) → Walk
unfolding push_at
extend_segment st i upstream n = record {
  segments = push_at st.segments i n;
  segment_of = map_set st.segment_of n i;
  consumed = set_add st.consumed upstream;
}

-- The segment that the stage continues, with the stage that it continues from.
unfoldable pub continues : List (String × List String) → Walk → Stage → Option (ℕ × String)
unfolding is_plain_agent
continues ups st s =
    if is_plain_agent s
    then elim (sole (or_empty (map_get ups s.name))) [
      | none ↦ none
      | some u ↦ elim (map_get st.segment_of u) [
        | none ↦ none
        | some i ↦ if includes st.consumed u then none else some (i, u)
      ]
    ]
    else none

-- The body of the loop over the stages in topological order.
unfoldable pub visit_stage :
    List (String × Stage) → List (String × List String) → Walk → String → Walk
unfolding continues open_segment extend_segment
visit_stage by_name ups st n = elim (map_get by_name n) [
  | none ↦ st
  | some s ↦ elim (continues ups st s) [
    | none ↦ open_segment st s.name
    | some (i, u) ↦ extend_segment st i u s.name
  ]
]

abbrev pub is_single : Option SessionMode → Bool
is_single (some single) = true
is_single (some multi) = false
is_single none = false

unfoldable pub plan_segments : Pipeline → Option (List (List String))
plan_segments ir =
    if is_single ir.session_mode
    then elim (topological_stage_order ir) [
      | none ↦ none
      | some order ↦
          some
            (foldl (visit_stage (stage_by_name ir.stages) (upstream_agents ir))
              (record { segments = []; segment_of = []; consumed = [] }) order).segments
    ]
    else some (map (λ (s : Stage). s.name ∷ []) ir.stages)
