-- ===== src/Segments/Plan.antt =====
-- What the planner returns.
use workflow_control.Prelude.{
  String, some, List, [], ◌∷◌, map, foldl, ◌≡◌, refl, ap, ◌↔◌, inl, inr, In, All, Distinct, map_get,
  Bool-cases, arith,
}
use workflow_control.Ir.{Pipeline, Stage}
use workflow_control.Segments.{
  stage_names, stage_by_name, upstream_agents, Walk, visit_stage, is_single, plan_segments,
}
use workflow_control.Segments.Topo.{topological_stage_order_complete}
use workflow_control.Segments.Chain.{flat, IsChain}
use workflow_control.Segments.Visits.{Joined, IsWalked, walk-IsWalked}

-- A stage alone in each segment.
flat-alone :
    (stages : List Stage)
    → flat (map (λ (s : Stage). s.name ∷ []) stages) ≡ map (λ (s : Stage). s.name) stages
flat-alone [] = refl
flat-alone (s ∷ stages) = ap (◌∷◌ s.name) (flat-alone stages)

All-alone :
    (ir : Pipeline) (c : List String) (stages : List Stage)
    → All (IsChain (Joined ir) c) (map (λ (s : Stage). s.name ∷ []) stages)
All-alone ir c [] = tt
All-alone ir c (s ∷ stages) = (tt, All-alone ir c stages)

-- Each stage of a segment but the first continues the session of the stage before it; no segment
-- is empty.
abbrev pub IsSession : Pipeline → List String → Type 0
IsSession ir [] = ⊥
IsSession ir (x ∷ []) = Unit
IsSession ir (x ∷ y ∷ rest) = Joined ir x y × IsSession ir (y ∷ rest)

IsChain-IsSession :
    (ir : Pipeline) (c seg : List String) → IsChain (Joined ir) c seg → IsSession ir seg
IsChain-IsSession ir c [] h = h
IsChain-IsSession ir c (x ∷ []) h = h
IsChain-IsSession ir c (x ∷ y ∷ rest) h = (h.0, IsChain-IsSession ir c (y ∷ rest) h.2)

All-IsSession :
    (ir : Pipeline) (c : List String) (segs : List (List String))
    → All (IsChain (Joined ir) c) segs
    → All (IsSession ir) segs
All-IsSession ir c [] h = tt
All-IsSession ir c (seg ∷ segs) h = (IsChain-IsSession ir c seg h.0, All-IsSession ir c segs h.1)

abbrev start : Walk
start = record { segments = []; segment_of = []; consumed = [] }

nothing : (ir : Pipeline) (d : Distinct (stage_names ir)) → IsWalked ir d [] start
unfolding map_get
nothing ir d = record {
  mem = λ x. ((λ m. m), λ m. m);
  distinct = tt;
  holds = λ x i e. absurd (ground arith);
  chains = tt;
}

-- For a pipeline whose stage names are distinct, in both session modes, the planner returns
-- segments that hold every stage exactly once, none of them empty, and in each of which every
-- stage but the first is an agent without fanout that a wire leads to from the stage before it,
-- itself an agent without fanout and the only one that feeds it.
pub plan_segments_correct :
    (ir : Pipeline)
    → Distinct (stage_names ir)
    → (segs : List (List String)) × (plan_segments ir ≡ some segs)
      × Distinct (flat segs)
      × ((x : String) → In x (flat segs) ↔ In x (stage_names ir))
      × All (IsSession ir) segs
unfolding plan_segments
plan_segments_correct ir d = elim (Bool-cases (is_single ir.session_mode)) [
  | inr multi' ↦ rw multi' (
    map (λ (s : Stage). s.name ∷ []) ir.stages,
    refl,
    rw (flat-alone ir.stages) d,
    λ x. rw (flat-alone ir.stages) ((λ m. m), λ m. m),
    All-IsSession ir [] _ (All-alone ir [] ir.stages),
  )
  | inl single' ↦
      let (order, e, once, listed) = topological_stage_order_complete ir d in
      let walked = walk-IsWalked ir d [] order start (nothing ir d) once (λ x m. (listed x).0 m) in
      rw (single', e)
        (
          (foldl (visit_stage (stage_by_name ir.stages) (upstream_agents ir)) start order).segments,
          refl,
          walked.distinct,
          λ x. ((λ m. (listed x).0 ((walked.mem x).0 m)), λ m. (walked.mem x).1 ((listed x).1 m)),
          All-IsSession ir _ _ walked.chains,
        )
]
