-- ===== src/Structural/Sessions/Rounds.antt =====
-- The rounds of the climb up the wires.
use workflow_control.Prelude.{
  String, ℕ, zero, suc, ◌+◌, ◌≤◌, Option, some, List, [], ◌∷◌, ◌++◌, ◌≡◌, refl, ap, inl, inr,
  includes, length, length-append, nat_eq, Distinct, map_get, Bool-cases, List-cases, arith,
}
use workflow_control.Ir.{Pipeline}
use workflow_control.Reach.{Search}
use workflow_control.Segments.{stage_names, is_single}
use workflow_control.Segments.Plan.{plan_segments_correct}
use workflow_control.Structural.{
  Diagnostic, cross_segment_target_not_found, cross_segment_target_not_agent,
  cross_segment_target_not_reachable, cross_segment_target_same_segment,
}
use workflow_control.Structural.Wiring.{stage_types}
use workflow_control.Structural.Sessions.{
  resuming_stages, wire_upstream, climb, segment_index, same_index, is_agent, check_resume,
  require_single, check_all, session_diagnostics,
}
use workflow_control.Structural.Sessions.Weights.{
  weight, feeds, weight-visit, weight-total, feeds-total, total-wire_upstream,
}

climb_ends :
    (ups : List (String × List String)) (fuel : ℕ) (s : Search)
    → length s.queue + weight s.visited ups ≤ fuel
    → (r : List String) × (climb ups fuel s ≡ some r)
unfolding climb
climb_ends ups zero s le = elim (List-cases s.queue) [
  | inl e ↦ (s.visited, rw (e, climb) refl)
  | inr (cur, rest, e) ↦ absurd (omega (arith, ap length e))
]
climb_ends ups (suc fuel) s le = elim (List-cases s.queue) [
  | inl e ↦ (s.visited, rw (e, climb) refl)
  | inr (cur, rest, e) ↦ elim (Bool-cases (includes s.visited cur)) [
    | inl t ↦
        rw (e, climb, t)
          (climb_ends ups fuel (record s { queue = rest }) (omega (arith, ap length e)))
    | inr f ↦
        rw (e, climb, f)
          (climb_ends ups fuel
            (record { visited = s.visited ++ cur ∷ []; queue = rest ++ feeds ups cur })
            (omega (
              arith,
              ap length e,
              weight-visit s.visited cur ups f,
              length-append rest (feeds ups cur),
            )))
  ]
]

Returns : Option (List Diagnostic) → Type 0
Returns o = (ds : List Diagnostic) × (o ≡ some ds)

check_resume-Returns :
    (ir : Pipeline) (segments : List (List String)) (stage target : String)
    → Returns (check_resume ir segments stage target)
unfolding check_resume Returns
check_resume-Returns ir segments stage target =
    elim (Bool-cases (includes (stage_names ir) target)) [
      | inr e ↦ (cross_segment_target_not_found stage target ∷ [], rw e refl)
      | inl e ↦ elim (Bool-cases (is_agent (map_get (stage_types [] ir.stages) target))) [
        | inr f ↦ (
          cross_segment_target_not_agent stage target (map_get (stage_types [] ir.stages) target)
              ∷ [],
          rw (e, f) refl,
        )
        | inl f ↦
            let ups = wire_upstream ir in
            let (r, g) =
              climb_ends ups (length ir.wires + length ir.wires)
                (record { visited = []; queue = feeds ups stage })
                (omega (arith, weight-total ups, feeds-total ups stage, total-wire_upstream ir)) in
            elim (Bool-cases (includes r target)) [
              | inr h ↦ (cross_segment_target_not_reachable stage target ∷ [], rw (e, f, g, h) refl)
              | inl h ↦
                  elim (Bool-cases (
                    same_index (segment_index segments 0 stage)
                      (segment_index segments 0 target))) [
                        | inl i ↦ (
                          cross_segment_target_same_segment stage target ∷ [],
                          rw (e, f, g, h, i) refl,
                        )
                        | inr i ↦ ([], rw (e, f, g, h, i) refl)
                      ]
            ]
      ]
    ]

check_all-Returns :
    (ir : Pipeline) (segments : List (List String)) (resuming : List (String × String))
    → Returns (check_all ir segments resuming)
unfolding Returns
check_all-Returns ir segments [] = ([], refl)
check_all-Returns ir segments ((stage, target) ∷ rest) =
    let (xs, e) = check_resume-Returns ir segments stage target in
    let (ys, f) = check_all-Returns ir segments rest in (xs ++ ys, rw (e, f) refl)

-- For a pipeline whose stage names are distinct, the rules on cross-segment resumption return
-- their diagnostics: neither the climb up the wires nor the planner runs on.
pub session_diagnostics_returns :
    (ir : Pipeline)
    → Distinct (stage_names ir)
    → (ds : List Diagnostic) × (session_diagnostics ir ≡ some ds)
unfolding session_diagnostics Returns
session_diagnostics_returns ir d =
    let resuming = resuming_stages ir.stages in
    elim (Bool-cases (nat_eq (length resuming) 0)) [
      | inl e ↦ ([], rw e refl)
      | inr e ↦ elim (Bool-cases (is_single ir.session_mode)) [
        | inr f ↦ (require_single resuming, rw (e, f) refl)
        | inl f ↦
            let (segments, g, _, _, _) = plan_segments_correct ir d in
            let (ds, h) = check_all-Returns ir segments resuming in (ds, rw (e, f, g) h)
      ]
    ]
