-- ===== src/Rebuild/Correct.antt =====
-- What a reset leaves of a run, and what the machine does from there.
use workflow_control.Prelude.{
  String, Option, none, some, Bool, true, false, not, ◌&&◌, ◌||◌, List, [], ◌∷◌, ◌≡◌, refl, ap, ◌∙◌,
  inl, inr, ◌==◌, eq_iff, any, keep, includes, includes_iff, In, map_get, map_set, map_get-map_set,
  Bool-cases, arith, if◌then◌else◌,
}
use workflow_control.Ir.{Pipeline, Stage}
use workflow_control.Machine.{is_outcome, was_finalized, retry_count}
use workflow_control.Machine.Context.{
  MachineContext, FinalizedStage, Region, waiting, Outcome, outcome_done, outcome_error,
}
use workflow_control.Machine.Waiting.{react_always, waiting_always, waiting_written}
use workflow_control.Compile.{port_key}
use workflow_control.Compile.Build.{CompileOptions, InitialContext, first_context}
use workflow_control.Rebuild.{
  keeps_value, is_gate_stage, reseed, reopened, finals_without, names_without, rollback_rebuild,
}

pub finals_lem :
    (gone : List String) (l : List FinalizedStage) (n : String) (o : Outcome)
    → any (λ (f : FinalizedStage). f.name == n && is_outcome f.outcome o) (finals_without gone l)
      ≡ (not (includes gone n)
          && any (λ (f : FinalizedStage). f.name == n && is_outcome f.outcome o) l)
finals_lem gone [] n o = ground arith
finals_lem gone (f ∷ l) n o =
    ground (arith, finals_lem gone l n o, eq_iff f.name n, ap (λ (x : String). includes gone x))

names_lem :
    (gone l : List String) (n : String)
    → includes (names_without gone l) n ≡ (not (includes gone n) && includes l n)
unfolding includes
names_lem gone [] n = ground arith
names_lem gone (x ∷ l) n =
    ground (arith, names_lem gone l n, eq_iff x n, ap (λ (y : String). includes gone y))

keep_get :
    {V : Type 0} (p : String → Bool) (m : List (String × V)) (k : String)
    → map_get (keep (λ (e : String × V). p e.0) m) k ≡ (if p k then map_get m k else none)
unfolding map_get
keep_get p [] k = ground arith
keep_get p ((j, v) ∷ m) k = ground (arith, keep_get p m k, eq_iff j k, ap p)

-- A gate that the test holds of has this key for its feedback.
abbrev pub is_reseeded : (Stage → Bool) → List Stage → (key : String) → Bool
is_reseeded wanted stages k =
    any (λ (s : Stage). is_gate_stage s && wanted s && port_key s.name "__gate_feedback__" == k)
      stages

reseed_lem :
    (wanted : Stage → Bool) (values : List (String × String)) (stages : List Stage) (k : String)
    → map_get (reseed wanted values stages) k
      ≡ (if is_reseeded wanted stages k then some "\"\"" else map_get values k)
unfolding reseed
reseed_lem wanted values [] k = ground arith
reseed_lem wanted values (s ∷ stages) k = elim (Bool-cases (is_gate_stage s && wanted s)) [
  | inl t ↦ rw t (
      reseed_lem wanted (map_set values (port_key s.name "__gate_feedback__") "\"\"") stages k
      ∙ joined (port_key s.name "__gate_feedback__" == k) (is_reseeded wanted stages k) _ _
          (map_get-map_set values (port_key s.name "__gate_feedback__") k "\"\""))
  | inr t ↦ rw t (reseed_lem wanted values stages k)
]
  where
    joined :
        (a b : Bool) (x y : Option String)
        → x ≡ (if a then some "\"\"" else y)
        → (if b then some "\"\"" else x) ≡ (if (true && a) || b then some "\"\"" else y)
    joined true true x y e = refl
    joined true false x y e = e
    joined false true x y e = refl
    joined false false x y e = e

-- The options of a compilation that resumes from a reset.
abbrev pub resumed : CompileOptions → InitialContext → CompileOptions
resumed options i = record options { initial_context = some i }

module _ (ir : Pipeline) (options : CompileOptions) (c : MachineContext) (from_gate : String)
    (affected : List String) where
  -- The context from which the machine runs on after a gate was rejected.
  abbrev pub after_rollback : MachineContext
  after_rollback = first_context ir (resumed options (rollback_rebuild ir c from_gate affected))

  -- After a rejection, what a waiting stage does of itself depends, when the stage is affected, on its wires
  -- and its authorization alone, and it is not authorized: however it had ended or was skipped before, it
  -- runs as on arrival of a value. For every other stage, what was recorded of it is what it was.
  pub rollback_rebuild_correct :
      (r : Region)
      → (In r.name affected
          → (react_always r waiting after_rollback ≡ waiting_written r after_rollback)
            × (includes after_rollback.gate_authorized_targets r.name ≡ false)
            × (retry_count r after_rollback ≡ 0))
        × (¬ In r.name affected
            → ((o : Outcome) → was_finalized after_rollback r.name o ≡ was_finalized c r.name o)
              × (includes after_rollback.gate_authorized_targets r.name
                  ≡ includes c.gate_authorized_targets r.name)
              × (includes after_rollback.gate_skipped_targets r.name
                  ≡ includes c.gate_skipped_targets r.name)
              × (retry_count r after_rollback ≡ retry_count r c))
  unfolding rollback_rebuild react_always waiting_always waiting_written
  rollback_rebuild_correct r =
      let finals = finals_lem affected c.finalized_stages r.name in
      let authorized = names_lem affected c.gate_authorized_targets r.name in
      let skipped = names_lem affected c.gate_skipped_targets r.name in
      let counts = keep_get (λ n. not (includes affected n)) c.retry_counts r.name in
      (
        (λ m.
            let t = (includes_iff affected r.name).1 m in
            (
              rw (finals outcome_done, finals outcome_error, skipped, t) refl,
              rw (authorized, t) refl,
              rw (counts, t) refl,
            )),
        λ m.
            let t : includes affected r.name ≡ false =
              ground (arith, includes_iff affected r.name) in
            (
              (λ o. rw (finals o, t) refl),
              rw (authorized, t) refl,
              rw (skipped, t) refl,
              rw (counts, t) refl,
            ),
      )

  -- After a rejection a port holds: the empty feedback, when it is the feedback of an affected gate other
  -- than the one that was rejected; else its value of before, when its stage is not affected or it is the
  -- feedback of the gate that was rejected; and else nothing.
  pub rollback_values :
      (key : String)
      → map_get after_rollback.port_values key ≡ (
          if is_reseeded (reopened affected from_gate) ir.stages key
          then some "\"\""
          else if keeps_value affected from_gate key
          then map_get c.port_values key
          else none)
  unfolding rollback_rebuild
  rollback_values key =
      reseed_lem (reopened affected from_gate)
        (keep (λ (e : String × String). keeps_value affected from_gate e.0) c.port_values) ir.stages
        key
      ∙ ap (λ x. if is_reseeded (reopened affected from_gate) ir.stages key then some "\"\"" else x)
          (keep_get (keeps_value affected from_gate) c.port_values key)
