-- ===== src/Machine/Run/Finalized.antt =====
-- The list of finalized stages, by which the runner reports how each stage ended.
use workflow_control.Prelude.{
  String, Option, Bool, true, false, ◌&&◌, ◌||◌, List, [], ◌∷◌, ◌++◌, map, ◌≡◌, refl, ap, subst,
  ◌∙◌, ◌⊎◌, inl, inr, ◌==◌, eq_iff, any, In, Distinct, Distinct-snoc, Bool-cases, arith,
  if◌then◌else◌,
}
use workflow_control.Machine.{is_outcome, was_finalized}
use workflow_control.Machine.Context.{
  MachineContext, Region, Phase, waiting, executing, done, error, FinalizedStage, Outcome,
  outcome_done, outcome_error, FailureReason,
}
use workflow_control.Machine.Run.{Snapshot, moved, write_port, Runs}
use workflow_control.Machine.Run.Effects.{Effect, Finals, finished, broken}
use workflow_control.Machine.Run.Invariant.{Active, keeps_run}

abbrev recorded : List FinalizedStage → String → Outcome → Bool
recorded l n o = any (λ (f : FinalizedStage). f.name == n && is_outcome f.outcome o) l

abbrev named : List FinalizedStage → String → Bool
named l n = any (λ (f : FinalizedStage). f.name == n) l

abbrev names_of : List FinalizedStage → List String
names_of l = map (λ (f : FinalizedStage). f.name) l

-- How a region that is in the phase has ended.
abbrev pub ended_as : Phase → Outcome → Bool
ended_as waiting o = false
ended_as executing o = false
ended_as done o = is_outcome outcome_done o
ended_as error o = is_outcome outcome_error o

named_cases :
    (l : List FinalizedStage) (n : String)
    → named l n ≡ true
    → (recorded l n outcome_done ≡ true) ⊎ (recorded l n outcome_error ≡ true)
named_cases [] n h = cc
named_cases (f ∷ l) n h = elim (outcome_cases f.outcome) [
  | inl e ↦ rw e (ground (arith, named_cases l n))
  | inr e ↦ rw e (ground (arith, named_cases l n))
]
  where
    outcome_cases : (o : Outcome) → (o ≡ outcome_done) ⊎ (o ≡ outcome_error)
    outcome_cases outcome_done = inl refl
    outcome_cases outcome_error = inr refl

recorded_snoc :
    (l : List FinalizedStage) (f : FinalizedStage) (n : String) (o : Outcome)
    → recorded (l ++ f ∷ []) n o ≡ (recorded l n o || (f.name == n && is_outcome f.outcome o))
recorded_snoc [] f n o = ground arith
recorded_snoc (g ∷ l) f n o = ground (arith, recorded_snoc l f n o)

In-names_of : (l : List FinalizedStage) (n : String) → In n (names_of l) → named l n ≡ true
In-names_of [] n m = absurd m
In-names_of (f ∷ l) n m = ground (arith, eq_iff f.name n, In-names_of l n)

names_of-snoc :
    (l : List FinalizedStage) (f : FinalizedStage)
    → names_of (l ++ f ∷ []) ≡ names_of l ++ f.name ∷ []
names_of-snoc [] f = refl
names_of-snoc (g ∷ l) f = ap (λ x. g.name ∷ x) (names_of-snoc l f)

ended-Active : (p : Phase) (o : Outcome) → Active p → ended_as p o ≡ false
ended-Active waiting o a = refl
ended-Active executing o a = refl
ended-Active done o a = elim a [ ]
ended-Active error o a = elim a [ ]

-- An entry of the region's own name leaves what is recorded of other names.
other_names :
    (l : List FinalizedStage) (f : FinalizedStage) (n : String) (o : Outcome)
    → (f.name == n) ≡ false
    → recorded (l ++ f ∷ []) n o ≡ recorded l n o
other_names l f n o e = ground (arith, recorded_snoc l f n o)

Finals-cases :
    (r : Region) (before after : List FinalizedStage) (p : Phase)
    → named before r.name ≡ false
    → Finals r before p after
    → (Active p × (after ≡ before))
      ⊎ ((p ≡ done) × (after ≡ before ++ finished r ∷ []))
      ⊎ ((p ≡ error)
          × (reason : FailureReason) × (message : Option String) × (after
              ≡ before ++ broken r reason message ∷ []))
Finals-cases r before after waiting new h = inl (tt, h)
Finals-cases r before after executing new h = inl (tt, h)
Finals-cases r before after done new (inl h) = cc
Finals-cases r before after done new (inr h) = inr (inl (refl, h.1))
Finals-cases r before after error new (inl h) = cc
Finals-cases r before after error new (inr (reason, message, h)) =
    inr (inr (refl, reason, message, h))

-- The list tells the phase of every region, and tells each name once.
record Truthful (s : Snapshot) : Type 0 where
  tells :
      (n : String) (o : Outcome) → recorded s.context.finalized_stages n o ≡ ended_as (s.phase n) o
  once : Distinct (names_of s.context.finalized_stages)

fresh :
    (s : Snapshot) (n : String)
    → Truthful s
    → Active (s.phase n)
    → named s.context.finalized_stages n ≡ false
fresh s n h a = elim (Bool-cases (named s.context.finalized_stages n)) [
  | inl t ↦ elim (named_cases s.context.finalized_stages n t) [
    | inl e ↦
        let b : recorded s.context.finalized_stages n outcome_done ≡ false =
          h.tells n outcome_done ∙ ended-Active (s.phase n) outcome_done a in
        cc
    | inr e ↦
        let b : recorded s.context.finalized_stages n outcome_error ≡ false =
          h.tells n outcome_error ∙ ended-Active (s.phase n) outcome_error a in
        cc
  ]
  | inr t ↦ t
]

-- A region that goes on leaves the list as it is.
moved_on :
    (s : Snapshot) (r : Region) (p : Phase) (c : MachineContext)
    → Truthful s
    → Active (s.phase r.name)
    → Active p
    → c.finalized_stages ≡ s.context.finalized_stages
    → Truthful (moved s r.name p c)
moved_on s r p c h a b e = record { tells = tells_on; once = rw e h.once }
  where
    tells_on :
        (n : String) (o : Outcome)
        → recorded c.finalized_stages n o ≡ ended_as (if r.name == n then p else s.phase n) o
    tells_on n o = elim (Bool-cases (r.name == n)) [
      | inl t ↦
          rw (t, ended-Active p o b, e, h.tells n o)
            (ended-Active (s.phase n) o (subst (λ x. Active (s.phase x)) ((eq_iff r.name n).0 t) a))
      | inr t ↦ rw (t, e) (h.tells n o)
    ]

-- A region that ends adds its own entry.
moved_to_end :
    (s : Snapshot) (r : Region) (p : Phase) (c : MachineContext) (f : FinalizedStage)
    → Truthful s
    → Active (s.phase r.name)
    → c.finalized_stages ≡ s.context.finalized_stages ++ f ∷ []
    → f.name ≡ r.name
    → ((o : Outcome) → is_outcome f.outcome o ≡ ended_as p o)
    → Truthful (moved s r.name p c)
moved_to_end s r p c f h a e g k = record {
  tells = tells_end;
  once =
      rw (e, names_of-snoc s.context.finalized_stages f, g)
        (Distinct-snoc (names_of s.context.finalized_stages) r.name h.once (λ m.
          let t = In-names_of s.context.finalized_stages r.name m in
          let u = fresh s r.name h a in cc));
}
  where
    tells_end :
        (n : String) (o : Outcome)
        → recorded c.finalized_stages n o ≡ ended_as (if r.name == n then p else s.phase n) o
    tells_end n o = elim (Bool-cases (r.name == n)) [
      | inl t ↦
          let q =
            ended-Active (s.phase n) o
              (subst (λ x. Active (s.phase x)) ((eq_iff r.name n).0 t) a) in
          rw (e, recorded_snoc s.context.finalized_stages f n o, g, t, h.tells n o, q, k o) refl
      | inr t ↦
          rw (e, recorded_snoc s.context.finalized_stages f n o, g, t) (ground (arith, h.tells n o))
    ]

Truthful-move :
    (s : Snapshot) (r : Region) (p : Phase) (c : MachineContext)
    → Active (s.phase r.name)
    → Effect r s.context p c
    → Truthful s
    → Truthful (moved s r.name p c)
Truthful-move s r p c a x h =
    elim (Finals-cases r s.context.finalized_stages c.finalized_stages p (fresh s r.name h a)
      x.finals) [
        | inl (b, e) ↦ moved_on s r p c h a b e
        | inr (inl (q, e)) ↦ moved_to_end s r p c (finished r) h a e refl (λ o. rw q refl)
        | inr (inr (q, reason, message, e)) ↦
            moved_to_end s r p c (broken r reason message) h a e refl (λ o. rw q refl)
      ]

-- In every run that starts with all regions waiting and nothing finalized, the list records a stage
-- with an outcome exactly when its region has ended with that outcome, and it names no stage twice.
pub finalized_stages-Runs :
    (rs : List Region) (s t : Snapshot)
    → ((n : String) → s.phase n ≡ waiting)
    → s.context.finalized_stages ≡ []
    → Runs rs s t
    → ((n : String) (o : Outcome) → was_finalized t.context n o ≡ ended_as (t.phase n) o)
      × Distinct (map (λ (f : FinalizedStage). f.name) t.context.finalized_stages)
unfolding write_port
finalized_stages-Runs rs s t w e run = (end.tells, end.once)
  where
    start_lem : Truthful s
    start_lem = record { tells = λ n o. rw (e, w n) refl; once = rw e tt }

    end : Truthful t
    end =
        keeps_run rs Truthful (λ u r p c i. Truthful-move u r p c)
          (λ u key value h. record { tells = h.tells; once = h.once }) start_lem run
