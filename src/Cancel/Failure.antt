-- ===== src/Cancel/Failure.antt =====
-- What the failure of one stage does to the stages that it leads to.
use workflow_control.Prelude.{
  String, some, true, false, List, [], ◌∷◌, ◌++◌, ◌≡◌, ◌≢◌, refl, sym, subst, ◌∙◌, ◌↔◌, ◌⊎◌, inl,
  inr, ◌==◌, eq_iff, includes, includes_iff, In, In-append, Bool-cases, foldl, arith,
}
use workflow_control.Ir.{Wire}
use workflow_control.Machine.Context.{Region, FinalizedStage, stage_cancelled}
use workflow_control.Machine.Run.{Snapshot}
use workflow_control.Machine.Run.Invariant.{Active}
use workflow_control.Reach.Loop.{Reaches}
use workflow_control.Reach.Correct.{compute_transitive_downstreams_correct}
use workflow_control.Cancel.{
  Propagation, propagates, cancel_downstream, propagate_failure, send_event,
}
use workflow_control.Cancel.Regions.{
  Cancels, Cancels-refl, Cancels-trans, stays_ended, send_event-Cancels, send_event-apart,
  send_event-stops,
}

-- A stage that was published as final or cancelled has ended.
abbrev pub Settled : List Region → (published : List String) → Propagation → Type 0
Settled rs published p =
    (r : Region)
    → In r rs
    → In r.name published ⊎ In r.name p.cancelled
    → ¬ Active (p.snapshot.phase r.name)

module _ (rs : List Region) (published : List String) (stage_name : String) where
  abbrev cancel_one : Propagation → String → Propagation
  cancel_one = cancel_downstream rs published stage_name

  abbrev sent_to : Propagation → String → Snapshot
  sent_to p ds = send_event rs (stage_cancelled ds stage_name) p.snapshot

  -- The stage is passed over, since it was cancelled or published before, or is sent the event.
  cancel_one-cases :
      (p : Propagation) (ds : String)
      → ((In ds published ⊎ In ds p.cancelled) × (cancel_one p ds ≡ p))
        ⊎ (cancel_one p ds ≡ record { cancelled = p.cancelled ++ ds ∷ []; snapshot = sent_to p ds })
  unfolding cancel_downstream
  cancel_one-cases p ds = elim (Bool-cases (includes p.cancelled ds)) [
    | inl t ↦ inl (inr ((includes_iff p.cancelled ds).0 t), rw t refl)
    | inr f ↦ elim (Bool-cases (includes published ds)) [
      | inl t ↦ inl (inl ((includes_iff published ds).0 t), rw (f, t) refl)
      | inr g ↦ inr (rw (f, g) refl)
    ]
  ]

  cancel_one-Cancels :
      (p : Propagation) (ds : String) → Cancels rs p.snapshot (cancel_one p ds).snapshot
  cancel_one-Cancels p ds = elim (cancel_one-cases p ds) [
    | inl (m, e) ↦
        subst (λ (q : Propagation). Cancels rs p.snapshot q.snapshot) (sym e)
          (Cancels-refl rs p.snapshot)
    | inr e ↦
        subst (λ (q : Propagation). Cancels rs p.snapshot q.snapshot) (sym e)
          (send_event-Cancels rs ds stage_name p.snapshot rs (λ r i. i))
  ]

  cancel_one-apart :
      (p : Propagation) (ds x : String)
      → ds ≢ x
      → (cancel_one p ds).snapshot.phase x ≡ p.snapshot.phase x
  cancel_one-apart p ds x h = elim (cancel_one-cases p ds) [
    | inl (m, e) ↦ rw e refl
    | inr e ↦ rw e (send_event-apart rs ds stage_name p.snapshot rs x h)
  ]

  cancel_one-stops :
      (p : Propagation) (r : Region)
      → Settled rs published p
      → In r rs
      → ¬ Active ((cancel_one p r.name).snapshot.phase r.name)
  cancel_one-stops p r h i = elim (cancel_one-cases p r.name) [
    | inl (m, e) ↦ rw e (h r i m)
    | inr e ↦ rw e (send_event-stops rs r.name stage_name p.snapshot rs r (λ q j. j) i refl)
  ]

  cancel_one-Settled :
      (p : Propagation) (ds : String)
      → Settled rs published p
      → Settled rs published (cancel_one p ds)
  cancel_one-Settled p ds h r i m = elim (Bool-cases (ds == r.name)) [
    | inl t ↦
        subst (λ n. ¬ Active ((cancel_one p n).snapshot.phase r.name))
          (sym ((eq_iff ds r.name).0 t)) (cancel_one-stops p r h i)
    | inr f ↦ stays_ended rs (cancel_one-Cancels p ds) r.name (h r i (was_before f))
  ]
    where
      was_before : (ds == r.name) ≡ false → In r.name published ⊎ In r.name p.cancelled
      was_before f = elim m [
        | inl pub_before ↦ inl pub_before
        | inr c ↦ elim (cancel_one-cases p ds) [
          | inl (n, e) ↦ inr (rw e at c)
          | inr e ↦
              let d : In r.name (p.cancelled ++ ds ∷ []) = rw e at c in
              ground (arith, In-append r.name p.cancelled (ds ∷ []), eq_iff ds r.name)
        ]
      ]

  abbrev cancel_each : Propagation → List String → Propagation
  cancel_each = foldl cancel_one

  cancel_each-Cancels :
      (p : Propagation) (l : List String) → Cancels rs p.snapshot (cancel_each p l).snapshot
  cancel_each-Cancels p [] = Cancels-refl rs p.snapshot
  cancel_each-Cancels p (ds ∷ l) =
      Cancels-trans rs (cancel_one-Cancels p ds) (cancel_each-Cancels (cancel_one p ds) l)

  cancel_each-Settled :
      (p : Propagation) (l : List String)
      → Settled rs published p
      → Settled rs published (cancel_each p l)
  cancel_each-Settled p [] h = h
  cancel_each-Settled p (ds ∷ l) h =
      cancel_each-Settled (cancel_one p ds) l (cancel_one-Settled p ds h)

  cancel_each-apart :
      (p : Propagation) (l : List String) (x : String)
      → ¬ In x l
      → (cancel_each p l).snapshot.phase x ≡ p.snapshot.phase x
  cancel_each-apart p [] x h = refl
  cancel_each-apart p (ds ∷ l) x h =
      cancel_each-apart (cancel_one p ds) l x (λ m. h (inr m))
      ∙ cancel_one-apart p ds x (λ e. h (inl e))

  cancel_each-stops :
      (p : Propagation) (l : List String) (r : Region)
      → Settled rs published p
      → In r rs
      → In r.name l
      → ¬ Active ((cancel_each p l).snapshot.phase r.name)
  cancel_each-stops p [] r h i m = absurd m
  cancel_each-stops p (ds ∷ l) r h i (inl e) =
      stays_ended rs (cancel_each-Cancels (cancel_one p ds) l) r.name (
        subst (λ n. ¬ Active ((cancel_one p n).snapshot.phase r.name)) (sym e)
          (cancel_one-stops p r h i))
  cancel_each-stops p (ds ∷ l) r h i (inr m) =
      cancel_each-stops (cancel_one p ds) l r (cancel_one-Settled p ds h) i m

-- What a propagation does to a machine, where `Behind` are the stages that a failed one leads to.
pub record IsPropagated (rs : List Region) (Behind : String → Type 0) (s t : Snapshot)
    : Type 0 where
  -- It is a run of the machine, in which regions that had not ended came to `error` and were listed
  -- as cancelled, while the phases of all others and all port values stayed.
  pub changes : Cancels rs s t
  -- Each stage behind has ended.
  pub ended : (r : Region) → In r rs → Behind r.name → ¬ Active (t.phase r.name)
  -- Each stage that is not behind is where it was.
  pub apart : (x : String) → ¬ Behind x → t.phase x ≡ s.phase x

module _ (rs : List Region) where
  pub IsPropagated-none :
      (Behind : String → Type 0) (s : Snapshot)
      → ((x : String) → ¬ Behind x)
      → IsPropagated rs Behind s s
  IsPropagated-none Behind s h = record {
    changes = Cancels-refl rs s;
    ended = λ r i b. absurd (h r.name b);
    apart = λ x n. refl;
  }

  -- One after the other.
  pub IsPropagated-trans :
      {Behind First Rest : String → Type 0} {s t u : Snapshot}
      → ((x : String) → Behind x ↔ (First x ⊎ Rest x))
      → IsPropagated rs First s t
      → IsPropagated rs Rest t u
      → IsPropagated rs Behind s u
  IsPropagated-trans both a b = record {
    changes = Cancels-trans rs a.changes b.changes;
    ended = λ r i h. elim ((both r.name).0 h) [
      | inl f ↦ stays_ended rs b.changes r.name (a.ended r i f)
      | inr g ↦ b.ended r i g
    ];
    apart =
        λ x n. b.apart x (λ g. n ((both x).1 (inr g))) ∙ a.apart x (λ f. n ((both x).1 (inl f)));
  }

-- The stages that wires lead to from a stage, without itself.
abbrev pub After : List Wire → (failed : String) → String → Type 0
After wires failed x = Reaches wires failed x × (x ≢ failed)

pub propagate_failure_lem :
    (rs : List Region) (wires : List Wire) (published : List String) (entry : FinalizedStage)
    (p : Propagation)
    → Settled rs published p
    → (q : Propagation) × (propagate_failure rs wires published entry p ≡ some q)
      × IsPropagated rs
          (λ x. (propagates entry ≡ true) × After wires entry.name x)
          p.snapshot
          q.snapshot
      × Settled rs published q
unfolding propagate_failure
propagate_failure_lem rs wires published entry p h = elim (Bool-cases (propagates entry)) [
  | inl t ↦
      let (l, e, listed, d) = compute_transitive_downstreams_correct wires entry.name in
      (
        cancel_each rs published entry.name p l,
        rw (t, e, propagate_failure) refl,
        record {
          changes = cancel_each-Cancels rs published entry.name p l;
          ended =
              λ r i b. cancel_each-stops rs published entry.name p l r h i ((listed r.name).1 b.1);
          apart =
              λ x n. cancel_each-apart rs published entry.name p l x (λ m. n (t, (listed x).0 m));
        },
        cancel_each-Settled rs published entry.name p l h,
      )
  | inr f ↦ (
    p,
    rw f refl,
    IsPropagated-none rs _ p.snapshot (λ x b. let never : true ≡ false = sym b.0 ∙ f in cc),
    h,
  )
]
