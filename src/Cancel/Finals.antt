-- ===== src/Cancel/Finals.antt =====
-- What the runner does to the machine while it reads the list of finalized stages.
use workflow_control.Prelude.{
  String, some, true, List, [], ◌∷◌, ◌++◌, map, ◌≡◌, refl, sym, subst, ◌↔◌, ◌⊎◌, inl, inr, includes,
  includes_iff, not_includes, In, In-append, In-map, Distinct, Bool-cases,
}
use workflow_control.Ir.{Wire}
use workflow_control.Machine.Context.{Region, FinalizedStage}
use workflow_control.Machine.Run.{Snapshot}
use workflow_control.Machine.Run.Invariant.{Active}
use workflow_control.Cancel.{Propagation, Publication, propagates, publish_final, publish_finals}
use workflow_control.Cancel.Regions.{stays_ended}
use workflow_control.Cancel.Failure.{
  Settled, IsPropagated, IsPropagated-none, IsPropagated-trans, After, propagate_failure_lem,
}

-- The stage lies behind one that is newly listed with an error of its own.
abbrev pub Behind : List Wire → (published : List String) → List FinalizedStage → String → Type 0
Behind wires published finals x =
    (f : FinalizedStage) × In f finals
    × ¬ In f.name published
    × (propagates f ≡ true)
    × After wires f.name x

abbrev names : List FinalizedStage → List String
names finals = map (λ (f : FinalizedStage). f.name) finals

-- The stages of the list have ended.
abbrev pub HaveEnded : List FinalizedStage → Snapshot → Type 0
HaveEnded finals s = (f : FinalizedStage) → In f finals → ¬ Active (s.phase f.name)

Behind-known :
    (wires : List Wire) (published : List String) (f : FinalizedStage) (fs : List FinalizedStage)
    → In f.name published
    → (x : String) → Behind wires published (f ∷ fs) x
    → Behind wires published fs x
Behind-known wires published f fs m x (g, inl e, n, t, b) =
    absurd (n (subst (λ (z : FinalizedStage). In z.name published) e m))
Behind-known wires published f fs m x (g, inr i, n, t, b) = (g, i, n, t, b)

Behind-new :
    (wires : List Wire) (published : List String) (f : FinalizedStage) (fs : List FinalizedStage)
    → Distinct (names (f ∷ fs))
    → ¬ In f.name published
    → (x : String)
    → Behind wires published (f ∷ fs) x ↔ (
        (propagates f ≡ true) × After wires f.name x ⊎ Behind wires (published ++ f.name ∷ []) fs x)
Behind-new wires published f fs d n x = (forth, back)
  where
    forth :
        Behind wires published (f ∷ fs) x
        → (propagates f ≡ true) × After wires f.name x
          ⊎ Behind wires (published ++ f.name ∷ []) fs x
    forth (g, inl e, m, t, b) = inl (
        subst (λ (z : FinalizedStage). (propagates z ≡ true) × After wires z.name x) (sym e) (t, b))
    forth (g, inr i, m, t, b) = inr (g, i, fresh, t, b)
      where
        fresh : ¬ In g.name (published ++ f.name ∷ [])
        fresh k = elim ((In-append g.name published (f.name ∷ [])).0 k) [
          | inl o ↦ m o
          | inr (inl e) ↦ d.0 (
              subst (λ z. In z (names fs)) (sym e) (In-map (λ (z : FinalizedStage). z.name) g fs i))
          | inr (inr never) ↦ never
        ]

    back :
        (propagates f ≡ true) × After wires f.name x ⊎ Behind wires (published ++ f.name ∷ []) fs x
        → Behind wires published (f ∷ fs) x
    back (inl (t, b)) = (f, inl refl, n, t, b)
    back (inr (g, i, m, t, b)) =
        (g, inr i, (λ o. m ((In-append g.name published (f.name ∷ [])).1 (inl o))), t, b)

-- A stage that has ended may be published.
Settled-add :
    (rs : List Region) (published : List String) (n : String) (p : Propagation)
    → ¬ Active (p.snapshot.phase n)
    → Settled rs published p
    → Settled rs (published ++ n ∷ []) p
Settled-add rs published n p a h r i (inl m) = elim ((In-append r.name published (n ∷ [])).0 m) [
  | inl o ↦ h r i (inl o)
  | inr (inl e) ↦ subst (λ z. ¬ Active (p.snapshot.phase z)) e a
  | inr (inr never) ↦ absurd never
]
Settled-add rs published n p a h r i (inr m) = h r i (inr m)

-- For a list of finalized stages with distinct names that have all ended, where the stages published
-- or cancelled before have ended too: publishing the list returns, and takes the machine through a
-- run after which every stage of the machine has ended to which wires lead from a stage that is new
-- in the list and in error for a reason of its own (executor_failed or no_active_wire). A phase that
-- the run changes is one of these stages', was not final, and is now `error`, with the stage listed
-- as upstream_cancelled; all other phases and the port values stay. The stages that are published
-- or cancelled afterwards have ended.
pub publish_finals_correct :
    (rs : List Region) (wires : List Wire) (st : Publication) (finals : List FinalizedStage)
    → Distinct (map (λ (f : FinalizedStage). f.name) finals)
    → HaveEnded finals st.propagation.snapshot
    → Settled rs st.published st.propagation
    → (st' : Publication) × (publish_finals rs wires st finals ≡ some st')
      × IsPropagated rs
          (Behind wires st.published finals)
          st.propagation.snapshot
          st'.propagation.snapshot
      × Settled rs st'.published st'.propagation
unfolding publish_finals publish_final
publish_finals_correct rs wires st [] d a h =
    (st, refl, IsPropagated-none rs _ st.propagation.snapshot (λ x b. absurd b.1), h)
publish_finals_correct rs wires st (f ∷ fs) d a h =
    elim (Bool-cases (includes st.published f.name)) [
      | inl t ↦
          let known = (includes_iff st.published f.name).0 t in
          let (st', e, k, s) = publish_finals_correct rs wires st fs d.1 (λ g i. a g (inr i)) h in
          (
            st',
            rw (t, publish_finals) e,
            IsPropagated-trans rs
                (λ x. (
                  (λ b. inr (Behind-known wires st.published f fs known x b)),
                  λ b. elim b [
                    | inl never ↦ absurd never
                    | inr (g, i, n, z, b') ↦ (g, inr i, n, z, b')
                  ],
                ))
                (IsPropagated-none rs (λ x. ⊥) st.propagation.snapshot (λ x b. b)) k,
            s,
          )
      | inr u ↦
          let fresh = not_includes st.published f.name u in
          let seen = st.published ++ f.name ∷ [] in
          let (q, e, k, s) =
            propagate_failure_lem rs wires seen f st.propagation
              (Settled-add rs st.published f.name st.propagation (a f (inl refl)) h) in
          let (st', e', k', s') =
            publish_finals_correct rs wires (record { published = seen; propagation = q }) fs d.1
              (λ g i. stays_ended rs k.changes g.name (a g (inr i))) s in
          (
            st',
            rw (u, publish_finals, e) e',
            IsPropagated-trans rs (Behind-new wires st.published f fs d fresh) k k',
            s',
          )
    ]
