-- ===== src/Segments/Visits.antt =====
-- The walk of the planner over the stages, in their order.
use workflow_control.Prelude.{
  String, ℕ, Option, none, some, true, List, [], ◌∷◌, ◌++◌, foldl, ◌≡◌, refl, sym, subst, ◌↔◌, inl,
  inr, ◌==◌, eq_iff, includes, not_includes, length, In, In-append, of_In-map, All, Distinct,
  Distinct-snoc, Distinct-split, map_get, map_get-map_set, Bool-cases, Option-cases, arith,
}
use mathlib.Core.List.{append_assoc, append-nil}
use mathlib.Core.Option.{some-injective}
use workflow_control.Ir.{Pipeline, Stage}
use workflow_control.Reach.Scan.{Edge}
use workflow_control.Segments.{
  stage_names, is_plain_agent, stage_by_name, upstream_agents, or_empty, sole, Walk, push_at,
  open_segment, extend_segment, continues, visit_stage,
}
use workflow_control.Segments.Upstream.{IsPlainAgent, stage_by_name_iff, upstream_agents-IsUpstream}
use workflow_control.Segments.Chain.{
  flat, Holds, In-flat-push_at, Distinct-push_at, Holds-push_at, Holds-pushed, IsChain,
  All-IsChain-push_at, All-IsChain-open, flat-open, Holds-open, Holds-opened,
}

-- Stage `b` continues the session of `a`: both are agents without fanout, a wire leads from `a` to
-- `b`, and no other agent without fanout feeds `b`.
abbrev pub Joined : Pipeline → String → String → Type 0
Joined ir a b =
    IsPlainAgent ir.stages a
    × IsPlainAgent ir.stages b
    × Edge ir.wires a b
    × ((c : String) → IsPlainAgent ir.stages c → Edge ir.wires c b → c ≡ a)

sole-eq-some : (l : List String) (u : String) → sole l ≡ some u → l ≡ u ∷ []
sole-eq-some [] u e = cc
sole-eq-some (x ∷ []) u e = ground arith
sole-eq-some (x ∷ y ∷ l) u e = cc

module _ (ir : Pipeline) (d : Distinct (stage_names ir)) where
  pub record IsWalked (done : List String) (st : Walk) : Type 0 where
    pub mem : (x : String) → In x (flat st.segments) ↔ In x done
    pub distinct : Distinct (flat st.segments)
    pub holds : (x : String) (i : ℕ) → map_get st.segment_of x ≡ some i → Holds st.segments i x
    pub chains : All (IsChain (Joined ir) st.consumed) st.segments

  module _ (done : List String) (st : Walk) (s : Stage) (h : IsWalked done st)
      (m : In s ir.stages) where
    abbrev Continued : Option (ℕ × String) → Type 0
    Continued none = Unit
    Continued (some (i, u)) = Joined ir u s.name × Holds st.segments i u × ¬ In u st.consumed

    joined :
        (u : String)
        → is_plain_agent s ≡ true
        → sole (or_empty (map_get (upstream_agents ir) s.name)) ≡ some u
        → Joined ir u s.name
    joined u plain e = elim (Option-cases (map_get (upstream_agents ir) s.name)) [
      | inl none' ↦ absurd (ground arith)
      | inr (l, found) ↦
          let only : l ≡ u ∷ [] = sole-eq-some l u (rw found at e) in
          let lists = (upstream_agents-IsUpstream ir d).lists s.name l found in
          let (p, q) = (lists u).0 (rw only (inl refl)) in
          (
            p,
            (s, m, refl, plain),
            q,
            λ c pc qc. elim (subst (In c) only ((lists c).1 (pc, qc))) [
              | inl e' ↦ sym e'
              | inr never ↦ absurd never
            ],
          )
    ]

    -- A stage continues a segment only from its one plain upstream agent, which ends that segment.
    continues_lem : Continued (continues (upstream_agents ir) st s)
    unfolding continues
    continues_lem = elim (Bool-cases (is_plain_agent s)) [
      | inr f ↦ rw f tt
      | inl plain ↦
          rw plain (elim (Option-cases (sole (or_empty (map_get (upstream_agents ir) s.name)))) [
            | inl e ↦ rw (e, continues) tt
            | inr (u, e) ↦
                rw (e, continues)
                  (elim (Option-cases (map_get st.segment_of u)) [
                    | inl f ↦ rw (f, continues) tt
                    | inr (i, f) ↦
                        rw (f, continues)
                          (elim (Bool-cases (includes st.consumed u)) [
                            | inl used ↦ rw used tt
                            | inr free ↦
                                rw free
                                  (joined u plain e, h.holds u i f, not_includes st.consumed u free)
                          ])
                  ])
          ])
    ]

  module _ (done : List String) (st : Walk) (n : String) (h : IsWalked done st)
      (new : ¬ In n done) where
    not_flat : ¬ In n (flat st.segments)
    not_flat m = new ((h.mem n).0 m)

    opened : IsWalked (done ++ n ∷ []) (open_segment st n)
    unfolding open_segment
    opened = record {
      mem = λ x. rw (flat-open st.segments n) (
          ground
            (arith, In-append x (flat st.segments) (n ∷ []), In-append x done (n ∷ []), h.mem x));
      distinct =
          rw (flat-open st.segments n) (Distinct-snoc (flat st.segments) n h.distinct not_flat);
      holds = λ x i e. elim (Bool-cases (n == x)) [
        | inl same ↦
            let hit : some (length st.segments) ≡ some i =
              ground (arith, map_get-map_set st.segment_of n x (length st.segments)) in
            subst (λ k. Holds (st.segments ++ (n ∷ []) ∷ []) k x)
              (some-injective (length st.segments) i hit)
              (subst (Holds (st.segments ++ (n ∷ []) ∷ []) (length st.segments))
                ((eq_iff n x).0 same) (Holds-opened st.segments n))
        | inr other ↦
            Holds-open st.segments i n x
              (h.holds x i (ground (arith, map_get-map_set st.segment_of n x (length st.segments))))
      ];
      chains = All-IsChain-open (Joined ir) st.consumed st.segments n h.chains;
    }

    extended :
        (i : ℕ) (u : String)
        → Joined ir u n
        → Holds st.segments i u
        → ¬ In u st.consumed
        → IsWalked (done ++ n ∷ []) (extend_segment st i u n)
    unfolding extend_segment
    extended i u j hold out = record {
      mem = λ x.
          ground
            (arith, In-flat-push_at st.segments i n x u hold, In-append x done (n ∷ []), h.mem x);
      distinct = Distinct-push_at st.segments i n u hold h.distinct not_flat;
      holds = λ x k e. elim (Bool-cases (n == x)) [
        | inl same ↦
            let hit : some i ≡ some k = ground (arith, map_get-map_set st.segment_of n x i) in
            subst (λ l. Holds (push_at st.segments i n) l x) (some-injective i k hit)
              (subst (Holds (push_at st.segments i n) i) ((eq_iff n x).0 same)
                (Holds-pushed st.segments i n u hold))
        | inr other ↦
            Holds-push_at st.segments i k n x
              (h.holds x k (ground (arith, map_get-map_set st.segment_of n x i)))
      ];
      chains = All-IsChain-push_at (Joined ir) st.consumed st.segments i u n h.chains hold out j;
    }

  visit_stage-IsWalked :
      (done : List String) (st : Walk) (n : String)
      → IsWalked done st
      → ¬ In n done
      → In n (stage_names ir)
      → IsWalked (done ++ n ∷ []) (visit_stage (stage_by_name ir.stages) (upstream_agents ir) st n)
  unfolding visit_stage
  visit_stage-IsWalked done st n h new node =
      let (s, m, e) = of_In-map (λ (t : Stage). t.name) n ir.stages node in
      rw ((stage_by_name_iff ir.stages n s d).1 (m, e), visit_stage)
        (elim (Option-cases (continues (upstream_agents ir) st s)) [
          | inl f ↦ rw (f, visit_stage, e) (opened done st n h new)
          | inr (p, f) ↦
              let (j, hold, out) =
                subst (Continued done st s h m) f (continues_lem done st s h m) in
              rw (f, visit_stage, e)
                (extended done st n h new p.0 p.1 (subst (Joined ir p.1) e j) hold out)
        ])

  pub walk-IsWalked :
      (done rest : List String) (st : Walk)
      → IsWalked done st
      → Distinct (done ++ rest)
      → ((x : String) → In x rest → In x (stage_names ir))
      → IsWalked
          (done ++ rest)
          (foldl (visit_stage (stage_by_name ir.stages) (upstream_agents ir)) st rest)
  walk-IsWalked done [] st h dd sub = rw append-nil h
  walk-IsWalked done (n ∷ rest) st h dd sub =
      let (a, b, apart) = Distinct-split done (n ∷ rest) dd in
      let regroup : done ++ n ∷ rest ≡ (done ++ n ∷ []) ++ rest =
        sym (append_assoc done (n ∷ []) rest) in
      rw regroup (
        walk-IsWalked (done ++ n ∷ []) rest
          (visit_stage (stage_by_name ir.stages) (upstream_agents ir) st n)
          (visit_stage-IsWalked done st n h (apart n (inl refl)) (sub n (inl refl)))
          (rw regroup at dd) (λ x m. sub x (inr m)))
