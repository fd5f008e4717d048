-- ===== src/Segments/Upstream.antt =====
-- The plain agent stages that feed a stage, as the planner collects them.
use workflow_control.Prelude.{
  String, none, some, true, List, [], ◌∷◌, ◌++◌, map, foldl, ◌≡◌, refl, sym, ap, subst, ◌∙◌, ◌↔◌,
  ◌⊎◌, inl, inr, ◌==◌, eq_iff, includes, includes_iff, In, In-append, Distinct, map_get, map_set,
  map_get-map_set, Bool-cases, Option-cases, arith,
}
use mathlib.Core.Option.{some-injective}
use workflow_control.Ir.{Pipeline, Stage, Wire}
use workflow_control.Ir.Wires.{wire_from_stage}
use workflow_control.Reach.Scan.{Edge}
use workflow_control.Segments.{
  stage_names, is_plain_agent, stage_by_name, note_agent, note_upstream, upstream_agents,
}

-- The name of a declared agent stage without fanout.
abbrev pub IsPlainAgent : List Stage → String → Type 0
IsPlainAgent stages n = (s : Stage) × In s stages × (s.name ≡ n) × (is_plain_agent s ≡ true)

by_name_fold :
    (m : List (String × Stage)) (stages : List Stage) (n : String) (s : Stage)
    → Distinct (map (λ (t : Stage). t.name) stages)
    → ((x : String) → In x (map (λ (t : Stage). t.name) stages) → map_get m x ≡ none)
    → (map_get (foldl (λ d (t : Stage). map_set d t.name t) m stages) n ≡ some s)
      ↔ ((map_get m n ≡ some s) ⊎ In s stages × (s.name ≡ n))
by_name_fold m [] n s d new = ground arith
by_name_fold m (t ∷ stages) n s d new = ground (
  arith,
  map_get-map_set m t.name n t,
  eq_iff t.name n,
  new n,
  by_name_fold (map_set m t.name t) stages n s d.1
      (λ x q. ground (arith, map_get-map_set m t.name x t, eq_iff t.name x, new x)),
)

pub stage_by_name_iff :
    (stages : List Stage) (n : String) (s : Stage)
    → Distinct (map (λ (t : Stage). t.name) stages)
    → (map_get (stage_by_name stages) n ≡ some s) ↔ (In s stages × (s.name ≡ n))
unfolding stage_by_name map_get
stage_by_name_iff stages n s d = ground (arith, by_name_fold [] stages n s d (λ x m. refl))

module _ (stages : List Stage) (d : Distinct (map (λ (t : Stage). t.name) stages)) where
  -- Each list holds exactly the plain agents that a relation `E` leads from to its stage.
  pub record IsUpstream (E : String → String → Type 0) (ups : List (String × List String))
      : Type 0 where
    pub lists :
        (n : String) (l : List String)
        → map_get ups n ≡ some l
        → (u : String) → In u l ↔ (IsPlainAgent stages u × E u n)

  module _ (E : String → String → Type 0) (ups : List (String × List String)) (from to : String)
      (h : IsUpstream E ups) where
    abbrev E' : String → String → Type 0
    E' x y = E x y ⊎ (from ≡ x) × (to ≡ y)

    -- The edge is from no plain agent, or its target is not declared, or it is noted already.
    kept :
        ((l : List String) → IsPlainAgent stages from → map_get ups to ≡ some l → In from l)
        → IsUpstream E' ups
    kept old = record {
      lists = λ n l e u. (
        λ m. let (p, q) = (h.lists n l e u).0 m in (p, inl q),
        λ (p, q). elim q [
          | inl q ↦ (h.lists n l e u).1 (p, q)
          | inr (a, b) ↦
              subst (λ x. In x l) a
                (old l (subst (IsPlainAgent stages) (sym a) p) (ap (map_get ups) b ∙ e))
        ],
      );
    }

    added :
        (l : List String)
        → IsPlainAgent stages from
        → map_get ups to ≡ some l
        → IsUpstream E' (map_set ups to (l ++ from ∷ []))
    added l plain e = record {
      lists = λ n k f u. elim (Bool-cases (to == n)) [
        | inl same ↦
            let ton : to ≡ n = (eq_iff to n).0 same in
            let hit : l ++ from ∷ [] ≡ k =
              some-injective _ k (ground (arith, map_get-map_set ups to n (l ++ from ∷ []))) in
            rw (← hit) (
              (
                λ m. elim ((In-append u l (from ∷ [])).0 m) [
                  | inl o ↦ let (p, q) = (h.lists to l e u).0 o in (p, inl (subst (E u) ton q))
                  | inr (inl a) ↦ (subst (IsPlainAgent stages) a plain, inr (a, ton))
                  | inr (inr never) ↦ absurd never
                ],
                λ (p, q). (In-append u l (from ∷ [])).1 (elim q [
                  | inl q ↦ inl ((h.lists to l e u).1 (p, subst (E u) (sym ton) q))
                  | inr (a, b) ↦ inr (inl a)
                ]),
              ))
        | inr other ↦
            let old = h.lists n k (ground (arith, map_get-map_set ups to n (l ++ from ∷ []))) u in
            (
              λ m. let (p, q) = old.0 m in (p, inl q),
              λ (p, q). elim q [
                | inl q ↦ old.1 (p, q)
                | inr (a, b) ↦ absurd (ground (arith, eq_iff to n))
              ],
            )
      ];
    }

  note_agent-IsUpstream :
      (E : String → String → Type 0) (ups : List (String × List String)) (from to : String)
      → IsUpstream E ups
      → IsUpstream
          (λ x y. E x y ⊎ (from ≡ x) × (to ≡ y))
          (note_agent (stage_by_name stages) ups from to)
  unfolding note_agent
  note_agent-IsUpstream E ups from to h =
      elim (Option-cases (map_get (stage_by_name stages) from)) [
        | inl e ↦
            rw (e, note_agent)
              (kept E ups from to h (λ l (s, m, n, p) q.
                absurd (ground (arith, (stage_by_name_iff stages from s d).1 (m, n)))))
        | inr (s, e) ↦
            let (m, n) = (stage_by_name_iff stages from s d).0 e in
            rw (e, note_agent)
              (elim (Bool-cases (is_plain_agent s)) [
                | inr f ↦ rw f (
                    kept E ups from to h (λ l (t, m', n', p) q.
                      let same : some s ≡ some t =
                        sym e ∙ (stage_by_name_iff stages from t d).1 (m', n') in
                      absurd (ground arith)))
                | inl plain ↦ rw plain (elim (Option-cases (map_get ups to)) [
                  | inl none' ↦
                      rw (none', note_agent) (kept E ups from to h (λ l p q. absurd (ground arith)))
                  | inr (list, found) ↦
                      rw (found, note_agent)
                        (elim (Bool-cases (includes list from)) [
                          | inl i ↦ rw i (
                              kept E ups from to h (λ l p q.
                                subst (In from) (some-injective list l (sym found ∙ q))
                                  ((includes_iff list from).0 i)))
                          | inr i ↦ rw i (added E ups from to h list (s, m, n, plain) found)
                        ])
                ])
              ])
      ]

  IsUpstream-iff :
      (E F : String → String → Type 0) (ups : List (String × List String))
      → ((x y : String) → E x y ↔ F x y)
      → IsUpstream E ups
      → IsUpstream F ups
  IsUpstream-iff E F ups same h = record {
    lists = λ n l e u. (
      λ m. let (p, q) = (h.lists n l e u).0 m in (p, (same u n).0 q),
      λ (p, q). (h.lists n l e u).1 (p, (same u n).1 q),
    );
  }

  note_upstream-IsUpstream :
      (E : String → String → Type 0) (ups : List (String × List String)) (w : Wire)
      → IsUpstream E ups
      → IsUpstream
          (λ x y. E x y ⊎ (wire_from_stage w ≡ some x) × (w.to.stage ≡ y))
          (note_upstream (stage_by_name stages) ups w)
  unfolding note_upstream
  note_upstream-IsUpstream E ups w h = elim (Option-cases (wire_from_stage w)) [
    | inl e ↦ rw (e, note_upstream) (IsUpstream-iff E _ ups (λ x y. (inl, λ p. ground arith)) h)
    | inr (from, e) ↦
        rw (e, note_upstream)
          (IsUpstream-iff _ _ (note_agent (stage_by_name stages) ups from w.to.stage)
            (λ x y. ground arith) (note_agent-IsUpstream E ups from w.to.stage h))
  ]

  note_wires-IsUpstream :
      (E : String → String → Type 0) (ups : List (String × List String)) (ws : List Wire)
      → IsUpstream E ups
      → IsUpstream
          (λ x y. E x y ⊎ Edge ws x y)
          (foldl (note_upstream (stage_by_name stages)) ups ws)
  note_wires-IsUpstream E ups [] h = IsUpstream-iff E _ ups (λ x y. ground arith) h
  note_wires-IsUpstream E ups (w ∷ ws) h =
      IsUpstream-iff _ _
        (foldl (note_upstream (stage_by_name stages)) (note_upstream (stage_by_name stages) ups w)
          ws)
        (λ x y. ground arith)
        (note_wires-IsUpstream _ (note_upstream (stage_by_name stages) ups w) ws
          (note_upstream-IsUpstream E ups w h))

-- The lists that the loop over the stages starts with are empty.
blank_lists :
    (m : List (String × List String)) (ns : List String) (n : String) (l : List String)
    → ((k : List String) → map_get m n ≡ some k → k ≡ [])
    → map_get (foldl (λ d x. map_set d x []) m ns) n ≡ some l
    → l ≡ []
blank_lists m [] n l h e = h l e
blank_lists m (x ∷ ns) n l h e =
    blank_lists (map_set m x []) ns n l
      (λ k q. elim (Bool-cases (x == n)) [
        | inl t ↦ ground (arith, map_get-map_set m x n [])
        | inr f ↦ h k (ground (arith, map_get-map_set m x n []))
      ])
      e

pub upstream_agents-IsUpstream :
    (ir : Pipeline) (d : Distinct (stage_names ir))
    → IsUpstream ir.stages d (Edge ir.wires) (upstream_agents ir)
unfolding upstream_agents map_get
upstream_agents-IsUpstream ir d =
    IsUpstream-iff ir.stages d _ (Edge ir.wires) (upstream_agents ir) (λ x y. ground arith)
      (note_wires-IsUpstream ir.stages d (λ x y. ⊥) start ir.wires
        (record {
          lists = λ n l e u.
              rw (blank_lists [] (stage_names ir) n l (λ k q. absurd (ground arith)) e)
                ((λ m. absurd m), λ p. absurd p.1);
        }))
  where
    start : List (String × List String)
    start = foldl (λ m n. map_set m n []) [] (stage_names ir)
