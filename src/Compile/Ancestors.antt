-- ===== src/Compile/Ancestors.antt =====
-- What the walk up from a gate collects.
use workflow_control.Prelude.{
  String, ℕ, zero, suc, ◌+◌, ◌≤◌, Option, some, true, List, [], ◌∷◌, ◌++◌, ◌≡◌, refl, sym, ap,
  subst, ◌↔◌, ◌⊎◌, inl, inr, eq_iff, includes, includes_iff, length, In, In-append, Bool-cases,
  List-cases, arith,
}
use workflow_control.Ir.{Pipeline}
use workflow_control.Reach.{Search}
use workflow_control.Structural.Sessions.Weights.{
  weight, weight-visit, weight-total, feeds-total, feeds,
}
use workflow_control.Compile.{upstream_of, push_unseen, walk_up, ancestors_of}
use workflow_control.Compile.Feeds.{Up, upstream_of_iff, total-upstream_of}

-- A chain of such wires, of one at least, leads from the stage to the gate.
pub data IsAncestor (ir : Pipeline) (g : String) : String → Type 0 where
  by_wire : {a : String} → Up ir a g → IsAncestor ir g a
  before : {a b : String} → Up ir a b → IsAncestor ir g b → IsAncestor ir g a

push_from :
    (seen frontier ups : List String) (x : String)
    → In x (push_unseen seen frontier ups)
    → In x frontier ⊎ In x ups
unfolding push_unseen
push_from seen frontier [] x m = inl m
push_from seen frontier (u ∷ ups) x m = elim (Bool-cases (includes seen u)) [
  | inl e ↦ ground (arith, push_from seen frontier ups x (rw e at m))
  | inr e ↦ ground (arith, push_from seen (u ∷ frontier) ups x (rw e at m))
]

push_to :
    (seen frontier ups : List String) (x : String)
    → In x frontier ⊎ In x ups
    → In x seen ⊎ In x (push_unseen seen frontier ups)
unfolding push_unseen
push_to seen frontier [] x m = ground arith
push_to seen frontier (u ∷ ups) x m = elim (Bool-cases (includes seen u)) [
  | inl e ↦ rw e (
      ground (
        arith,
        push_to seen frontier ups x,
        includes_iff seen u,
        ap (λ (y : String). includes seen y),
        e,
        eq_iff u x,
        includes_iff seen x,
      ))
  | inr e ↦ rw e (ground (arith, push_to seen (u ∷ frontier) ups x))
]

length-push :
    (seen frontier ups : List String)
    → length (push_unseen seen frontier ups) ≤ length frontier + length ups
unfolding push_unseen
length-push seen frontier [] = omega arith
length-push seen frontier (u ∷ ups) = elim (Bool-cases (includes seen u)) [
  | inl e ↦ rw e (omega (arith, length-push seen frontier ups))
  | inr e ↦ rw e (omega (arith, length-push seen (u ∷ frontier) ups))
]

module _ (ir : Pipeline) (g : String) where
  abbrev Noted : Search → String → Type 0
  Noted s x = In x s.visited ⊎ In x s.queue

  record IsWalking (s : Search) : Type 0 where
    sound : (x : String) → Noted s x → IsAncestor ir g x
    begun : (x : String) → Up ir x g → Noted s x
    closed : (x y : String) → In y s.visited → Up ir x y → Noted s x

  module _ (s : Search) (cur : String) (rest : List String) (e : s.queue ≡ cur ∷ rest)
      (h : IsWalking s) where
    abbrev fed : List String
    fed = feeds (upstream_of ir) cur

    abbrev walked : Search
    walked = record {
      visited = s.visited ++ cur ∷ [];
      queue = push_unseen (s.visited ++ cur ∷ []) rest fed;
    }

    split : (x : String) → Noted s x → In x s.visited ⊎ (cur ≡ x) ⊎ In x rest
    split x m = elim m [ inl v ↦ inl v | inr q ↦ inr (subst (λ l. In x l) e q) ]

    at_hand : IsAncestor ir g cur
    at_hand = h.sound cur (inr (rw e (inl refl)))

    kept : (x : String) → Noted s x → Noted walked x
    kept x m = elim (split x m) [
      | inl v ↦ inl ((In-append x s.visited (cur ∷ [])).1 (inl v))
      | inr (inl c) ↦ inl ((In-append x s.visited (cur ∷ [])).1 (inr (inl c)))
      | inr (inr r) ↦ push_to (s.visited ++ cur ∷ []) rest fed x (inl r)
    ]

    walked-IsWalking : IsWalking walked
    walked-IsWalking = record {
      sound = λ x m. elim m [
        | inl v ↦ elim ((In-append x s.visited (cur ∷ [])).0 v) [
          | inl o ↦ h.sound x (inl o)
          | inr (inl c) ↦ subst (IsAncestor ir g) c at_hand
          | inr (inr never) ↦ absurd never
        ]
        | inr q ↦ elim (push_from (s.visited ++ cur ∷ []) rest fed x q) [
          | inl r ↦ h.sound x (inr (rw e (inr r)))
          | inr f ↦ before ((upstream_of_iff ir x cur).0 f) at_hand
        ]
      ];
      begun = λ x u. kept x (h.begun x u);
      closed = λ x y v u. elim ((In-append y s.visited (cur ∷ [])).0 v) [
        | inl o ↦ kept x (h.closed x y o u)
        | inr (inl c) ↦
            push_to (s.visited ++ cur ∷ []) rest fed x
              (inr ((upstream_of_iff ir x cur).1 (subst (λ z. Up ir x z) (sym c) u)))
        | inr (inr never) ↦ absurd never
      ];
    }

    popped-IsWalking : includes s.visited cur ≡ true → IsWalking (record s { queue = rest })
    popped-IsWalking t = record {
      sound = λ x m. elim m [ inl v ↦ h.sound x (inl v) | inr q ↦ h.sound x (inr (rw e (inr q))) ];
      begun = λ x u. still x (h.begun x u);
      closed = λ x y v u. still x (h.closed x y v u);
    }
      where
        still : (x : String) → Noted s x → In x s.visited ⊎ In x rest
        still x m = elim (split x m) [
          | inl v ↦ inl v
          | inr (inl c) ↦ inl (subst (λ z. In z s.visited) c ((includes_iff s.visited cur).0 t))
          | inr (inr r) ↦ inr r
        ]

  abbrev Collects : Option (List String) → Type 0
  Collects o =
      (seen : List String) × (o ≡ some seen) × ((x : String) → In x seen ↔ IsAncestor ir g x)

  at_end :
      (s : Search) → IsWalking s → s.queue ≡ [] → (x : String) → IsAncestor ir g x → In x s.visited
  at_end s h e x (by_wire u) = elim (h.begun x u) [
    | inl v ↦ v
    | inr q ↦ absurd (subst (λ l. In x l) e q)
  ]
  at_end s h e x (before {b = b} u p) = elim (h.closed x b (at_end s h e b p) u) [
    | inl v ↦ v
    | inr q ↦ absurd (subst (λ l. In x l) e q)
  ]

  walk_up_lem :
      (fuel : ℕ) (s : Search)
      → IsWalking s
      → length s.queue + weight s.visited (upstream_of ir) ≤ fuel
      → Collects (walk_up (upstream_of ir) fuel s)
  unfolding walk_up
  walk_up_lem zero s h le = elim (List-cases s.queue) [
    | inl e ↦ (s.visited, rw (e, walk_up) refl, λ x. ((λ v. h.sound x (inl v)), at_end s h e x))
    | inr (cur, rest, e) ↦ absurd (omega (arith, ap length e))
  ]
  walk_up_lem (suc fuel) s h le = elim (List-cases s.queue) [
    | inl e ↦ (s.visited, rw (e, walk_up) refl, λ x. ((λ v. h.sound x (inl v)), at_end s h e x))
    | inr (cur, rest, e) ↦ elim (Bool-cases (includes s.visited cur)) [
      | inl t ↦
          rw (e, walk_up, t)
            (walk_up_lem fuel (record s { queue = rest }) (popped-IsWalking s cur rest e h t)
              (omega (arith, ap length e)))
      | inr f ↦
          rw (e, walk_up, f)
            (walk_up_lem fuel (walked s cur rest e h) (walked-IsWalking s cur rest e h) (
              omega (
                arith,
                ap length e,
                weight-visit s.visited cur (upstream_of ir) f,
                length-push (s.visited ++ cur ∷ []) rest (feeds (upstream_of ir) cur),
              )))
    ]
  ]

  -- For every pipeline and every name of a stage, the walk up the wires returns, and what it collects
  -- are exactly the stages from which a chain of at least one wire leads to the named stage, where no
  -- wire carries the feedback of a gate and each ends at a declared stage.
  pub ancestors_of_correct :
      (seen : List String) × (ancestors_of ir g ≡ some seen)
      × ((x : String) → In x seen ↔ IsAncestor ir g x)
  unfolding ancestors_of
  ancestors_of_correct =
      let fed = feeds (upstream_of ir) g in
      walk_up_lem (length ir.wires + length ir.wires)
        (record { visited = []; queue = push_unseen [] [] fed })
        (record {
          sound = λ x m. elim m [
            | inl never ↦ absurd never
            | inr q ↦ elim (push_from [] [] fed x q) [
              | inl never ↦ absurd never
              | inr f ↦ by_wire ((upstream_of_iff ir x g).0 f)
            ]
          ];
          begun = λ x u. push_to [] [] fed x (inr ((upstream_of_iff ir x g).1 u));
          closed = λ x y never u. absurd never;
        })
        (omega (
          arith,
          length-push [] [] fed,
          weight-total (upstream_of ir),
          feeds-total (upstream_of ir) g,
          total-upstream_of ir,
        ))
