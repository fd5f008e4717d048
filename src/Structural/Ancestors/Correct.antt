-- ===== src/Structural/Ancestors/Correct.antt =====
-- What the search for a gate among the stages behind a target decides.
use workflow_control.Prelude.{
  String, ℕ, zero, suc, ◌+◌, ◌≤◌, Option, none, some, Bool, true, false, List, [], ◌∷◌, ◌≡◌, ◌≢◌,
  refl, ap, subst, ◌⊎◌, inl, inr, ◌==◌, eq_iff, includes, includes_iff, not_includes, length, In,
  Bool-cases, Option-cases, List-cases, arith,
}
use workflow_control.Ir.{Wire}
use workflow_control.Reach.{Search}
use workflow_control.Structural.Ancestors.{expand, bfs_loop, bfs_reaches}
use workflow_control.Structural.Ancestors.Rounds.{
  IsAhead, itself, after, nexts, IsQueued, IsQueued-none, IsQueued-skip, offered, IsQueued-offer,
  adjacent, adjacent_iff, IsSearching, started-IsSearching, round-IsSearching, all_seen, visited_le,
}

-- The target is not among the stages after the one at hand, and the round queues them.
record IsExpanded (target : String) (ns : List String) (s s' : Search) : Type 0 where
  missed : ¬ In target ns
  grown : IsQueued ns s s'

OnExpand : (target : String) → List String → Search → Option Search → Type 0
OnExpand target ns s none = In target ns
OnExpand target ns s (some s') = IsExpanded target ns s s'

expand_skip :
    (target n : String) (ns : List String) (s : Search) (o : Option Search)
    → n ≢ target
    → In n s.visited
    → OnExpand target ns s o
    → OnExpand target (n ∷ ns) s o
unfolding OnExpand
expand_skip target n ns s none ne m h = inr h
expand_skip target n ns s (some s') ne m h = record {
  missed = λ o. elim o [ inl e ↦ ne e | inr o' ↦ h.missed o' ];
  grown = IsQueued-skip n ns s s' m h.grown;
}

expand_offer :
    (target n : String) (ns : List String) (s : Search) (o : Option Search)
    → n ≢ target
    → ¬ In n s.visited
    → OnExpand target ns (offered n s) o
    → OnExpand target (n ∷ ns) s o
unfolding OnExpand
expand_offer target n ns s none ne m h = inr h
expand_offer target n ns s (some s') ne m h = record {
  missed = λ o. elim o [ inl e ↦ ne e | inr o' ↦ h.missed o' ];
  grown = IsQueued-offer n ns s s' m h.grown;
}

expand-OnExpand :
    (target : String) (ns : List String) (s : Search) → OnExpand target ns s (expand target ns s)
unfolding expand OnExpand
expand-OnExpand target [] s = record { missed = λ o. o; grown = IsQueued-none s }
expand-OnExpand target (n ∷ ns) s = elim (Bool-cases (n == target)) [
  | inl t ↦ rw t (inl ((eq_iff n target).0 t))
  | inr f ↦ rw f (elim (Bool-cases (includes s.visited n)) [
    | inl t ↦ rw t (
        expand_skip target n ns s (expand target ns s) (λ e. ground (arith, eq_iff n target))
          ((includes_iff s.visited n).0 t) (expand-OnExpand target ns s))
    | inr g ↦ rw g (
        expand_offer target n ns s (expand target ns (offered n s))
          (λ e. ground (arith, eq_iff n target)) (not_includes s.visited n g)
          (expand-OnExpand target ns (offered n s)))
  ])
]

module _ (wires : List Wire) (start target : String) where
  abbrev Decides : Option Bool → Type 0
  Decides o =
      ((o ≡ some true) × IsAhead wires start target)
      ⊎ ((o ≡ some false) × ¬ IsAhead wires start target)

  finished :
      (s : Search)
      → IsSearching wires start s
      → ¬ In target s.visited
      → s.queue ≡ []
      → ¬ IsAhead wires start target
  finished s h apart e p = apart (all_seen wires start s h e target p)

  loop_lem :
      (fuel : ℕ) (s : Search)
      → IsSearching wires start s
      → ¬ In target s.visited
      → suc (length wires) + length s.queue ≤ fuel + length s.visited
      → Decides (bfs_loop (adjacent wires start) target fuel s)
  unfolding bfs_loop OnExpand
  loop_lem zero s h apart le = elim (List-cases s.queue) [
    | inl e ↦ rw (e, bfs_loop) (inr (refl, finished s h apart e))
    | inr (cur, rest, e) ↦ absurd (omega (arith, ap length e, visited_le wires start s h))
  ]
  loop_lem (suc fuel) s h apart le = elim (List-cases s.queue) [
    | inl e ↦ rw (e, bfs_loop) (inr (refl, finished s h apart e))
    | inr (cur, rest, e) ↦
        let found =
          expand-OnExpand target (nexts (adjacent wires start) cur) (record s { queue = rest }) in
        elim (Option-cases
          (expand target (nexts (adjacent wires start) cur) (record s { queue = rest }))) [
            | inl f ↦
                rw (e, bfs_loop, f)
                  (inl (
                    refl,
                    after (h.sound cur (h.held cur (rw e (inl refl)))) (
                        (adjacent_iff wires start cur target).0 (
                          subst
                            (OnExpand target (nexts (adjacent wires start) cur)
                              (record s { queue = rest }))
                            f found)),
                  ))
            | inr (s', f) ↦
                let x =
                  subst
                    (OnExpand target (nexts (adjacent wires start) cur) (record s { queue = rest }))
                    f found in
                rw (e, bfs_loop, f)
                  (loop_lem fuel s' (round-IsSearching wires start s s' cur rest e h x.grown)
                    (λ m. elim ((x.grown.visited target).0 m) [
                      | inl o ↦ apart o
                      | inr o ↦ x.missed o
                    ])
                    (omega (arith, le, x.grown.balance, ap length e)))
          ]
  ]

-- The search decides, for every two names, whether a chain of wires that carry no feedback of a
-- gate leads from the first to the second; it always returns.
pub bfs_reaches_correct :
    (wires : List Wire) (start target : String)
    → ((bfs_reaches wires start target ≡ some true) × IsAhead wires start target)
      ⊎ ((bfs_reaches wires start target ≡ some false) × ¬ IsAhead wires start target)
unfolding bfs_reaches
bfs_reaches_correct wires start target = elim (Bool-cases (start == target)) [
  | inl t ↦ rw t (inl (refl, subst (IsAhead wires start) ((eq_iff start target).0 t) itself))
  | inr f ↦ rw f (
      loop_lem wires start target (suc (length wires))
        (record { visited = start ∷ []; queue = start ∷ [] }) (started-IsSearching wires start)
        (λ m. ground (arith, eq_iff start target)) (omega arith))
]
