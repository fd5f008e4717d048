-- ===== src/Reach/Loop.antt =====
-- The invariant of the `while` loop and the measure of its rounds.
use workflow_control.Prelude.{
  String, ℕ, zero, suc, ◌≤◌, none, some, ◌↔◌, Bool, List, [], ◌∷◌, ◌≡◌, refl, ap, ◌⊎◌, inl, inr,
  length, In, Distinct, List-cases, arith,
}
use workflow_control.Ir.{Wire}
use workflow_control.Reach.{Search, scan, loop, loop_last, pop_last}
use workflow_control.Reach.Scan.{
  Edge, IsSkip, Seen, Marks, work, scan-Seen, scan-Marks, scan-work-le,
}

-- A path of wires from stage to stage.
pub data Reaches (wires : List Wire) (a : String) : String → Type 0 where
  here : Reaches wires a a
  next : {b c : String} → Reaches wires a b → Edge wires b c → Reaches wires a c

-- A stage was taken from the queue, at whichever end.
abbrev pub IsPop : List String → (current : String) (rest : List String) → Type 0
IsPop queue current rest =
    ((x : String) → In x queue ↔ In x (current ∷ rest)) × (length queue ≡ suc (length rest))

-- `queue.shift()`
shift-IsPop :
    (queue : List String) (current : String) (rest : List String)
    → queue ≡ current ∷ rest
    → IsPop queue current rest
shift-IsPop queue current rest e = (λ x. rw e ((λ m. m), λ m. m), ap length e)

-- `frontier.pop()`
pub pop_last-IsPop :
    (queue : List String)
    → ((pop_last queue ≡ none) × (queue ≡ []))
      ⊎ ((current : String) × (rest : List String) × (pop_last queue ≡ some (current, rest))
          × IsPop queue current rest)
unfolding pop_last
pop_last-IsPop [] = inl (refl, refl)
pop_last-IsPop (x ∷ xs) = elim (pop_last-IsPop xs) [
  | inl (e, f) ↦
      inr
        (x, [], rw (e, pop_last) refl, ((λ y. rw f ((λ m. m), λ m. m)), ap (λ l. suc (length l)) f))
  | inr (c, rest, e, f) ↦ inr (
    c,
    x ∷ rest,
    rw (e, pop_last) refl,
    ((λ y. let k = f.0 y in ground arith), omega (arith, f.1)),
  )
]

module _ {skip : List String → String → Bool} {Fresh : String → Type 0} (law : IsSkip skip Fresh)
    (Unlisted : String → Type 0) (wires : List Wire) (start : String) where
  pub record IsSearched (s : Search) : Type 0 where
    pub started : Seen law s start
    pub sound : (x : String) → Seen law s x → Reaches wires start x
    pub queued : (x : String) → In x s.queue → Seen law s x
    pub closed :
        (x : String) → Seen law s x → In x s.queue ⊎ ((y : String) → Edge wires x y → Seen law s y)
    pub fresh : (x : String) → In x s.visited → Fresh x
    pub listed : (x : String) → Seen law s x → Unlisted x ⊎ In x s.visited
    pub marked : (x : String) → In x s.visited → Seen law s x
    pub distinct : Distinct s.visited

  module _ (s : Search) (current : String) (rest : List String) (e : IsPop s.queue current rest)
      (h : IsSearched s) where
    abbrev popped : Search
    popped = record s { queue = rest }

    abbrev after : Search
    after = scan skip current popped wires

    marks : Marks law popped after
    marks = scan-Marks law current popped wires

    at_head : In current s.queue
    at_head = (e.0 current).1 (inl refl)

    new_edges : (x : String) → Seen law after x → Seen law s x ⊎ Edge wires current x
    new_edges x = (scan-Seen law current popped wires x).0

    found : (x : String) → Edge wires current x → Seen law after x
    found x m = (scan-Seen law current popped wires x).1 (inr m)

    closed_after :
        (x : String)
        → Seen law after x
        → In x after.queue ⊎ ((y : String) → Edge wires x y → Seen law after y)
    closed_after x m = elim (marks.newly x m) [
      | inl was ↦ elim (h.closed x was) [
        | inl q ↦ elim ((e.0 x).0 q) [
          | inl p ↦ inr (λ y g. found y (rw p g))
          | inr r ↦ inl (marks.stays x r)
        ]
        | inr all ↦ inr (λ y g. marks.old y (all y g))
      ]
      | inr q ↦ inl q
    ]

    IsSearched-round : IsSearched after
    IsSearched-round = record {
      started = marks.old start h.started;
      sound = λ x m. elim (new_edges x m) [
        | inl was ↦ h.sound x was
        | inr g ↦ next (h.sound current (h.queued current at_head)) g
      ];
      queued = λ x q. elim (marks.queued x q) [
        | inl r ↦ marks.old x (h.queued x ((e.0 x).1 (inr r)))
        | inr now ↦ now
      ];
      closed = closed_after;
      fresh = λ x v. elim (marks.fresh x v) [ inl was ↦ h.fresh x was | inr f ↦ f ];
      listed = λ x m. elim (marks.listed x m) [
        | inl was ↦ elim (h.listed x was) [ inl p ↦ inl p | inr v ↦ inr (marks.still x v) ]
        | inr v ↦ inr v
      ];
      marked =
          λ x v. elim (marks.marked x v) [ inl was ↦ marks.old x (h.marked x was) | inr now ↦ now ];
      distinct = marks.distinct h.distinct;
    }

  round_works :
      (s : Search) (current : String) (rest : List String) (e : IsPop s.queue current rest)
      (h : IsSearched s) (fuel : ℕ)
      → work law wires s ≤ suc fuel
      → work law wires (after s current rest e h) ≤ fuel
  round_works s current rest e h fuel le =
      omega
        (arith, e.1, scan-work-le law wires current (popped s current rest e h) wires (λ n m. m))

  -- Everything that the start leads to is marked once the queue is empty.
  complete :
      (s : Search)
      → IsSearched s
      → s.queue ≡ []
      → (x : String) → Reaches wires start x
      → Seen law s x
  complete s h e x here = h.started
  complete s h e x (next {b} r g) = elim (h.closed b (complete s h e b r)) [
    | inl q ↦ absurd (rw e at q)
    | inr all ↦ all x g
  ]

  -- What the search returns: the stages that the start leads to, each once, but for those that
  -- are never listed.
  pub record IsAnswer (visited : List String) : Type 0 where
    pub sound : (x : String) → In x visited → Reaches wires start x × Fresh x
    pub complete : (x : String) → Reaches wires start x → Unlisted x ⊎ In x visited
    pub distinct : Distinct visited

  answer : (s : Search) → IsSearched s → s.queue ≡ [] → IsAnswer s.visited
  answer s h e = record {
    sound = λ x v. (h.sound x (h.marked x v), h.fresh x v);
    complete = λ x r. h.listed x (complete s h e x r);
    distinct = h.distinct;
  }

  pub loop_lem :
      (fuel : ℕ) (s : Search)
      → IsSearched s
      → work law wires s ≤ fuel
      → (r : List String) × (loop skip wires fuel s ≡ some r) × IsAnswer r
  unfolding loop
  loop_lem zero s h le = elim (List-cases s.queue) [
    | inl e ↦ (s.visited, rw (e, loop), answer s h e)
    | inr (c, rest, e) ↦ absurd (omega (arith, ap length e))
  ]
  loop_lem (suc fuel) s h le = elim (List-cases s.queue) [
    | inl e ↦ (s.visited, rw (e, loop), answer s h e)
    | inr (c, rest, e) ↦
        let p = shift-IsPop s.queue c rest e in
        rw (e, loop)
          (loop_lem fuel (after s c rest p h) (IsSearched-round s c rest p h)
            (round_works s c rest p h fuel le))
  ]

  pub loop_last_lem :
      (fuel : ℕ) (s : Search)
      → IsSearched s
      → work law wires s ≤ fuel
      → (r : List String) × (loop_last skip wires fuel s ≡ some r) × IsAnswer r
  unfolding loop_last
  loop_last_lem zero s h le = elim (pop_last-IsPop s.queue) [
    | inl (e, f) ↦ (s.visited, rw (e, loop_last) refl, answer s h f)
    | inr (c, rest, e, p) ↦ absurd (omega (arith, p.1))
  ]
  loop_last_lem (suc fuel) s h le = elim (pop_last-IsPop s.queue) [
    | inl (e, f) ↦ (s.visited, rw (e, loop_last) refl, answer s h f)
    | inr (c, rest, e, p) ↦
        rw (e, loop_last)
          (loop_last_lem fuel (after s c rest p h) (IsSearched-round s c rest p h)
            (round_works s c rest p h fuel le))
  ]
