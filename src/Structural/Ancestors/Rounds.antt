-- ===== src/Structural/Ancestors/Rounds.antt =====
-- The rounds of a search down the wires: what a round marks and queues, and the invariant.
use workflow_control.Prelude.{
  String, suc, ◌+◌, ◌≤◌, some, List, [], ◌∷◌, ◌++◌, map, ◌≡◌, ◌≢◌, refl, sym, subst, ◌↔◌, ◌⊎◌, inl,
  inr, ◌==◌, eq_iff, includes, includes_iff, set_add, set_add_iff, length, length-append,
  length-map, length_le_of_subset, In, In-append, Distinct, Distinct-snoc, map_get, map_set,
  map_get-map_set, Bool-cases, Option-cases, arith, if◌then◌else◌,
}
use workflow_control.Ir.{Wire}
use workflow_control.Ir.Wires.{wire_from_stage, source_port}
use workflow_control.Reach.{Search}
use workflow_control.Segments.{or_empty}
use workflow_control.Structural.Ancestors.{down_adjacency}

-- A wire runs from `a` to `b` and carries no feedback of a gate.
abbrev pub Forward : List Wire → String → String → Type 0
Forward [] a b = ⊥
Forward (w ∷ ws) a b =
    ((wire_from_stage w ≡ some a) × (w.to.stage ≡ b) × (source_port w.from ≢ "__gate_feedback__"))
    ⊎ Forward ws a b

-- A chain of such wires.
pub data IsAhead (wires : List Wire) (a : String) : String → Type 0 where
  itself : IsAhead wires a a
  after : {b c : String} → IsAhead wires a b → Forward wires b c → IsAhead wires a c

abbrev pub nexts : List (String × List String) → String → List String
nexts adj a = or_empty (map_get adj a)

nexts-map_set :
    (adj : List (String × List String)) (k a : String) (l : List String)
    → nexts (map_set adj k l) a ≡ (if k == a then l else nexts adj a)
nexts-map_set adj k a l = ground (arith, map_get-map_set adj k a l)

down_adjacency_iff :
    (adj : List (String × List String)) (ws : List Wire) (a b : String)
    → In b (nexts (down_adjacency adj ws) a) ↔ (In b (nexts adj a) ⊎ Forward ws a b)
unfolding down_adjacency
down_adjacency_iff adj [] a b = ground arith
down_adjacency_iff adj (w ∷ ws) a b = elim (Option-cases (wire_from_stage w)) [
  | inl e ↦ rw (e, down_adjacency) (ground (arith, down_adjacency_iff adj ws a b))
  | inr (from, e) ↦
      rw (e, down_adjacency)
        (elim (Bool-cases (source_port w.from == "__gate_feedback__")) [
          | inl t ↦ rw t (
              ground (
                arith,
                down_adjacency_iff adj ws a b,
                eq_iff (source_port w.from) "__gate_feedback__",
              ))
          | inr f ↦ rw f (
              ground (
                arith,
                down_adjacency_iff (map_set adj from (set_add (nexts adj from) w.to.stage)) ws a b,
                nexts-map_set adj from a (set_add (nexts adj from) w.to.stage),
                set_add_iff (nexts adj from) w.to.stage b,
                eq_iff from a,
                eq_iff (source_port w.from) "__gate_feedback__",
              ))
        ])
]

pub Forward-listed :
    (ws : List Wire) (a b : String) → Forward ws a b → In b (map (λ (w : Wire). w.to.stage) ws)
Forward-listed [] a b h = h
Forward-listed (w ∷ ws) a b h = ground (arith, Forward-listed ws a b)

-- What one round does with the stages after the one it took.
pub record IsQueued (ns : List String) (s s' : Search) : Type 0 where
  pub visited : (x : String) → In x s'.visited ↔ (In x s.visited ⊎ In x ns)
  pub queued : (x : String) → In x s'.queue ↔ (In x s.queue ⊎ In x ns × ¬ In x s.visited)
  pub once : Distinct s.visited → Distinct s'.visited
  pub balance : length s'.visited + length s.queue ≡ length s.visited + length s'.queue

pub IsQueued-none : (s : Search) → IsQueued [] s s
IsQueued-none s = record {
  visited = λ x. ground arith;
  queued = λ x. ground arith;
  once = λ d. d;
  balance = omega arith;
}

pub IsQueued-skip :
    (n : String) (ns : List String) (s s' : Search)
    → In n s.visited
    → IsQueued ns s s'
    → IsQueued (n ∷ ns) s s'
IsQueued-skip n ns s s' m h = record {
  visited = λ x. ground (arith, h.visited x, λ (e : n ≡ x). subst (λ y. In y s.visited) e m);
  queued = λ x. ground (arith, h.queued x, λ (e : n ≡ x). subst (λ y. In y s.visited) e m);
  once = h.once;
  balance = h.balance;
}

abbrev pub offered : String → Search → Search
offered n s = record { visited = s.visited ++ n ∷ []; queue = s.queue ++ n ∷ [] }

pub IsQueued-offer :
    (n : String) (ns : List String) (s s' : Search)
    → ¬ In n s.visited
    → IsQueued ns (offered n s) s'
    → IsQueued (n ∷ ns) s s'
IsQueued-offer n ns s s' m h = record {
  visited = λ x. ground (arith, h.visited x, In-append x s.visited (n ∷ []));
  queued = λ x. ground (
    arith,
    h.queued x,
    In-append x s.queue (n ∷ []),
    In-append x s.visited (n ∷ []),
    Bool-cases (n == x),
    eq_iff n x,
    λ (e : n ≡ x). subst (λ y. ¬ In y s.visited) e m,
  );
  once = λ d. h.once (Distinct-snoc s.visited n d m);
  balance =
      omega (arith, h.balance, length-append s.visited (n ∷ []), length-append s.queue (n ∷ []));
}

module _ (wires : List Wire) (start : String) where
  abbrev pub adjacent : List (String × List String)
  adjacent = down_adjacency [] wires

  pub adjacent_iff : (a b : String) → In b (nexts adjacent a) ↔ Forward wires a b
  unfolding map_get
  adjacent_iff a b = ground (arith, down_adjacency_iff [] wires a b)

  pub record IsSearching (s : Search) : Type 0 where
    pub once : Distinct s.visited
    pub inside : (x : String) → In x s.visited → In x (start ∷ map (λ (w : Wire). w.to.stage) wires)
    pub sound : (x : String) → In x s.visited → IsAhead wires start x
    pub begun : In start s.visited
    pub held : (x : String) → In x s.queue → In x s.visited
    pub closed :
        (x : String)
        → In x s.visited
        → In x s.queue ⊎ ((b : String) → Forward wires x b → In b s.visited)

  pub started-IsSearching : IsSearching (record { visited = start ∷ []; queue = start ∷ [] })
  started-IsSearching = record {
    once = ((λ m. m), tt);
    inside = λ x m. elim m [ inl e ↦ inl e | inr never ↦ absurd never ];
    sound =
        λ x m. elim m [ inl e ↦ subst (IsAhead wires start) e itself | inr never ↦ absurd never ];
    begun = inl refl;
    held = λ x m. m;
    closed = λ x m. inl m;
  }

  module _ (s s' : Search) (cur : String) (rest : List String) (e : s.queue ≡ cur ∷ rest)
      (h : IsSearching s) (x : IsQueued (nexts adjacent cur) (record s { queue = rest }) s') where
    at_hand : In cur s.visited
    at_hand = h.held cur (rw e (inl refl))

    kept : (y : String) → In y s.visited → In y s'.visited
    kept y m = (x.visited y).1 (inl m)

    pub round-IsSearching : IsSearching s'
    round-IsSearching = record {
      once = x.once h.once;
      inside = λ y m. elim ((x.visited y).0 m) [
        | inl o ↦ h.inside y o
        | inr o ↦ inr (Forward-listed wires cur y ((adjacent_iff cur y).0 o))
      ];
      sound = λ y m. elim ((x.visited y).0 m) [
        | inl o ↦ h.sound y o
        | inr o ↦ after (h.sound cur at_hand) ((adjacent_iff cur y).0 o)
      ];
      begun = kept start h.begun;
      held = λ y m. elim ((x.queued y).0 m) [
        | inl o ↦ kept y (h.held y (rw e (inr o)))
        | inr o ↦ (x.visited y).1 (inr o.0)
      ];
      closed = λ y m. elim (Bool-cases (includes s.visited y)) [
        | inr new ↦
            inl ((x.queued y).1 (inr (ground (arith, (x.visited y).0 m, includes_iff s.visited y))))
        | inl old ↦ elim (h.closed y ((includes_iff s.visited y).0 old)) [
          | inr on ↦ inr (λ b f. kept b (on b f))
          | inl q ↦ elim (subst (λ l. In y l) e q) [
            | inr r ↦ inl ((x.queued y).1 (inl r))
            | inl same ↦ inr (λ b f.
                (x.visited b).1
                  (inr ((adjacent_iff cur b).1 (subst (λ z. Forward wires z b) (sym same) f))))
          ]
        ]
      ];
    }

  pub all_seen :
      (s : Search)
      → IsSearching s
      → s.queue ≡ []
      → (x : String) → IsAhead wires start x
      → In x s.visited
  all_seen s h e x itself = h.begun
  all_seen s h e x (after {b = b} p f) = elim (h.closed b (all_seen s h e b p)) [
    | inl q ↦ absurd (subst (λ l. In b l) e q)
    | inr on ↦ on x f
  ]

  -- The stages that were marked are no more than the start and the wires.
  pub visited_le : (s : Search) → IsSearching s → length s.visited ≤ suc (length wires)
  visited_le s h = omega (
    arith,
    length_le_of_subset s.visited (start ∷ map (λ (w : Wire). w.to.stage) wires) h.once h.inside,
    length-map wires (λ (w : Wire). w.to.stage),
  )
