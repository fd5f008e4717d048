-- ===== src/Compile/Downstream.antt =====
-- What the search down the wires from a target collects.
use workflow_control.Prelude.{
  String, ℕ, zero, suc, ◌+◌, ◌≤◌, some, List, [], ◌∷◌, foldl, ◌≡◌, refl, ap, ◌↔◌, inl, inr,
  includes, includes_iff, not_includes, length, In, Distinct, Bool-cases, List-cases, Option, arith,
}
use workflow_control.Ir.{Wire}
use workflow_control.Reach.{Search}
use workflow_control.Structural.Ancestors.Rounds.{
  IsAhead, nexts, IsQueued, IsQueued-none, IsQueued-skip, offered, IsQueued-offer, adjacent,
  IsSearching, started-IsSearching, round-IsSearching, all_seen, visited_le,
}
use workflow_control.Compile.{queue_next, walk_down, bfs_downstream}

queue_next-IsQueued : (ns : List String) (s : Search) → IsQueued ns s (foldl queue_next s ns)
unfolding queue_next
queue_next-IsQueued [] s = IsQueued-none s
queue_next-IsQueued (n ∷ ns) s = elim (Bool-cases (includes s.visited n)) [
  | inl t ↦ rw t (
      IsQueued-skip n ns s (foldl queue_next s ns) ((includes_iff s.visited n).0 t)
        (queue_next-IsQueued ns s))
  | inr f ↦ rw f (
      IsQueued-offer n ns s (foldl queue_next (offered n s) ns) (not_includes s.visited n f)
        (queue_next-IsQueued ns (offered n s)))
]

module _ (wires : List Wire) (start : String) where
  abbrev pub Collects : Option (List String) → Type 0
  Collects o =
      (d : List String) × (o ≡ some d)
      × ((x : String) → In x d ↔ IsAhead wires start x)
      × Distinct d

  finished : (s : Search) → IsSearching wires start s → s.queue ≡ [] → Collects (some s.visited)
  finished s h e = (s.visited, refl, (λ x. (h.sound x, all_seen wires start s h e x)), h.once)

  walk_down_lem :
      (fuel : ℕ) (s : Search)
      → IsSearching wires start s
      → suc (length wires) + length s.queue ≤ fuel + length s.visited
      → Collects (walk_down (adjacent wires start) fuel s)
  unfolding walk_down
  walk_down_lem zero s h le = elim (List-cases s.queue) [
    | inl e ↦ rw (e, walk_down) (finished s h e)
    | inr (cur, rest, e) ↦ absurd (omega (arith, ap length e, visited_le wires start s h))
  ]
  walk_down_lem (suc fuel) s h le = elim (List-cases s.queue) [
    | inl e ↦ rw (e, walk_down) (finished s h e)
    | inr (cur, rest, e) ↦
        let ns = nexts (adjacent wires start) cur in
        let x = queue_next-IsQueued ns (record s { queue = rest }) in
        rw (e, walk_down)
          (walk_down_lem fuel (foldl queue_next (record s { queue = rest }) ns)
            (round-IsSearching wires start s (foldl queue_next (record s { queue = rest }) ns) cur
              rest e h x)
            (omega (arith, le, x.balance, ap length e)))
  ]

  -- The search returns, and collects, each once, exactly the stages that a chain of wires which carry
  -- no feedback of a gate leads to from the start, the start among them.
  pub bfs_downstream_correct : Collects (bfs_downstream wires start)
  unfolding bfs_downstream
  bfs_downstream_correct =
      walk_down_lem (suc (length wires)) (record { visited = start ∷ []; queue = start ∷ [] })
        (started-IsSearching wires start) (omega arith)
