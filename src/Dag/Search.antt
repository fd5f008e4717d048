-- ===== src/Dag/Search.antt =====
-- The depth of the search for a cycle, measured by the stages that are not yet visited.
use workflow_control.Prelude.{
  String, ℕ, zero, suc, ◌≤◌, ◌<◌, false, List, [], ◌∷◌, ◌≡◌, ◌≢◌, refl, ◌⊎◌, inl, inr, includes,
  includes_iff, set_add, set_add_iff, length, ap, List-cases, Option, none, some, In, Bool-cases,
  arith, if◌then◌else◌,
}
use workflow_control.Dag.{
  Edges, Found, exhausted, absent, found, Dfs, enter, leave, dfs_each, dfs, downs, extract_cycle,
  start_dfs, cycle, sort_names,
}
use workflow_control.Dag.Sort.{In-sort_names}

-- The stages of the list that were not visited.
abbrev unvisited : List String → List String → ℕ
unvisited visited [] = 0
unvisited visited (x ∷ xs) =
    let rest = unvisited visited xs in if includes visited x then rest else suc rest

unvisited-add-le :
    (visited : List String) (n : String) (xs : List String)
    → unvisited (set_add visited n) xs ≤ unvisited visited xs
unvisited-add-le visited n [] = omega arith
unvisited-add-le visited n (x ∷ xs) = ground (
  arith,
  unvisited-add-le visited n xs,
  includes_iff (set_add visited n) x,
  includes_iff visited x,
  set_add_iff visited n x,
)

unvisited-add-lt :
    (visited : List String) (n : String) (xs : List String)
    → In n xs
    → includes visited n ≡ false
    → unvisited (set_add visited n) xs < unvisited visited xs
unvisited-add-lt visited n [] m e = absurd m
unvisited-add-lt visited n (x ∷ xs) (inl p) e = ground (
  arith,
  unvisited-add-le visited n xs,
  includes_iff (set_add visited n) x,
  set_add_iff visited n x,
  ap (includes visited) p,
)
unvisited-add-lt visited n (x ∷ xs) (inr m) e = ground (
  arith,
  unvisited-add-lt visited n xs,
  includes_iff (set_add visited n) x,
  includes_iff visited x,
  set_add_iff visited n x,
)

unvisited-le-length : (visited xs : List String) → unvisited visited xs ≤ length xs
unvisited-le-length visited [] = omega arith
unvisited-le-length visited (x ∷ xs) = ground (arith, unvisited-le-length visited xs)

module _ (g : Edges) (remaining : List String) where
  -- The call ends, and what was visited stays so.
  abbrev Ends : Dfs → Found × Dfs → Type 0
  Ends st r = (r.0 ≢ exhausted) × (unvisited r.1.visited remaining ≤ unvisited st.visited remaining)

  leave-Ends : (node : String) (st : Dfs) (r : Found × Dfs) → Ends st r → Ends st (leave node r)
  unfolding leave
  leave-Ends node st (absent, st') h = h
  leave-Ends node st (exhausted, st') h = h
  leave-Ends node st (found c, st') h = h

  Found-cases : (r : Found) → (r ≡ exhausted) ⊎ ((r ≡ absent) ⊎ ((c : List String) × (r ≡ found c)))
  Found-cases exhausted = inl refl
  Found-cases absent = inr (inl refl)
  Found-cases (found c) = inr (inr (c, refl))

  dfs_each-Ends :
      (call : String → Dfs → Found × Dfs) (bound : ℕ)
      → ((m : String) (st : Dfs)
          → In m remaining
          → unvisited st.visited remaining < bound
          → Ends st (call m st))
      → (ms : List String) (st : Dfs) → unvisited st.visited remaining < bound
      → Ends st (dfs_each call remaining ms st)
  unfolding dfs_each
  dfs_each-Ends call bound q [] st lt = ((λ e. cc), omega arith)
  dfs_each-Ends call bound q (m ∷ ms) st lt = elim (Bool-cases (includes remaining m)) [
    | inr out ↦ rw out (dfs_each-Ends call bound q ms st lt)
    | inl node ↦
        let h = q m st ((includes_iff remaining m).0 node) lt in
        rw node (elim (Found-cases (call m st).0) [
          | inl e ↦ absurd (h.0 e)
          | inr (inl e) ↦
              let rest = dfs_each-Ends call bound q ms (call m st).1 (omega (arith, h.1)) in
              rw (e, dfs_each) (rest.0, omega (arith, h.1, rest.1))
          | inr (inr (c, e)) ↦ rw (e, dfs_each) ((λ p. cc), h.1)
        ])
  ]

  dfs-Ends :
      (fuel : ℕ) (node : String) (st : Dfs)
      → In node remaining
      → unvisited st.visited remaining < fuel
      → Ends st (dfs g remaining fuel node st)
  unfolding dfs
  dfs-Ends zero node st m lt = absurd (omega arith)
  dfs-Ends (suc fuel) node st m lt = elim (Bool-cases (includes st.on_stack node)) [
    | inl on ↦ rw on ((λ e. cc), omega arith)
    | inr off ↦ rw off (elim (Bool-cases (includes st.visited node)) [
      | inl seen ↦ rw seen ((λ e. cc), omega arith)
      | inr new ↦
          let less = unvisited-add-lt st.visited node remaining m new in
          let inner =
            dfs_each-Ends (dfs g remaining fuel) fuel (dfs-Ends fuel) (downs g node) (enter st node)
              (omega (arith, less)) in
          let outer = leave-Ends node (enter st node) _ inner in
          rw new (outer.0, omega (arith, outer.1, less))
    ])
  ]

  pub extract_cycle_ends : (c : Option (List String)) × (extract_cycle remaining g ≡ cycle c)
  unfolding extract_cycle
  extract_cycle_ends = elim (List-cases (sort_names remaining)) [
    | inl e ↦ (none, rw (e, extract_cycle))
    | inr (start, rest, e) ↦
        let node : In start remaining = (In-sort_names start remaining).0 (rw e (inl refl)) in
        let ends =
          dfs-Ends (suc (length remaining)) start start_dfs node
            (omega (arith, unvisited-le-length [] remaining)) in
        elim (Found-cases (dfs g remaining (suc (length remaining)) start start_dfs).0) [
          | inl f ↦ absurd (ends.0 f)
          | inr (inl f) ↦ (some (start ∷ []), rw (e, extract_cycle, f))
          | inr (inr (c, f)) ↦ (some c, rw (e, extract_cycle, f))
        ]
  ]
