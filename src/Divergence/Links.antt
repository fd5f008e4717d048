-- ===== src/Divergence/Links.antt =====
-- The graph of both pipelines, and the queue that keeps to the tie-break order.
use workflow_control.Prelude.{
  String, ◌+◌, some, ◌&&◌, List, [], ◌∷◌, ◌++◌, foldl, ◌≡◌, sym, ◌∙◌, ◌↔◌, ◌⊎◌, inl, inr, ◌==◌,
  eq_iff, includes, includes_iff, set_add, set_add_iff, set_add-Distinct, In, In-append, Distinct,
  map_get, map_set, map_get-map_set, Bool-cases, Option-cases, arith, if◌then◌else◌,
}
use workflow_control.Ir.{Wire}
use workflow_control.Ir.Wires.{wire_from_stage}
use workflow_control.Kahn.{degree}
use workflow_control.Kahn.Counts.{pending}
use workflow_control.Kahn.Release.{degree-map_set, IsEnqueue}
use workflow_control.Reach.Scan.{Edge}
use workflow_control.Segments.{Graph, add_node, successors, or_empty}
use workflow_control.Segments.Links.{
  pending-linked, pending-bare, IsBare, add_nodes-IsBare, empty-IsBare,
}
use workflow_control.Divergence.{set_of, link_known, combined_graph, insert_at}

set_fold_iff :
    (seen xs : List String) (x : String) → In x (foldl set_add seen xs) ↔ (In x seen ⊎ In x xs)
set_fold_iff seen [] x = ground arith
set_fold_iff seen (y ∷ xs) x =
    ground (arith, set_fold_iff (set_add seen y) xs x, set_add_iff seen y x)

pub set_of_iff : (xs : List String) (x : String) → In x (set_of xs) ↔ In x xs
unfolding set_of
set_of_iff xs x = ground (arith, set_fold_iff [] xs x)

set_fold-Distinct : (seen xs : List String) → Distinct seen → Distinct (foldl set_add seen xs)
set_fold-Distinct seen [] d = d
set_fold-Distinct seen (y ∷ xs) d =
    set_fold-Distinct (set_add seen y) xs (set_add-Distinct seen y d)

pub set_of-Distinct : (xs : List String) → Distinct (set_of xs)
unfolding set_of
set_of-Distinct xs = set_fold-Distinct [] xs tt

In-insert_at :
    (order q : List String) (x y : String) → In y (insert_at order q x) ↔ (In y q ⊎ (x ≡ y))
unfolding insert_at
In-insert_at order [] x y = ground arith
In-insert_at order (z ∷ q) x y = ground (arith, In-insert_at order q x y)

insert_at-Distinct :
    (order q : List String) (x : String) → Distinct q → ¬ In x q → Distinct (insert_at order q x)
unfolding insert_at
insert_at-Distinct order [] x d n = ground arith
insert_at-Distinct order (z ∷ q) x d n =
    ground (arith, insert_at-Distinct order q x, In-insert_at order q x z)

pub insert_at-IsEnqueue : (order : List String) → IsEnqueue (insert_at order)
insert_at-IsEnqueue order = record { mem = In-insert_at order; distinct = insert_at-Distinct order }

module _ (names : List String) (distinct : Distinct names) where
  -- The graph holds the edges of a relation `E` between the names, with their number into each.
  pub record IsCombined (E : String → String → Type 0) (g : Graph) : Type 0 where
    pub edges : (a b : String) → In b (successors g a) ↔ (In a names × In b names × E a b)
    pub counted : (x : String) → degree g.in_degree x ≡ pending (successors g) names [] x

  IsCombined-iff :
      (E F : String → String → Type 0) (g : Graph)
      → ((x y : String) → In x names → In y names → E x y ↔ F x y)
      → IsCombined E g
      → IsCombined F g
  IsCombined-iff E F g same h = record {
    edges = λ x y. ground (arith, h.edges x y, same x y);
    counted = h.counted;
  }

  module _ (E : String → String → Type 0) (g : Graph) (a b : String) (h : IsCombined E g)
      (in_a : In a names) (in_b : In b names) where
    abbrev linked : Graph
    linked = record {
      in_degree = map_set g.in_degree b (degree g.in_degree b + 1);
      adjacency = map_set g.adjacency a (successors g a ++ b ∷ []);
    }

    linked-successors :
        (p : String)
        → successors linked p ≡ (if a == p then successors g a ++ b ∷ [] else successors g p)
    unfolding successors
    linked-successors p =
        ground (arith, map_get-map_set g.adjacency a p (or_empty (map_get g.adjacency a) ++ b ∷ []))

    linked-edges :
        (x y : String)
        → In y (successors linked x) ↔ (In x names × In y names × (E x y ⊎ (a ≡ x) × (b ≡ y)))
    linked-edges x y = rw (linked-successors x) (elim (Bool-cases (a == x)) [
      | inl t ↦ rw t (
          ground
            (arith, In-append y (successors g a) (b ∷ []), h.edges x y, h.edges a y, eq_iff a x))
      | inr f ↦ rw f (ground (arith, h.edges x y, eq_iff a x))
    ])

    linked-IsCombined : IsCombined (λ x y. E x y ⊎ (a ≡ x) × (b ≡ y)) linked
    linked-IsCombined = record {
      edges = linked-edges;
      counted = λ x. ground (
        arith,
        degree-map_set g.in_degree b x (degree g.in_degree b + 1),
        h.counted x,
        h.counted b,
        eq_iff b x,
        pending-linked (successors g) (successors linked) a b
            (λ p n. ground (arith, linked-successors p, eq_iff a p)) names x
            (ground (arith, linked-successors a, eq_iff a a)) distinct in_a,
      );
    }

  link_known-IsCombined :
      (E : String → String → Type 0) (g : Graph) (w : Wire)
      → IsCombined E g
      → IsCombined
          (λ x y. E x y ⊎ (wire_from_stage w ≡ some x) × (w.to.stage ≡ y))
          (link_known names g w)
  unfolding link_known
  link_known-IsCombined E g w h = elim (Option-cases (wire_from_stage w)) [
    | inl e ↦ rw (e, link_known) (IsCombined-iff E _ g (λ x y m n. (inl, λ p. ground arith)) h)
    | inr (from, e) ↦
        rw (e, link_known)
          (elim (Bool-cases (includes names from && includes names w.to.stage)) [
            | inl t ↦ rw t (
                IsCombined-iff _ _ _ (λ x y m n. ground arith)
                  (linked-IsCombined E g from w.to.stage h (ground (arith, includes_iff names from))
                    (ground (arith, includes_iff names w.to.stage))))
            | inr f ↦ rw f (
                IsCombined-iff E _ g
                  (λ x y m n. (
                    inl,
                    λ p. ground (arith, includes_iff names from, includes_iff names w.to.stage),
                  ))
                  h)
          ])
  ]

  links-IsCombined :
      (E : String → String → Type 0) (g : Graph) (ws : List Wire)
      → IsCombined E g
      → IsCombined (λ x y. E x y ⊎ Edge ws x y) (foldl (link_known names) g ws)
  links-IsCombined E g [] h = IsCombined-iff E _ g (λ x y m n. ground arith) h
  links-IsCombined E g (w ∷ ws) h =
      IsCombined-iff _ _ (foldl (link_known names) (link_known names g w) ws)
        (λ x y m n. ground arith)
        (links-IsCombined _ (link_known names g w) ws (link_known-IsCombined E g w h))

pub combined_graph-IsCombined :
    (names : List String) (d : Distinct names) (ws : List Wire)
    → IsCombined names d (Edge ws) (combined_graph names ws)
unfolding combined_graph
combined_graph-IsCombined names d ws =
    IsCombined-iff names d _ (Edge ws) (foldl (link_known names) nodes ws) (λ x y m n. ground arith)
      (links-IsCombined names d (λ x y. ⊥) nodes ws start)
  where
    blank : Graph
    blank = record { in_degree = []; adjacency = [] }

    nodes : Graph
    nodes = foldl add_node blank names

    bare : IsBare nodes
    bare = add_nodes-IsBare blank names empty-IsBare

    start : IsCombined names d (λ x y. ⊥) nodes
    start = record {
      edges = λ x y. rw (bare.none x) ((λ m. absurd m), λ (p, q, never). absurd never);
      counted = λ x. bare.zero_degree x ∙ sym (pending-bare (successors nodes) names x bare.none);
    }
