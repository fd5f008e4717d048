-- ===== src/Segments/Links.antt =====
-- The graph of the stages and its in-degrees.
use workflow_control.Prelude.{
  String, ◌+◌, some, true, ◌&&◌, List, [], ◌∷◌, ◌++◌, foldl, ◌≡◌, ◌≢◌, refl, sym, ap, ◌∙◌, ◌↔◌, ◌⊎◌,
  inl, inr, ◌==◌, eq_iff, includes, includes_iff, In, In-append, Distinct, map_get, map_set,
  map_has, map_get-map_set, Bool-cases, Option-cases, arith, if◌then◌else◌,
}
use workflow_control.Ir.{Pipeline, Wire}
use workflow_control.Ir.Wires.{wire_from_stage}
use workflow_control.Kahn.{degree}
use workflow_control.Kahn.Counts.{count, pending}
use workflow_control.Kahn.Release.{degree-map_set}
use workflow_control.Reach.Scan.{Edge}
use workflow_control.Segments.{
  Graph, successors, add_node, link_edge, link_wire, stage_graph, stage_names, or_empty,
}

count-append : (x : String) (xs ys : List String) → count x (xs ++ ys) ≡ count x xs + count x ys
count-append x [] ys = ground arith
count-append x (y ∷ xs) ys = ground (arith, count-append x xs ys)

module _ (succ succ' : String → List String) (a b : String)
    (other : (p : String) → p ≢ a → succ' p ≡ succ p) where
  pending-unlinked :
      (ps : List String) (x : String) → ¬ In a ps → pending succ' ps [] x ≡ pending succ ps [] x
  pending-unlinked [] x h = refl
  pending-unlinked (p ∷ ps) x h = ground (arith, other p, pending-unlinked ps x)

  pub pending-linked :
      (ps : List String) (x : String)
      → succ' a ≡ succ a ++ b ∷ []
      → Distinct ps
      → In a ps
      → pending succ' ps [] x ≡ pending succ ps [] x + count x (b ∷ [])
  unfolding includes
  pending-linked [] x here d m = absurd m
  pending-linked (p ∷ ps) x here d (inl e) =
      ground (arith, pending-unlinked ps x, count-append x (succ a) (b ∷ []), ap (count x) here)
  pending-linked (p ∷ ps) x here d (inr m) = ground (arith, pending-linked ps x, other p)

-- The edges that the scheduler sees: stage-sourced wires between two declared stages.
abbrev pub Link : List String → List Wire → String → String → Type 0
Link names ws a b = In a names × In b names × (a ≢ b) × Edge ws a b

module _ (names : List String) (distinct : Distinct names) where
  -- The graph holds the edges of a relation `E`, with their number into each stage.
  pub record IsGraph (E : String → String → Type 0) (g : Graph) : Type 0 where
    pub has : (x : String) → (map_has g.in_degree x ≡ true) ↔ In x names
    pub edges : (a b : String) → In b (successors g a) ↔ (In a names × In b names × (a ≢ b) × E a b)
    pub counted : (x : String) → degree g.in_degree x ≡ pending (successors g) names [] x

  module _ (E : String → String → Type 0) (g : Graph) (a b : String) (h : IsGraph E g) where
    abbrev E' : String → String → Type 0
    E' x y = E x y ⊎ (a ≡ x) × (b ≡ y)

    -- The edge is there already, or is none that counts.
    kept : (In a names → In b names → a ≢ b → In b (successors g a)) → IsGraph E' g
    kept old = record {
      has = h.has;
      edges = λ x y. (
        λ m. let (p, q, r, e) = (h.edges x y).0 m in (p, q, r, inl e),
        λ (p, q, r, e). elim e [
          | inl e ↦ (h.edges x y).1 (p, q, r, e)
          | inr (s, t) ↦ ground (arith, old)
        ],
      );
      counted = h.counted;
    }

    module _ (in_a : In a names) (in_b : In b names) (ne : a ≢ b) where
      abbrev linked : Graph
      linked = record {
        in_degree = map_set g.in_degree b (degree g.in_degree b + 1);
        adjacency = map_set g.adjacency a (successors g a ++ b ∷ []);
      }

      linked-successors :
          (p : String)
          → successors linked p ≡ (if a == p then successors g a ++ b ∷ [] else successors g p)
      unfolding successors
      linked-successors p =
          ground
            (arith, map_get-map_set g.adjacency a p (or_empty (map_get g.adjacency a) ++ b ∷ []))

      other : (p : String) → p ≢ a → successors linked p ≡ successors g p
      other p n = ground (arith, linked-successors p, eq_iff a p)

      here : successors linked a ≡ successors g a ++ b ∷ []
      here = ground (arith, linked-successors a, eq_iff a a)

      added : IsGraph E' linked
      added = record {
        has = λ x. ground (
          arith,
          map_get-map_set g.in_degree b x (degree g.in_degree b + 1),
          h.has x,
          eq_iff b x,
        );
        edges = λ x y. rw (linked-successors x) (elim (Bool-cases (a == x)) [
          | inl t ↦ rw t (
              (
                λ m. elim ((In-append y (successors g a) (b ∷ [])).0 m) [
                  | inl o ↦ ground (arith, (h.edges a y).0 o, eq_iff a x)
                  | inr o ↦ ground (arith, eq_iff a x)
                ],
                λ (p, q, r, e).
                    (In-append y (successors g a) (b ∷ [])).1
                      (ground (arith, h.edges a y, eq_iff a x)),
              ))
          | inr f ↦ rw f (ground (arith, h.edges x y, eq_iff a x))
        ]);
        counted = λ x. ground (
          arith,
          degree-map_set g.in_degree b x (degree g.in_degree b + 1),
          h.counted x,
          h.counted b,
          eq_iff b x,
          pending-linked (successors g) (successors linked) a b other names x here distinct in_a,
        );
      }

    link_edge-IsGraph : IsGraph E' (link_edge g a b)
    unfolding link_edge
    link_edge-IsGraph = elim (Bool-cases (map_has g.in_degree a && map_has g.in_degree b)) [
      | inr f ↦ rw f (kept (λ p q r. ground (arith, h.has a, h.has b)))
      | inl t ↦ rw t (elim (Bool-cases (a == b)) [
        | inl e ↦ rw e (kept (λ p q r. absurd (r ((eq_iff a b).0 e))))
        | inr n ↦ rw n (elim (Bool-cases (includes (successors g a) b)) [
          | inl i ↦ rw i (kept (λ p q r. (includes_iff (successors g a) b).0 i))
          | inr i ↦ rw i (
              added (ground (arith, h.has a)) (ground (arith, h.has b))
                (λ r. ground (arith, eq_iff a b)))
        ])
      ])
    ]

  IsGraph-iff :
      (E F : String → String → Type 0) (g : Graph)
      → ((x y : String) → E x y ↔ F x y)
      → IsGraph E g
      → IsGraph F g
  IsGraph-iff E F g same h = record {
    has = h.has;
    edges = λ x y. ground (arith, h.edges x y, same x y);
    counted = h.counted;
  }

  link_wire-IsGraph :
      (E : String → String → Type 0) (g : Graph) (w : Wire)
      → IsGraph E g
      → IsGraph (λ x y. E x y ⊎ (wire_from_stage w ≡ some x) × (w.to.stage ≡ y)) (link_wire g w)
  unfolding link_wire
  link_wire-IsGraph E g w h = elim (Option-cases (wire_from_stage w)) [
    | inl e ↦ rw (e, link_wire) (IsGraph-iff E _ g (λ x y. (inl, λ p. ground arith)) h)
    | inr (a, e) ↦
        rw (e, link_wire)
          (IsGraph-iff _ _ (link_edge g a w.to.stage) (λ x y. ground arith)
            (link_edge-IsGraph E g a w.to.stage h))
  ]

  link_wires-IsGraph :
      (E : String → String → Type 0) (g : Graph) (ws : List Wire)
      → IsGraph E g
      → IsGraph (λ x y. E x y ⊎ Edge ws x y) (foldl link_wire g ws)
  link_wires-IsGraph E g [] h = IsGraph-iff E _ g (λ x y. ground arith) h
  link_wires-IsGraph E g (w ∷ ws) h =
      IsGraph-iff _ _ (foldl link_wire (link_wire g w) ws) (λ x y. ground arith)
        (link_wires-IsGraph _ (link_wire g w) ws (link_wire-IsGraph E g w h))

-- A graph with no edges.
pub record IsBare (g : Graph) : Type 0 where
  pub none : (x : String) → successors g x ≡ []
  pub zero_degree : (x : String) → degree g.in_degree x ≡ 0

add_node-IsBare : (g : Graph) (n : String) → IsBare g → IsBare (add_node g n)
unfolding add_node successors
add_node-IsBare g n h = record {
  none = λ x. ground (arith, map_get-map_set g.adjacency n x [], h.none x);
  zero_degree = λ x. ground (arith, degree-map_set g.in_degree n x 0, h.zero_degree x);
}

pub add_nodes-IsBare : (g : Graph) (ns : List String) → IsBare g → IsBare (foldl add_node g ns)
unfolding add_node
add_nodes-IsBare g [] h = h
add_nodes-IsBare g (n ∷ ns) h = add_nodes-IsBare (add_node g n) ns (add_node-IsBare g n h)

pub empty-IsBare : IsBare (record { in_degree = []; adjacency = [] })
unfolding successors degree map_get
empty-IsBare = record { none = λ x. refl; zero_degree = λ x. refl }

add_nodes-has :
    (g : Graph) (ns : List String) (x : String)
    → (map_has (foldl add_node g ns).in_degree x ≡ true)
      ↔ ((map_has g.in_degree x ≡ true) ⊎ In x ns)
unfolding add_node
add_nodes-has g [] x = ground arith
add_nodes-has g (n ∷ ns) x =
    ground (arith, add_nodes-has (add_node g n) ns x, map_get-map_set g.in_degree n x 0, eq_iff n x)

pub pending-bare :
    (succ : String → List String) (ps : List String) (x : String)
    → ((p : String) → succ p ≡ [])
    → pending succ ps [] x ≡ 0
unfolding includes
pending-bare succ [] x h = refl
pending-bare succ (p ∷ ps) x h = ground (arith, h p, pending-bare succ ps x h)

pub stage_graph-IsGraph :
    (ir : Pipeline) (d : Distinct (stage_names ir))
    → IsGraph (stage_names ir) d (Edge ir.wires) (stage_graph ir)
unfolding stage_graph map_get
stage_graph-IsGraph ir d =
    IsGraph-iff (stage_names ir) d _ (Edge ir.wires) (stage_graph ir) (λ x y. ground arith)
      (link_wires-IsGraph (stage_names ir) d (λ x y. ⊥) nodes ir.wires start)
  where
    empty : Graph
    empty = record { in_degree = []; adjacency = [] }

    nodes : Graph
    nodes = foldl add_node empty (stage_names ir)

    bare : IsBare nodes
    bare = add_nodes-IsBare empty (stage_names ir) empty-IsBare

    start : IsGraph (stage_names ir) d (λ x y. ⊥) nodes
    start = record {
      has = λ x. ground (arith, add_nodes-has empty (stage_names ir) x);
      edges = λ x y. rw (bare.none x) ((λ m. absurd m), λ (p, q, r, never). absurd never);
      counted = λ x.
          bare.zero_degree x ∙ sym (pending-bare (successors nodes) (stage_names ir) x bare.none);
    }
