-- ===== src/Dag/Links.antt =====
-- The edges that the check reads from the wires, and their number into each stage.
use workflow_control.Prelude.{
  String, Option, none, some, true, false, ◌&&◌, List, [], ◌∷◌, ◌≡◌, ◌≢◌, ap, subst, ◌↔◌, ◌⊎◌, inl,
  inr, ◌==◌, eq_iff, includes, includes_iff, not_includes, set_add, set_add_iff, set_add_old,
  set_add_new, length, length-append, In, Distinct, map_set, map_has, map_get-map_set, keys,
  Distinct-keys-map_set, Bool-cases, Option-cases, arith, if◌then◌else◌,
}
use mathlib.Core.Path.{fun_ext}
use workflow_control.Ir.{Wire}
use workflow_control.Ir.Wires.{wire_from_stage, source_port}
use workflow_control.Kahn.Counts.{pending}
use workflow_control.Segments.Links.{pending-linked}
use workflow_control.Dag.{Edges, sets_of, add_edge, is_edge, note_wire, note_wires}

-- A wire from `a` orders the stages: it leads to another stage and carries no gate feedback.
abbrev pub Orders : String → Wire → Type 0
Orders a w = (a ≢ w.to.stage) × (source_port w.from ≢ "__gate_feedback__")

pub is_edge_iff : (a : String) (w : Wire) → (is_edge a w ≡ true) ↔ Orders a w
unfolding is_edge
is_edge_iff a w =
    ground (arith, eq_iff a w.to.stage, eq_iff (source_port w.from) "__gate_feedback__")

-- A stage-sourced wire from `a` to another stage `b` that carries no gate feedback.
abbrev pub DagEdge : List Wire → String → String → Type 0
DagEdge [] a b = ⊥
DagEdge (w ∷ ws) a b =
    ((wire_from_stage w ≡ some a) × (w.to.stage ≡ b) × Orders a w) ⊎ DagEdge ws a b

abbrev pub OnSome : {A : Type 0} → (A → Type 0) → Option A → Type 0
OnSome P none = Unit
OnSome P (some a) = P a

sets_of-map_set :
    (m : List (String × List String)) (k j : String) (l : List String)
    → sets_of (map_set m k l) j ≡ (if k == j then l else sets_of m j)
sets_of-map_set m k j l = ground (arith, map_get-map_set m k j l)

module _ (names : List String) (distinct : Distinct names) where
  pub record IsEdges (E : String → String → Type 0) (g : Edges) : Type 0 where
    pub has_up : (x : String) → (map_has g.upstream x ≡ true) ↔ In x names
    pub has_down : (x : String) → (map_has g.downstream x ≡ true) ↔ In x names
    pub edges : (a b : String) → In b (sets_of g.downstream a) ↔ E a b
    pub mirror : (a b : String) → In a (sets_of g.upstream b) ↔ E a b
    pub inside : (a b : String) → E a b → In a names × In b names
    pub keyed : Distinct (keys g.upstream)
    pub counted :
        (x : String) → length (sets_of g.upstream x) ≡ pending (sets_of g.downstream) names [] x

  module _ (E : String → String → Type 0) (g : Edges) (a b : String) (h : IsEdges E g) where
    abbrev E' : String → String → Type 0
    E' x y = E x y ⊎ (a ≡ x) × (b ≡ y)

    module _ (in_a : In a names) (in_b : In b names) where
      abbrev pub linked : Edges
      linked = record {
        upstream = map_set g.upstream b (set_add (sets_of g.upstream b) a);
        downstream = map_set g.downstream a (set_add (sets_of g.downstream a) b);
      }

      down :
          (p : String)
          → sets_of linked.downstream p
            ≡ (if a == p then set_add (sets_of g.downstream a) b else sets_of g.downstream p)
      down p = sets_of-map_set g.downstream a p (set_add (sets_of g.downstream a) b)

      up :
          (p : String)
          → sets_of linked.upstream p
            ≡ (if b == p then set_add (sets_of g.upstream b) a else sets_of g.upstream p)
      up p = sets_of-map_set g.upstream b p (set_add (sets_of g.upstream b) a)

      module _ (old : includes (sets_of g.downstream a) b ≡ true) where
        up_old : includes (sets_of g.upstream b) a ≡ true
        up_old =
            (includes_iff (sets_of g.upstream b) a).1
              ((h.mirror a b).1 ((h.edges a b).0 ((includes_iff (sets_of g.downstream a) b).0 old)))

        same_down : sets_of linked.downstream ≡ sets_of g.downstream
        same_down = fun_ext (λ p. ground (
          arith,
          down p,
          eq_iff a p,
          set_add_old (sets_of g.downstream a) b old,
          λ (e : a ≡ p). ap (sets_of g.downstream) e,
        ))

        same_up : (x : String) → sets_of linked.upstream x ≡ sets_of g.upstream x
        same_up x = ground (
          arith,
          up x,
          eq_iff b x,
          set_add_old (sets_of g.upstream b) a up_old,
          λ (e : b ≡ x). ap (sets_of g.upstream) e,
        )

      module _ (new : includes (sets_of g.downstream a) b ≡ false) where
        up_new : includes (sets_of g.upstream b) a ≡ false
        up_new = elim (Bool-cases (includes (sets_of g.upstream b) a)) [
          | inr f ↦ f
          | inl t ↦ absurd (
              not_includes (sets_of g.downstream a) b new
                ((h.edges a b).1 ((h.mirror a b).0 ((includes_iff (sets_of g.upstream b) a).0 t))))
        ]

        count_new :
            (x : String)
            → length (sets_of linked.upstream x) ≡ pending (sets_of linked.downstream) names [] x
        count_new x = ground (
          arith,
          up x,
          eq_iff b x,
          h.counted x,
          h.counted b,
          set_add_new (sets_of g.upstream b) a up_new,
          length-append (sets_of g.upstream b) (a ∷ []),
          pending-linked (sets_of g.downstream) (sets_of linked.downstream) a b
              (λ p n. ground (arith, down p, eq_iff a p)) names x
              (ground (arith, down a, eq_iff a a, set_add_new (sets_of g.downstream a) b new))
              distinct in_a,
        )

      count_linked :
          (x : String)
          → length (sets_of linked.upstream x) ≡ pending (sets_of linked.downstream) names [] x
      count_linked x = elim (Bool-cases (includes (sets_of g.downstream a) b)) [
        | inl old ↦ rw (same_down old, same_up old x) (h.counted x)
        | inr new ↦ count_new new x
      ]

      linked-IsEdges : IsEdges E' linked
      linked-IsEdges = record {
        has_up = λ x. ground (
          arith,
          map_get-map_set g.upstream b x (set_add (sets_of g.upstream b) a),
          h.has_up x,
          eq_iff b x,
        );
        has_down = λ x. ground (
          arith,
          map_get-map_set g.downstream a x (set_add (sets_of g.downstream a) b),
          h.has_down x,
          eq_iff a x,
        );
        edges = λ x y. rw (down x) (elim (Bool-cases (a == x)) [
          | inl t ↦ rw t (
              ground (
                arith,
                eq_iff a x,
                set_add_iff (sets_of g.downstream a) b y,
                h.edges a y,
                ap (λ z. E z y) ((eq_iff a x).0 t),
              ))
          | inr f ↦ rw f (ground (arith, eq_iff a x, h.edges x y))
        ]);
        mirror = λ x y. rw (up y) (elim (Bool-cases (b == y)) [
          | inl t ↦
              rw t
                (ground (arith, eq_iff b y, set_add_iff (sets_of g.upstream b) a x, h.mirror x b))
          | inr f ↦ rw f (ground (arith, eq_iff b y, h.mirror x y))
        ]);
        inside = λ x y e. elim e [
          | inl old ↦ h.inside x y old
          | inr (p, q) ↦ (subst (λ z. In z names) p in_a, subst (λ z. In z names) q in_b)
        ];
        keyed = Distinct-keys-map_set g.upstream b (set_add (sets_of g.upstream b) a) h.keyed;
        counted = count_linked;
      }

    add_edge-IsEdges : OnSome (IsEdges E') (add_edge g a b)
    unfolding add_edge
    add_edge-IsEdges = elim (Bool-cases (map_has g.upstream b && map_has g.downstream a)) [
      | inr f ↦ rw f tt
      | inl t ↦ rw t (linked-IsEdges (ground (arith, h.has_down a)) (ground (arith, h.has_up b)))
    ]

  IsEdges-iff :
      (E F : String → String → Type 0) (g : Edges)
      → ((x y : String) → E x y ↔ F x y)
      → IsEdges E g
      → IsEdges F g
  IsEdges-iff E F g same h = record {
    has_up = h.has_up;
    has_down = h.has_down;
    edges = λ x y. ground (arith, h.edges x y, same x y);
    mirror = λ x y. ground (arith, h.mirror x y, same x y);
    inside = λ x y e. h.inside x y ((same x y).1 e);
    keyed = h.keyed;
    counted = h.counted;
  }

  pub OnSome-iff :
      (E F : String → String → Type 0) (o : Option Edges)
      → ((x y : String) → E x y ↔ F x y)
      → OnSome (IsEdges E) o
      → OnSome (IsEdges F) o
  OnSome-iff E F none same h = tt
  OnSome-iff E F (some g) same h = IsEdges-iff E F g same h

  abbrev pub WithWire : (String → String → Type 0) → Wire → String → String → Type 0
  WithWire E w x y = E x y ⊎ (wire_from_stage w ≡ some x) × (w.to.stage ≡ y) × Orders x w

  pub note_wire-IsEdges :
      (E : String → String → Type 0) (g : Edges) (w : Wire)
      → IsEdges E g
      → OnSome (IsEdges (WithWire E w)) (note_wire g w)
  unfolding note_wire
  note_wire-IsEdges E g w h = elim (Option-cases (wire_from_stage w)) [
    | inl e ↦ rw (e, note_wire) (IsEdges-iff E _ g (λ x y. (inl, λ p. ground arith)) h)
    | inr (from, e) ↦
        rw (e, note_wire)
          (elim (Bool-cases (is_edge from w)) [
            | inl t ↦ rw t (
                OnSome-iff _ _ (add_edge g from w.to.stage)
                  (λ x y. ground (arith, is_edge_iff from w))
                  (add_edge-IsEdges E g from w.to.stage h))
            | inr f ↦
                rw f (IsEdges-iff E _ g (λ x y. (inl, λ p. ground (arith, is_edge_iff from w))) h)
          ])
  ]

  pub note_wires-IsEdges :
      (E : String → String → Type 0) (g : Edges) (ws : List Wire)
      → IsEdges E g
      → OnSome (IsEdges (λ x y. E x y ⊎ DagEdge ws x y)) (note_wires g ws)
  unfolding note_wires
  note_wires-IsEdges E g [] h = IsEdges-iff E _ g (λ x y. ground arith) h
  note_wires-IsEdges E g (w ∷ ws) h = elim (Option-cases (note_wire g w)) [
    | inl e ↦ rw (e, note_wires) tt
    | inr (g', e) ↦
        rw (e, note_wires)
          (OnSome-iff _ _ (note_wires g' ws) (λ x y. ground arith)
            (note_wires-IsEdges (WithWire E w) g' ws
              (subst (OnSome (IsEdges (WithWire E w))) e (note_wire-IsEdges E g w h))))
  ]
