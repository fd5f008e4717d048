-- ===== src/Dag/Notes.antt =====
-- The edges that are read from the wires of a pipeline, from its blank sets on.
use workflow_control.Prelude.{
  String, some, true, List, [], ◌∷◌, foldl, ◌≡◌, refl, sym, subst, ◌↔◌, ◌⊎◌, inl, inr, eq_iff, In,
  Distinct, map_get, map_set, map_has, map_get-map_set, keys, Distinct-keys-map_set, Bool-cases,
  Option-cases, arith,
}
use workflow_control.Ir.{Pipeline, Wire}
use workflow_control.Ir.Wires.{wire_from_stage}
use workflow_control.Segments.{stage_names}
use workflow_control.Segments.Links.{pending-bare}
use workflow_control.Dag.{Edges, sets_of, add_edge, is_edge, note_wire, note_wires, blank_sets}
use workflow_control.Dag.Links.{
  linked, Orders, is_edge_iff, DagEdge, OnSome, IsEdges, OnSome-iff, WithWire, note_wire-IsEdges,
  note_wires-IsEdges,
}

module _ (names : List String) (distinct : Distinct names) where
  add_edge-total :
      (E : String → String → Type 0) (g : Edges) (a b : String)
      → IsEdges names distinct E g
      → In a names
      → In b names
      → (g' : Edges) × (add_edge g a b ≡ some g')
  unfolding add_edge
  add_edge-total E g a b h in_a in_b = (
    linked names distinct E g a b h in_a in_b,
    rw ((h.has_up b).1 in_b, (h.has_down a).1 in_a) refl,
  )

  -- Where the ends of a wire are declared, it is noted with no exception.
  note_wire-total :
      (E : String → String → Type 0) (g : Edges) (w : Wire)
      → IsEdges names distinct E g
      → ((a : String) → wire_from_stage w ≡ some a → Orders a w → In a names × In w.to.stage names)
      → (g' : Edges) × (note_wire g w ≡ some g')
  unfolding note_wire
  note_wire-total E g w h declared = elim (Option-cases (wire_from_stage w)) [
    | inl e ↦ (g, rw (e, note_wire))
    | inr (from, e) ↦ elim (Bool-cases (is_edge from w)) [
      | inr f ↦ (g, rw (e, note_wire, f))
      | inl t ↦
          let (a, b) = declared from e ((is_edge_iff from w).0 t) in
          let (g', total) = add_edge-total E g from w.to.stage h a b in
          (g', rw (e, note_wire, t) total)
    ]
  ]

  note_wires-total :
      (E : String → String → Type 0) (g : Edges) (ws : List Wire)
      → IsEdges names distinct E g
      → ((a b : String) → DagEdge ws a b → In a names × In b names)
      → (g' : Edges) × (note_wires g ws ≡ some g')
  unfolding note_wires
  note_wires-total E g [] h declared = (g, refl)
  note_wires-total E g (w ∷ ws) h declared =
      let (g', e) = note_wire-total E g w h (λ a p q. declared a w.to.stage (inl (p, refl, q))) in
      rw (e, note_wires)
        (note_wires-total (WithWire names distinct E w) g' ws
          (subst (OnSome (IsEdges names distinct (WithWire names distinct E w))) e
            (note_wire-IsEdges names distinct E g w h))
          (λ a b q. declared a b (inr q)))

blank-has :
    (m : List (String × List String)) (ns : List String) (x : String)
    → (map_has (foldl (λ d n. map_set d n []) m ns) x ≡ true) ↔ ((map_has m x ≡ true) ⊎ In x ns)
blank-has m [] x = ground arith
blank-has m (n ∷ ns) x =
    ground (arith, blank-has (map_set m n []) ns x, map_get-map_set m n x [], eq_iff n x)

blank-none :
    (m : List (String × List String)) (ns : List String)
    → ((x : String) → sets_of m x ≡ [])
    → (x : String) → sets_of (foldl (λ d n. map_set d n []) m ns) x ≡ []
blank-none m [] h x = h x
blank-none m (n ∷ ns) h x =
    blank-none (map_set m n []) ns (λ y. ground (arith, map_get-map_set m n y [], h y)) x

blank-keyed :
    (m : List (String × List String)) (ns : List String)
    → Distinct (keys m)
    → Distinct (keys (foldl (λ d n. map_set d n []) m ns))
blank-keyed m [] d = d
blank-keyed m (n ∷ ns) d = blank-keyed (map_set m n []) ns (Distinct-keys-map_set m n [] d)

abbrev pub blank_edges : List String → Edges
blank_edges names = record { upstream = blank_sets names; downstream = blank_sets names }

blank_edges-IsEdges :
    (names : List String) (d : Distinct names) → IsEdges names d (λ x y. ⊥) (blank_edges names)
unfolding map_get
blank_edges-IsEdges names d = record {
  has_up = λ x. ground (arith, blank-has [] names x);
  has_down = λ x. ground (arith, blank-has [] names x);
  edges = λ a b. rw (blank-none [] names (λ x. refl) a) ((λ m. m), λ m. m);
  mirror = λ a b. rw (blank-none [] names (λ x. refl) b) ((λ m. m), λ m. m);
  inside = λ a b e. absurd e;
  keyed = blank-keyed [] names tt;
  counted = λ x.
      rw (blank-none [] names (λ y. refl) x)
        (sym (pending-bare (sets_of (blank_sets names)) names x (blank-none [] names (λ y. refl))));
}

pub note_wires-blank :
    (ir : Pipeline) (d : Distinct (stage_names ir))
    → OnSome
        (IsEdges (stage_names ir) d (DagEdge ir.wires))
        (note_wires (blank_edges (stage_names ir)) ir.wires)
note_wires-blank ir d =
    OnSome-iff (stage_names ir) d _ _ (note_wires (blank_edges (stage_names ir)) ir.wires)
      (λ x y. ground arith)
      (note_wires-IsEdges (stage_names ir) d (λ x y. ⊥) (blank_edges (stage_names ir)) ir.wires
        (blank_edges-IsEdges (stage_names ir) d))

pub note_wires-declared :
    (ir : Pipeline) (d : Distinct (stage_names ir))
    → ((a b : String) → DagEdge ir.wires a b → In a (stage_names ir) × In b (stage_names ir))
    → (g : Edges) × (note_wires (blank_edges (stage_names ir)) ir.wires ≡ some g)
note_wires-declared ir d =
    note_wires-total (stage_names ir) d (λ x y. ⊥) (blank_edges (stage_names ir)) ir.wires
      (blank_edges-IsEdges (stage_names ir) d)
