-- ===== src/Compile/Routed.antt =====
-- The targets of the gates: which stages wait for an answer.
use workflow_control.Prelude.{
  String, none, some, is_some, true, false, List, [], ◌∷◌, ◌≡◌, refl, sym, subst, ◌∙◌, ◌↔◌, ◌⊎◌,
  inl, inr, ◌==◌, eq_iff, eq_self, In, map_get, map_set, map_get-map_set, Bool-cases, Option-cases,
  arith,
}
use mathlib.Core.Option.{some-injective}
use workflow_control.Ir.{Pipeline, Stage, RouteTarget}
use workflow_control.Segments.{or_empty}
use workflow_control.Compile.{
  routes_of, gather_ancestors, compute_gate_ancestors, add_routes, gate_routed_targets, all_targets,
}
use workflow_control.Compile.Forward.{add_routes_iff}
use workflow_control.Compile.Ancestors.{IsAncestor, ancestors_of_correct}

-- The stage is a gate with these routes.
abbrev pub HasRoutes : Stage → List (String × RouteTarget) → Type 0
HasRoutes s routes = routes_of s.config ≡ some routes

-- A gate of the pipeline has the stage among its targets, and the stage is no ancestor of that gate.
abbrev pub IsRouted : Pipeline → String → Type 0
IsRouted ir t =
    (g : Stage) × In g ir.stages
    × (routes : List (String × RouteTarget)) × HasRoutes g routes
    × In t (all_targets routes)
    × ¬ IsAncestor ir g.name t

module _ (ir : Pipeline) where
  abbrev Listed : List (String × List String) → String → Type 0
  Listed found n = is_some (map_get found n) ≡ true

  abbrev Good : List (String × List String) → Type 0
  Good found =
      (n : String) (l : List String)
      → map_get found n ≡ some l
      → (x : String) → In x l ↔ IsAncestor ir n x

  abbrev Gathers : List (String × List String) → List Stage → List (String × List String) → Type 0
  Gathers found stages m =
      Good m
      × ((n : String) → Listed found n → Listed m n)
      × ((s : Stage) (routes : List (String × RouteTarget))
          → In s stages
          → HasRoutes s routes
          → Listed m s.name)

  Good-set :
      (found : List (String × List String)) (n : String) (l : List String)
      → Good found
      → ((x : String) → In x l ↔ IsAncestor ir n x)
      → Good (map_set found n l)
  Good-set found n l h k j b e x = elim (Bool-cases (n == j)) [
    | inl t ↦
        let same : l ≡ b = some-injective l b (ground (arith, map_get-map_set found n j l, e, t)) in
        subst (λ z. In x z ↔ IsAncestor ir j x) same
          (subst (λ z. In x l ↔ IsAncestor ir z x) ((eq_iff n j).0 t) (k x))
    | inr t ↦ h j b (ground (arith, map_get-map_set found n j l, e, t)) x
  ]

  gather_lem :
      (found : List (String × List String)) (stages : List Stage)
      → Good found
      → (m : List (String × List String)) × (gather_ancestors ir found stages ≡ some m)
        × Gathers found stages m
  unfolding gather_ancestors
  gather_lem found [] h = (found, refl, (h, (λ n l. l), λ s routes i. absurd i))
  gather_lem found (s ∷ stages) h = elim (Option-cases (routes_of s.config)) [
    | inl e ↦
        let (m, f, (good, old, new)) = gather_lem found stages h in
        (
          m,
          rw (e, gather_ancestors) f,
          (
            good,
            old,
            λ q routes i r. elim i [
              | inl same ↦
                  let never : none ≡ some routes =
                    sym e ∙ subst (λ (z : Stage). HasRoutes z routes) (sym same) r in
                  cc
              | inr j ↦ new q routes j r
            ],
          ),
        )
    | inr (routes, e) ↦
        let (seen, f, ok) = ancestors_of_correct ir s.name in
        let (m, k, (good, old, new)) =
          gather_lem (map_set found s.name seen) stages (Good-set found s.name seen h ok) in
        (
          m,
          rw (e, gather_ancestors, f) k,
          (
            good,
            (λ n l. old n (ground (arith, map_get-map_set found s.name n seen))),
            λ q rs i r. elim i [
              | inl same ↦
                  subst (λ (z : Stage). Listed m z.name) same
                    (old s.name
                      (ground (arith, map_get-map_set found s.name s.name seen, eq_self s.name)))
              | inr j ↦ new q rs j r
            ],
          ),
        )
  ]

  -- A gate among the stages routes to the name, which is not in what was found for the gate.
  abbrev RoutedBy : List (String × List String) → List Stage → String → Type 0
  RoutedBy m stages t =
      (g : Stage) × In g stages
      × (routes : List (String × RouteTarget)) × HasRoutes g routes
      × In t (all_targets routes)
      × ¬ In t (or_empty (map_get m g.name))

  gate_routed_targets_iff :
      (m : List (String × List String)) (routed : List String) (stages : List Stage) (t : String)
      → In t (gate_routed_targets m routed stages) ↔ (In t routed ⊎ RoutedBy m stages t)
  unfolding gate_routed_targets
  gate_routed_targets_iff m routed [] t =
      (inl, λ h. elim h [ inl o ↦ o | inr (g, i, routes, r, k, n) ↦ absurd i ])
  gate_routed_targets_iff m routed (s ∷ stages) t = elim (Option-cases (routes_of s.config)) [
    | inl e ↦
        rw (e, gate_routed_targets)
          (let ih = gate_routed_targets_iff m routed stages t in
            (
              (λ h. elim (ih.0 h) [
                | inl o ↦ inl o
                | inr (g, i, routes, r, k, n) ↦ inr (g, inr i, routes, r, k, n)
              ]),
              λ h. elim h [
                | inl o ↦ ih.1 (inl o)
                | inr (g, inl same, routes, r, k, n) ↦
                    let never : none ≡ some routes =
                      sym e ∙ subst (λ (z : Stage). HasRoutes z routes) (sym same) r in
                    cc
                | inr (g, inr i, routes, r, k, n) ↦ ih.1 (inr (g, i, routes, r, k, n))
              ],
            ))
    | inr (rs, e) ↦
        rw (e, gate_routed_targets)
          (let here_iff = add_routes_iff (or_empty (map_get m s.name)) routed rs t in
            let ih =
              gate_routed_targets_iff m (add_routes (or_empty (map_get m s.name)) routed rs) stages
                t in
            (
              (λ h. elim (ih.0 h) [
                | inl o ↦ elim (here_iff.0 o) [
                  | inl p ↦ inl p
                  | inr (k, n) ↦ inr (s, inl refl, rs, e, k, n)
                ]
                | inr (g, i, routes, r, k, n) ↦ inr (g, inr i, routes, r, k, n)
              ]),
              λ h. elim h [
                | inl o ↦ ih.1 (inl (here_iff.1 (inl o)))
                | inr (g, inl same, routes, r, k, n) ↦
                    let eq : rs ≡ routes =
                      some-injective rs routes
                        (sym e ∙ subst (λ (z : Stage). HasRoutes z routes) (sym same) r) in
                    ih.1 (
                      inl (
                        here_iff.1 (
                          inr (
                            subst (λ z. In t (all_targets z)) (sym eq) k,
                            subst (λ (z : Stage). ¬ In t (or_empty (map_get m z.name))) (sym same)
                                n,
                          ))))
                | inr (g, inr i, routes, r, k, n) ↦ ih.1 (inr (g, i, routes, r, k, n))
              ],
            ))
  ]

  found_iff :
      (m : List (String × List String)) (n x : String)
      → Good m
      → Listed m n
      → In x (or_empty (map_get m n)) ↔ IsAncestor ir n x
  found_iff m n x good l = elim (Option-cases (map_get m n)) [
    | inl e ↦ let never : false ≡ true = rw e at l in cc
    | inr (seen, e) ↦ rw e (good n seen e x)
  ]

  -- The loop over the gates returns, and collects exactly the routed stages.
  pub IsRouted-correct :
      (m : List (String × List String)) × (compute_gate_ancestors ir ≡ some m)
      × ((t : String) → In t (gate_routed_targets m [] ir.stages) ↔ IsRouted ir t)
  unfolding compute_gate_ancestors map_get
  IsRouted-correct =
      let (m, e, (good, old, new)) = gather_lem [] ir.stages (λ n l f. cc) in
      (
        m,
        e,
        λ t.
            let iff = gate_routed_targets_iff m [] ir.stages t in
            (
              (λ h. elim (iff.0 h) [
                | inl never ↦ absurd never
                | inr (g, i, routes, r, k, n) ↦ (
                  g,
                  i,
                  routes,
                  r,
                  k,
                  λ a. n ((found_iff m g.name t good (new g routes i r)).1 a),
                )
              ]),
              λ (g, i, routes, r, k, n). iff.1 (
                  inr (
                    g,
                    i,
                    routes,
                    r,
                    k,
                    λ a. n ((found_iff m g.name t good (new g routes i r)).0 a),
                  )),
            ),
      )
