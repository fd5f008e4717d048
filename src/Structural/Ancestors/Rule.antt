-- ===== src/Structural/Ancestors/Rule.antt =====
-- When the rule on an answer with several targets is silent.
use workflow_control.Prelude.{
  String, Option, some, Bool, true, false, not, List, [], ◌∷◌, ◌++◌, ◌≡◌, refl, subst, ◌↔◌, ◌⊎◌,
  inl, inr, all, length, ltb, In, All, Bool-cases, arith,
}
use workflow_control.Ir.{Wire, Stage, StageConfig, agent, script, gate, RouteTarget, one, many}
use workflow_control.Structural.{Diagnostic}
use workflow_control.Structural.Silence.{append_silent}
use workflow_control.Structural.Ancestors.{
  ancestor_mask, verdict_on, mixed_route, mixed_routes, gate_routes, rollback_diagnostics, join,
}
use workflow_control.Structural.Ancestors.Rounds.{IsAhead}
use workflow_control.Structural.Ancestors.Correct.{bfs_reaches_correct}

module _ (wires : List Wire) where
  -- All the targets lie before the gate, or none does.
  abbrev pub IsCoherent : (gate : String) → List String → Type 0
  IsCoherent g ts =
      ((t : String) → In t ts → IsAhead wires t g) ⊎ ((t : String) → In t ts → ¬ IsAhead wires t g)

  record IsMask (g : String) (ts : List String) (bs : List Bool) : Type 0 where
    all_ahead : (all (λ (b : Bool). b) bs ≡ true) ↔ ((t : String) → In t ts → IsAhead wires t g)
    none_ahead : (all not bs ≡ true) ↔ ((t : String) → In t ts → ¬ IsAhead wires t g)

  all_in :
      (P : String → Type 0) (t : String) (ts : List String)
      → ((x : String) → In x (t ∷ ts) → P x) ↔ (P t × ((x : String) → In x ts → P x))
  all_in P t ts = (
    λ h. (h t (inl refl), λ x m. h x (inr m)),
    λ h x m. elim m [ inl e ↦ subst P e h.0 | inr m' ↦ h.1 x m' ],
  )

  IsMask-more :
      (g t : String) (ts : List String) (b : Bool) (bs : List Bool)
      → ((b ≡ true) × IsAhead wires t g) ⊎ ((b ≡ false) × ¬ IsAhead wires t g)
      → IsMask g ts bs
      → IsMask g (t ∷ ts) (b ∷ bs)
  IsMask-more g t ts b bs d h = record {
    all_ahead = ground (arith, d, h.all_ahead, all_in (λ x. IsAhead wires x g) t ts);
    none_ahead = ground (arith, d, h.none_ahead, all_in (λ x. ¬ IsAhead wires x g) t ts);
  }

  ancestor_mask_lem :
      (g : String) (ts : List String)
      → (bs : List Bool) × (ancestor_mask wires g ts ≡ some bs) × IsMask g ts bs
  unfolding ancestor_mask
  ancestor_mask_lem g [] = (
    [],
    refl,
    record {
      all_ahead = ((λ e t m. absurd m), λ h. refl);
      none_ahead = ((λ e t m. absurd m), λ h. refl);
    },
  )
  ancestor_mask_lem g (t ∷ ts) =
      let (bs, e, h) = ancestor_mask_lem g ts in
      elim (bfs_reaches_correct wires t g) [
        | inl (f, ahead) ↦ (
          true ∷ bs,
          rw (f, ancestor_mask, e) refl,
          IsMask-more g t ts true bs (inl (refl, ahead)) h,
        )
        | inr (f, apart) ↦ (
          false ∷ bs,
          rw (f, ancestor_mask, e) refl,
          IsMask-more g t ts false bs (inr (refl, apart)) h,
        )
      ]

  short_IsCoherent : (g : String) (ts : List String) → ltb (length ts) 2 ≡ true → IsCoherent g ts
  short_IsCoherent g [] e = inl (λ t m. absurd m)
  short_IsCoherent g (t ∷ []) e = elim (bfs_reaches_correct wires t g) [
    | inl (f, ahead) ↦ inl (λ x m. elim m [
      | inl p ↦ subst (λ y. IsAhead wires y g) p ahead
      | inr never ↦ absurd never
    ])
    | inr (f, apart) ↦ inr (λ x m. elim m [
      | inl p ↦ subst (λ y. ¬ IsAhead wires y g) p apart
      | inr never ↦ absurd never
    ])
  ]
  short_IsCoherent g (t ∷ u ∷ ts) e = ground arith

  abbrev Silent : Option (List Diagnostic) → Type 0 → Type 0
  Silent o P = (ds : List Diagnostic) × (o ≡ some ds) × ((ds ≡ []) ↔ P)

  -- An answer with one target is none of this rule's.
  abbrev pub RouteOk : (gate : String) → RouteTarget → Type 0
  RouteOk g (one t) = Unit
  RouteOk g (many ts) = IsCoherent g ts

  verdict_silent :
      (g answer : String) (ts : List String) (bs : List Bool)
      → IsMask g ts bs
      → (verdict_on g answer ts bs ≡ []) ↔ IsCoherent g ts
  verdict_silent g answer ts bs h = ground (arith, h.all_ahead, h.none_ahead)

  route_silent :
      (g answer : String) (target : RouteTarget)
      → Silent (mixed_route wires g answer target) (RouteOk g target)
  unfolding mixed_route
  route_silent g answer (one t) = ([], refl, ground arith)
  route_silent g answer (many ts) = elim (Bool-cases (ltb (length ts) 2)) [
    | inl e ↦ ([], rw e refl, ((λ p. short_IsCoherent g ts e), λ h. refl))
    | inr e ↦
        let (bs, f, h) = ancestor_mask_lem g ts in
        (verdict_on g answer ts bs, rw (e, f) refl, verdict_silent g answer ts bs h)
  ]

  join_silent :
      (o u : Option (List Diagnostic)) (P Q : Type 0)
      → Silent o P
      → Silent u Q
      → Silent (join o u) (P × Q)
  join_silent o u P Q (xs, e, p) (ys, f, q) =
      (xs ++ ys, rw (e, f) refl, ground (arith, append_silent xs ys, p, q))

  abbrev pub RoutesCoherent : (gate : String) → List (String × RouteTarget) → Type 0
  RoutesCoherent g [] = Unit
  RoutesCoherent g ((answer, target) ∷ routes) = RouteOk g target × RoutesCoherent g routes

  routes_silent :
      (g : String) (routes : List (String × RouteTarget))
      → Silent (mixed_routes wires g routes) (RoutesCoherent g routes)
  unfolding mixed_routes
  routes_silent g [] = ([], refl, ground arith)
  routes_silent g ((answer, target) ∷ routes) =
      join_silent (mixed_route wires g answer target) (mixed_routes wires g routes) _ _
        (route_silent g answer target) (routes_silent g routes)

  abbrev pub GateCoherent : (name : String) → StageConfig → Type 0
  GateCoherent g (agent c) = Unit
  GateCoherent g (script c) = Unit
  GateCoherent g (gate c) = RoutesCoherent g c.routing.routes

  gate_silent : (g : String) (c : StageConfig) → Silent (gate_routes wires g c) (GateCoherent g c)
  gate_silent g (agent c) = ([], refl, ground arith)
  gate_silent g (script c) = ([], refl, ground arith)
  gate_silent g (gate c) = routes_silent g c.routing.routes

-- The rule on answers with several targets always returns, and it is silent exactly where, for
-- every such answer of every gate, wires without gate feedback lead to the gate from all its
-- targets or from none.
pub rollback_diagnostics_correct :
    (wires : List Wire) (stages : List Stage)
    → (ds : List Diagnostic) × (rollback_diagnostics wires stages ≡ some ds)
      × ((ds ≡ []) ↔ All (λ (s : Stage). GateCoherent wires s.name s.config) stages)
unfolding rollback_diagnostics
rollback_diagnostics_correct wires [] = ([], refl, ground arith)
rollback_diagnostics_correct wires (s ∷ stages) =
    join_silent wires (gate_routes wires s.name s.config) (rollback_diagnostics wires stages) _ _
      (gate_silent wires s.name s.config) (rollback_diagnostics_correct wires stages)
