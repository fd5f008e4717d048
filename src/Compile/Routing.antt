-- ===== src/Compile/Routing.antt =====
-- The validator and the compiler together: the answers of a gate in an accepted pipeline.
use workflow_control.Prelude.{
  String, some, true, List, [], ◌∷◌, map, ◌≡◌, refl, sym, ap, subst, ◌∙◌, ◌↔◌, ◌⊎◌, inl, inr,
  includes, includes_iff, not_includes, In, In-append, All, Distinct, map_get, Bool-cases,
}
use mathlib.Core.Option.{some-injective}
use workflow_control.Ir.{
  Pipeline, Stage, Wire, StageConfig, agent, script, gate, RouteTarget, one, many,
}
use workflow_control.Segments.{stage_names}
use workflow_control.Machine.Context.{StageMeta}
use workflow_control.Structural.Stages.{targets_of}
use workflow_control.Structural.Ancestors.{rollback_diagnostics}
use workflow_control.Structural.Ancestors.Rounds.{Forward, Forward-listed, IsAhead, itself, after}
use workflow_control.Structural.Ancestors.Rule.{
  RouteOk, RoutesCoherent, GateCoherent, rollback_diagnostics_correct,
}
use workflow_control.Compile.{routes_of, all_targets, index_stages}
use workflow_control.Compile.Feeds.{Up}
use workflow_control.Compile.Ancestors.{IsAncestor, by_wire, before, ancestors_of_correct}
use workflow_control.Compile.Routed.{HasRoutes}
use workflow_control.Compile.Index.{index_stages_correct}

-- Every wire ends at a declared stage.
abbrev pub IsDeclared : Pipeline → Type 0
IsDeclared ir =
    (n : String) → In n (map (λ (w : Wire). w.to.stage) ir.wires) → In n (stage_names ir)

module _ (ir : Pipeline) (g : String) where
  ahead_first :
      {a b : String}
      → Forward ir.wires a b
      → {c : String} → IsAhead ir.wires b c
      → IsAhead ir.wires a c
  ahead_first f itself = after itself f
  ahead_first f (after p e) = after (ahead_first f p) e

  ahead_to :
      {a b : String}
      → IsDeclared ir
      → IsAhead ir.wires a b
      → (b ≡ g) ⊎ IsAncestor ir g b
      → (a ≡ g) ⊎ IsAncestor ir g a
  ahead_to d itself q = q
  ahead_to {a} {b} d (after {b = m} p f) q =
      let u : Up ir m b = (d b (Forward-listed ir.wires m b f), f) in
      ahead_to d p (inr (elim q [ inl e ↦ by_wire (subst (Up ir m) e u) | inr k ↦ before u k ]))

  ancestor_ahead : {a : String} → IsAncestor ir g a → IsAhead ir.wires a g
  ancestor_ahead (by_wire u) = after itself u.1
  ancestor_ahead (before u p) = ahead_first u.1 (ancestor_ahead p)

  -- In a pipeline whose wires end at declared stages, the search of the validator and of the rollbacks
  -- finds a stage before a gate exactly when it is the gate itself or one of the ancestors by which the
  -- index decides who waits for an answer.
  pub IsAhead-IsAncestor :
      (t : String) → IsDeclared ir → IsAhead ir.wires t g ↔ ((t ≡ g) ⊎ IsAncestor ir g t)
  IsAhead-IsAncestor t d = (
    (λ p. ahead_to d p (inl refl)),
    λ h. elim h [ inl e ↦ subst (λ x. IsAhead ir.wires t x) e itself | inr k ↦ ancestor_ahead k ],
  )

module _ (ir : Pipeline) where
  IsAncestor-or_not : (g t : String) → IsAncestor ir g t ⊎ ¬ IsAncestor ir g t
  IsAncestor-or_not g t =
      let (seen, e, ok) = ancestors_of_correct ir g in
      elim (Bool-cases (includes seen t)) [
        | inl i ↦ inl ((ok t).0 ((includes_iff seen t).0 i))
        | inr i ↦ inr (λ a. not_includes seen t i ((ok t).1 a))
      ]

  -- All the targets are ancestors of the gate, or none is.
  abbrev AllOrNone : (gate : String) → List String → Type 0
  AllOrNone g ts =
      ((t : String) → In t ts → IsAncestor ir g t) ⊎ ((t : String) → In t ts → ¬ IsAncestor ir g t)

  route_AllOrNone :
      (g : String) (target : RouteTarget)
      → IsDeclared ir
      → ¬ In g (targets_of target)
      → RouteOk ir.wires g target
      → AllOrNone g (targets_of target)
  route_AllOrNone g (one t) d n h = elim (IsAncestor-or_not g t) [
    | inl a ↦ inl (λ x m. elim m [ inl e ↦ subst (IsAncestor ir g) e a | inr never ↦ absurd never ])
    | inr a ↦
        inr (λ x m. elim m [
          | inl e ↦ subst (λ y. ¬ IsAncestor ir g y) e a
          | inr never ↦ absurd never
        ])
  ]
  route_AllOrNone g (many ts) d n (inl h) = inl (λ t m.
      elim ((IsAhead-IsAncestor ir g t d).0 (h t m)) [
        | inl e ↦ absurd (n (subst (λ x. In x ts) e m))
        | inr a ↦ a
      ])
  route_AllOrNone g (many ts) d n (inr h) =
      inr (λ t m a. h t m ((IsAhead-IsAncestor ir g t d).1 (inr a)))

  route_of :
      (g answer : String) (target : RouteTarget) (routes : List (String × RouteTarget))
      → RoutesCoherent ir.wires g routes
      → In (answer, target) routes
      → RouteOk ir.wires g target
        × ((t : String) → In t (targets_of target) → In t (all_targets routes))
  route_of g answer target [] h i = absurd i
  route_of g answer target ((a, x) ∷ routes) h (inl e) =
      let same : x ≡ target = ap (λ (p : String × RouteTarget). p.1) e in
      (
        subst (RouteOk ir.wires g) same h.0,
        λ t m.
            (In-append t (targets_of x) (all_targets routes)).1
              (inl (subst (λ z. In t (targets_of z)) (sym same) m)),
      )
  route_of g answer target ((a, x) ∷ routes) h (inr i) =
      let (ok, sub) = route_of g answer target routes h.1 i in
      (ok, λ t m. (In-append t (targets_of x) (all_targets routes)).1 (inr (sub t m)))

  gate_coherent :
      (g : String) (c : StageConfig) (routes : List (String × RouteTarget))
      → GateCoherent ir.wires g c
      → routes_of c ≡ some routes
      → RoutesCoherent ir.wires g routes
  gate_coherent g (agent c) routes h e = cc
  gate_coherent g (script c) routes h e = cc
  gate_coherent g (gate c) routes h e =
      subst (RoutesCoherent ir.wires g) (some-injective c.routing.routes routes e) h

all_at : (P : Stage → Type 0) (ss : List Stage) (s : Stage) → All P ss → In s ss → P s
all_at P [] s h i = absurd i
all_at P (q ∷ ss) s h (inl e) = subst P e h.0
all_at P (q ∷ ss) s h (inr i) = all_at P ss s h.1 i

-- In a pipeline with distinct stage names whose wires end at declared stages, and on which the rule on
-- mixed targets is silent: for every answer of a gate that does not route to the gate itself, either all
-- its targets are ancestors of the gate, or all its targets that are stages are indexed as waiting for
-- the answer of a gate.
pub routes_coherent :
    (ir : Pipeline) (g : Stage) (routes : List (String × RouteTarget)) (answer : String)
    (target : RouteTarget)
    → Distinct (stage_names ir)
    → IsDeclared ir
    → rollback_diagnostics ir.wires ir.stages ≡ some []
    → In g ir.stages
    → HasRoutes g routes
    → In (answer, target) routes
    → ¬ In g.name (targets_of target)
    → (index : List (String × StageMeta)) × (index_stages ir ≡ some index)
      × (((t : String) → In t (targets_of target) → IsAncestor ir g.name t)
          ⊎ ((s : Stage)
              → In s ir.stages
              → In s.name (targets_of target)
              → (meta : StageMeta) × (map_get index s.name ≡ some meta)
                × (meta.gate_routed ≡ true)))
routes_coherent ir g routes answer target d decl silent i r k n =
    let (index, e, held, other) = index_stages_correct ir d in
    let (ds, f, iff) = rollback_diagnostics_correct ir.wires ir.stages in
    let all_ok = iff.0 (some-injective ds [] (sym f ∙ silent)) in
    let here_ok =
      gate_coherent ir g.name g.config routes
        (all_at (λ (s : Stage). GateCoherent ir.wires s.name s.config) ir.stages g all_ok i) r in
    let (ok, sub) = route_of ir g.name answer target routes here_ok k in
    (
      index,
      e,
      elim (route_AllOrNone ir g.name target decl n ok) [
        | inl a ↦ inl a
        | inr a ↦ inr (λ s j m.
            let (meta, p, q) = held s j in
            (meta, p, q.waits.1 (g, i, routes, r, sub s.name m, a s.name m)))
      ],
    )
