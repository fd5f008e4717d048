-- ===== src/Dag/Sorted.antt =====
-- Lists of stages that are sorted along the edges, and the wires of a stage to itself.
use workflow_control.Prelude.{
  String, ℕ, suc, ◌<◌, none, List, [], ◌∷◌, ◌++◌, ◌≡◌, refl, sym, subst, ◌↔◌, ◌⊎◌, inl, inr, ◌==◌,
  eq_iff, In, In-append, Distinct, Bool-cases, Option-cases, arith, if◌then◌else◌,
}
use workflow_control.Ir.{Wire}
use workflow_control.Ir.Wires.{wire_from_stage}
use workflow_control.Reach.Scan.{Edge}
use workflow_control.Dag.{self_wire}
use workflow_control.Dag.Links.{DagEdge}

pub self_wire-none : (ws : List Wire) → (self_wire ws ≡ none) ↔ ((a : String) → ¬ Edge ws a a)
unfolding self_wire
self_wire-none [] = ((λ e a h. h), λ h. refl)
self_wire-none (w ∷ ws) = elim (Option-cases (wire_from_stage w)) [
  | inl e ↦
      rw (e, self_wire)
        (
          (λ p a h. elim h [ inl q ↦ cc | inr q ↦ (self_wire-none ws).0 p a q ]),
          λ h. (self_wire-none ws).1 (λ a q. h a (inr q)),
        )
  | inr (from, e) ↦
      rw (e, self_wire)
        (elim (Bool-cases (from == w.to.stage)) [
          | inl t ↦
              rw t
                ((λ p. cc), λ h. absurd (h from (inl (refl, sym ((eq_iff from w.to.stage).0 t)))))
          | inr f ↦ rw f (
            (λ p a h. elim h [
              | inl q ↦ ground (arith, eq_iff from w.to.stage)
              | inr q ↦ (self_wire-none ws).0 p a q
            ]),
            λ h. (self_wire-none ws).1 (λ a q. h a (inr q)),
          )
        ])
]

-- Each stage of the list stands behind all the stages that an edge leads from to it.
abbrev pub IsSorted : List Wire → List String → List String → Type 0
IsSorted ws seen [] = Unit
IsSorted ws seen (b ∷ rest) =
    ((a : String) → DagEdge ws a b → In a seen) × IsSorted ws (seen ++ b ∷ []) rest

pub position : String → List String → ℕ
position x [] = 0
position x (y ∷ ys) = let rest = position x ys in if y == x then 0 else suc rest

-- In a sorted list an edge leads from an earlier place to a later one.
pub position_rises :
    (ws : List Wire) (seen out : List String) (a b : String)
    → Distinct out
    → IsSorted ws seen out
    → DagEdge ws a b
    → In b out
    → In a seen ⊎ In a out × (position a out < position b out)
unfolding position
position_rises ws seen [] a b d t e m = absurd m
position_rises ws seen (c ∷ out) a b d t e (inl p) = inl (t.0 a (subst (DagEdge ws a) (sym p) e))
position_rises ws seen (c ∷ out) a b d t e (inr m) =
    let ih = position_rises ws (seen ++ c ∷ []) out a b d.1 t.1 e m in
    ground (
      arith,
      ih,
      In-append a seen (c ∷ []),
      eq_iff c a,
      eq_iff c b,
      λ (p : c ≡ b). d.0 (subst (λ x. In x out) (sym p) m),
    )
