-- ===== src/Compile/Forward.antt =====
-- The targets a gate routes forward: those that are not among its ancestors.
use workflow_control.Prelude.{
  String, List, [], ◌∷◌, ◌≡◌, subst, ◌↔◌, ◌⊎◌, inl, inr, eq_iff, includes, includes_iff,
  not_includes, set_add, set_add_iff, In, In-append, Bool-cases, arith,
}
use workflow_control.Ir.{RouteTarget}
use workflow_control.Structural.Stages.{targets_of}
use workflow_control.Compile.{add_forward, add_routes, all_targets}

add_forward_iff :
    (ancestors routed ts : List String) (t : String)
    → In t (add_forward ancestors routed ts) ↔ (In t routed ⊎ (In t ts × ¬ In t ancestors))
unfolding add_forward
add_forward_iff ancestors routed [] t = ground arith
add_forward_iff ancestors routed (x ∷ ts) t = elim (Bool-cases (includes ancestors x)) [
  | inl e ↦
      let m = (includes_iff ancestors x).0 e in
      rw e (
        ground (
          arith,
          add_forward_iff ancestors routed ts t,
          eq_iff x t,
          λ (q : x ≡ t). subst (λ z. In z ancestors) q m,
        ))
  | inr e ↦
      let m = not_includes ancestors x e in
      rw e (
        ground (
          arith,
          add_forward_iff ancestors (set_add routed x) ts t,
          set_add_iff routed x t,
          λ (q : x ≡ t). subst (λ z. ¬ In z ancestors) q m,
        ))
]

pub add_routes_iff :
    (ancestors routed : List String) (routes : List (String × RouteTarget)) (t : String)
    → In t (add_routes ancestors routed routes)
      ↔ (In t routed ⊎ (In t (all_targets routes) × ¬ In t ancestors))
unfolding add_routes
add_routes_iff ancestors routed [] t = ground arith
add_routes_iff ancestors routed ((answer, target) ∷ routes) t = ground (
  arith,
  add_routes_iff ancestors (add_forward ancestors routed (targets_of target)) routes t,
  add_forward_iff ancestors routed (targets_of target) t,
  In-append t (targets_of target) (all_targets routes),
)
