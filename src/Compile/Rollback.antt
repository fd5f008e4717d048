-- ===== src/Compile/Rollback.antt =====
-- Which answer of a gate sends the run back, and which stages it resets.
use workflow_control.Prelude.{
  String, Option, none, some, true, false, List, [], ◌∷◌, foldl, ◌≡◌, ◌≢◌, refl, sym, ◌∙◌, ◌↔◌, ◌⊎◌,
  inl, inr, includes, includes_iff, set_add, set_add_iff, set_add-Distinct, all, length, nat_eq, In,
  Distinct, Bool-cases, arith,
}
use workflow_control.Ir.{Wire, RouteTarget}
use workflow_control.Structural.Stages.{targets_of}
use workflow_control.Structural.Ancestors.Rounds.{IsAhead}
use workflow_control.Compile.{downstream_sets, union_all, find_rollback, RejectRollback}
use workflow_control.Compile.Downstream.{bfs_downstream_correct}

module _ (wires : List Wire) where
  -- A target of the list leads to the stage.
  abbrev pub IsAffected : List String → String → Type 0
  IsAffected [] x = ⊥
  IsAffected (t ∷ ts) x = IsAhead wires t x ⊎ IsAffected ts x

  -- All targets lie before the gate.
  abbrev pub AllAhead : (gate : String) → List String → Type 0
  AllAhead g [] = Unit
  AllAhead g (t ∷ ts) = IsAhead wires t g × AllAhead g ts

  record AreSets (g : String) (ts : List String) (sets : List (List String)) : Type 0 where
    ahead : (all (λ (d : List String). includes d g) sets ≡ true) ↔ AllAhead g ts
    union : (l : List String) (x : String) → In x (union_all l sets) ↔ (In x l ⊎ IsAffected ts x)

  foldl-set_add_iff :
      (l d : List String) (x : String) → In x (foldl set_add l d) ↔ (In x l ⊎ In x d)
  foldl-set_add_iff l [] x = ground arith
  foldl-set_add_iff l (y ∷ d) x =
      ground (arith, foldl-set_add_iff (set_add l y) d x, set_add_iff l y x)

  downstream_sets_lem :
      (g : String) (ts : List String)
      → (sets : List (List String)) × (downstream_sets wires ts ≡ some sets) × AreSets g ts sets
  unfolding downstream_sets
  downstream_sets_lem g [] =
      ([], refl, record { ahead = ground arith; union = λ l x. ground arith })
  downstream_sets_lem g (t ∷ ts) =
      let (d, e, ok, once) = bfs_downstream_correct wires t in
      let (sets, f, h) = downstream_sets_lem g ts in
      (
        d ∷ sets,
        rw (e, downstream_sets, f) refl,
        record {
          ahead = ground (arith, includes_iff d g, ok g, h.ahead);
          union =
              λ l x. ground (arith, h.union (foldl set_add l d) x, foldl-set_add_iff l d x, ok x);
        },
      )

  union_all-Distinct :
      (l : List String) (sets : List (List String)) → Distinct l → Distinct (union_all l sets)
  union_all-Distinct l [] h = h
  union_all-Distinct l (d ∷ sets) h = union_all-Distinct (foldl set_add l d) sets (each l d h)
    where
      each : (l d : List String) → Distinct l → Distinct (foldl set_add l d)
      each l [] h = h
      each l (x ∷ d) h = each (set_add l x) d (set_add-Distinct l x h)

  -- The answer sends the run back: it has targets, and all lie before the gate.
  abbrev pub IsRollback : (gate : String) → RouteTarget → Type 0
  IsRollback g target = (targets_of target ≢ []) × AllAhead g (targets_of target)

  -- The rollback is that of the first such answer.
  abbrev pub IsFirst : (gate : String) → List (String × RouteTarget) → RejectRollback → Type 0
  IsFirst g [] b = ⊥
  IsFirst g ((answer, target) ∷ routes) b =
      (IsRollback g target
        × (b.answer ≡ answer)
        × (b.target_stages ≡ targets_of target)
        × ((x : String) → In x b.affected_stages ↔ IsAffected (targets_of target) x)
        × Distinct b.affected_stages)
      ⊎ (¬ IsRollback g target × IsFirst g routes b)

  abbrev pub NoRollback : (gate : String) → List (String × RouteTarget) → Type 0
  NoRollback g [] = Unit
  NoRollback g ((answer, target) ∷ routes) = ¬ IsRollback g target × NoRollback g routes

  abbrev Decides :
      (gate : String) → List (String × RouteTarget) → Option (Option RejectRollback) → Type 0
  Decides g routes o =
      ((b : RejectRollback) × (o ≡ some (some b)) × IsFirst g routes b)
      ⊎ ((o ≡ some none) × NoRollback g routes)

  past :
      (g answer : String) (target : RouteTarget) (routes : List (String × RouteTarget))
      (o : Option (Option RejectRollback))
      → ¬ IsRollback g target
      → Decides g routes o
      → Decides g ((answer, target) ∷ routes) o
  past g answer target routes o h (inl (b, e, k)) = inl (b, e, inr (h, k))
  past g answer target routes o h (inr (e, k)) = inr (e, (h, k))

  empty_iff : (l : List String) → (nat_eq (length l) 0 ≡ true) ↔ (l ≡ [])
  empty_iff [] = ground arith
  empty_iff (x ∷ l) = ground arith

  -- For every gate, the search for its rollback returns: the first answer that has targets and whose
  -- targets all lie before the gate, with these targets and, each once, exactly the stages that a
  -- target leads to; and no rollback when there is no such answer.
  pub find_rollback_correct :
      (g : String) (routes : List (String × RouteTarget))
      → ((b : RejectRollback) × (find_rollback wires g routes ≡ some (some b)) × IsFirst g routes b)
        ⊎ ((find_rollback wires g routes ≡ some none) × NoRollback g routes)
  unfolding find_rollback
  find_rollback_correct g [] = inr (refl, tt)
  find_rollback_correct g ((answer, target) ∷ routes) =
      elim (Bool-cases (nat_eq (length (targets_of target)) 0)) [
        | inl z ↦ rw z (
            past g answer target routes (find_rollback wires g routes)
              (λ r. r.0 ((empty_iff (targets_of target)).0 z)) (find_rollback_correct g routes))
        | inr z ↦
            let (sets, e, h) = downstream_sets_lem g (targets_of target) in
            elim (Bool-cases (all (λ (d : List String). includes d g) sets)) [
              | inl t ↦
                  rw (z, e, find_rollback, t)
                    (inl (
                      record {
                        answer = answer;
                        target_stages = targets_of target;
                        affected_stages = union_all [] sets;
                      },
                      refl,
                      inl (
                        (
                          (λ none_left.
                              let never : true ≡ false =
                                sym ((empty_iff (targets_of target)).1 none_left) ∙ z in
                              cc),
                          h.ahead.0 t,
                        ),
                        refl,
                        refl,
                        (λ x. ground (arith, h.union [] x)),
                        union_all-Distinct [] sets tt,
                      ),
                    ))
              | inr f ↦
                  rw (z, e, find_rollback, f)
                    (past g answer target routes (find_rollback wires g routes)
                      (λ r. let never : false ≡ true = sym f ∙ h.ahead.1 r.1 in cc)
                      (find_rollback_correct g routes))
            ]
      ]
