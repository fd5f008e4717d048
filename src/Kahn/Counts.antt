-- ===== src/Kahn/Counts.antt =====
-- How many edges still hold a stage back.
use workflow_control.Prelude.{
  String, ℕ, suc, ◌+◌, ◌<◌, List, [], ◌∷◌, ◌++◌, ◌≡◌, refl, inl, inr, ◌==◌, eq_iff, includes,
  includes_iff, not_includes, In, In-append, Distinct, Bool-cases, ltb, arith, if◌then◌else◌,
}

abbrev pub count : String → List String → ℕ
count x [] = 0
count x (y ∷ ys) = let rest = count x ys in if y == x then suc rest else rest

pub In_of_count : (x : String) (ys : List String) → 0 < count x ys → In x ys
In_of_count x [] h = absurd (omega arith)
In_of_count x (y ∷ ys) h = ground (arith, eq_iff y x, In_of_count x ys)

pub count_pos : (x : String) (ys : List String) → In x ys → 0 < count x ys
count_pos x [] h = absurd h
count_pos x (y ∷ ys) h = ground (arith, eq_iff y x, count_pos x ys)

module _ (successors : String → List String) where
  -- The edges into `x` from stages of `nodes` that are not in `out`.
  abbrev pub pending : List String → List String → String → ℕ
  pending [] out x = 0
  pending (p ∷ ps) out x = (if includes out p then 0 else count x (successors p)) + pending ps out x

  pending-other :
      (ps out : List String) (n x : String)
      → ¬ In n ps
      → pending ps (out ++ n ∷ []) x ≡ pending ps out x
  pending-other [] out n x h = refl
  pending-other (p ∷ ps) out n x h = ground (
    arith,
    pending-other ps out n x,
    includes_iff (out ++ n ∷ []) p,
    includes_iff out p,
    In-append p out (n ∷ []),
  )

  -- To finish a stage takes its edges away.
  pub pending-finish :
      (ps out : List String) (n x : String)
      → Distinct ps
      → In n ps
      → ¬ In n out
      → pending ps (out ++ n ∷ []) x + count x (successors n) ≡ pending ps out x
  pending-finish [] out n x d m h = absurd m
  pending-finish (p ∷ ps) out n x d (inl e) h = ground (
    arith,
    pending-other ps out n x,
    includes_iff (out ++ n ∷ []) p,
    includes_iff out p,
    In-append p out (n ∷ []),
  )
  pending-finish (p ∷ ps) out n x d (inr m) h = ground (
    arith,
    pending-finish ps out n x,
    includes_iff (out ++ n ∷ []) p,
    includes_iff out p,
    In-append p out (n ∷ []),
  )

  pub pending_zero :
      (ps out : List String) (x p : String)
      → pending ps out x ≡ 0
      → In p ps
      → In x (successors p)
      → In p out
  pending_zero [] out x p e m s = absurd m
  pending_zero (q ∷ ps) out x p e (inl same) s =
      ground (arith, includes_iff out q, count_pos x (successors q))
  pending_zero (q ∷ ps) out x p e (inr m) s = pending_zero ps out x p (omega arith) m s

  pub pending_pos :
      (ps out : List String) (x : String)
      → 0 < pending ps out x
      → (p : String) × In p ps × ¬ In p out × In x (successors p)
  pending_pos [] out x h = absurd (omega arith)
  pending_pos (q ∷ ps) out x h = elim (Bool-cases (includes out q)) [
    | inl e ↦ later (pending_pos ps out x (ground arith))
    | inr e ↦ elim (Bool-cases (ltb 0 (count x (successors q)))) [
      | inl t ↦ (q, inl refl, not_includes out q e, In_of_count x (successors q) (ground arith))
      | inr f ↦ later (pending_pos ps out x (ground arith))
    ]
  ]
    where
      later :
          (p : String) × In p ps × ¬ In p out × In x (successors p)
          → (p : String) × In p (q ∷ ps) × ¬ In p out × In x (successors p)
      later (p, m, n, s) = (p, inr m, n, s)
