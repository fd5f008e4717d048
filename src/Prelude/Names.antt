-- ===== src/Prelude/Names.antt =====
-- Names are strings compared by `===`. A JS `Set` of names keeps the order of insertion: it is a
-- list that `set_add` extends at its end.
use Prim.Native.Nat.{suc, ◌≤◌}
use Prim.Native.String.{String}
use mathlib.Core.Path.{◌≡◌, refl, subst}
use mathlib.Core.Logic.{inl, inr, ◌↔◌, ◌⊎◌}
use mathlib.Core.Bool.{Bool, true, false, not, ◌||◌}
use mathlib.Core.List.{List, [], ◌∷◌, ◌++◌}
use native.Mathlib.Omega.{arith}
use text.Mathlib.Text.{◌==◌}
use text.Mathlib.TextEquality.{eq_iff}
use workflow_control.Prelude.Tests.{if◌then◌else◌, Bool-cases}
use workflow_control.Prelude.Lists.{
  length, keep, length-keep-le, In-keep_intro, In, In-append, Distinct, Distinct-snoc,
}

pub eq_self : (x : String) → (x == x) ≡ true
eq_self x = (eq_iff x x).1 refl

unfoldable pub includes : List String → String → Bool
includes [] x = false
includes (y ∷ ys) x = y == x || includes ys x

unfoldable pub set_add : List String → String → List String
set_add xs x = if includes xs x then xs else xs ++ x ∷ []

pub includes_iff : (xs : List String) (x : String) → (includes xs x ≡ true) ↔ In x xs
unfolding includes
includes_iff [] x = (λ h. cc, λ h. absurd h)
includes_iff (y ∷ ys) x = ground (arith, eq_iff y x, includes_iff ys x)

pub set_add_iff : (xs : List String) (y x : String) → In x (set_add xs y) ↔ (In x xs ⊎ (y ≡ x))
unfolding set_add
set_add_iff xs y x = elim (Bool-cases (includes xs y)) [
  | inl e ↦
      rw e
        (inl, λ h. elim h [ inl m ↦ m | inr p ↦ subst (λ z. In z xs) p ((includes_iff xs y).0 e) ])
  | inr e ↦ rw e (ground (arith, In-append x xs (y ∷ [])))
]

pub set_add-Distinct : (xs : List String) (x : String) → Distinct xs → Distinct (set_add xs x)
unfolding set_add
set_add-Distinct xs x d = elim (Bool-cases (includes xs x)) [
  | inl e ↦ rw e d
  | inr e ↦ rw e (Distinct-snoc xs x d (λ m. ground (arith, includes_iff xs x)))
]

pub not_includes : (xs : List String) (x : String) → includes xs x ≡ false → ¬ In x xs
not_includes xs x e m = ground (arith, includes_iff xs x)

length-without_lt :
    (x : String) (ys : List String)
    → In x ys
    → suc (length (keep (λ y. not (y == x)) ys)) ≤ length ys
length-without_lt x [] m = absurd m
length-without_lt x (y ∷ ys) (inl e) =
    ground (arith, eq_iff y x, length-keep-le (λ z. not (z == x)) ys)
length-without_lt x (y ∷ ys) (inr m) = ground (arith, length-without_lt x ys m)

-- Names that are distinct and all found in a list are no more than it has entries.
pub length_le_of_subset :
    (xs ys : List String) → Distinct xs → ((x : String) → In x xs → In x ys) → length xs ≤ length ys
length_le_of_subset [] ys d sub = omega arith
length_le_of_subset (x ∷ xs) ys d sub = omega (
  arith,
  length-without_lt x ys (sub x (inl refl)),
  length_le_of_subset xs (keep (λ y. not (y == x)) ys) d.1
      (λ z m. In-keep_intro (λ y. not (y == x)) z ys (sub z (inr m)) (differs z m)),
)
  where
    differs : (z : String) → In z xs → not (z == x) ≡ true
    differs z m = elim (Bool-cases (z == x)) [
      | inl e ↦ absurd (d.0 (subst (λ y. In y xs) ((eq_iff z x).0 e) m))
      | inr e ↦ rw e
    ]

pub set_add_old : (xs : List String) (x : String) → includes xs x ≡ true → set_add xs x ≡ xs
unfolding set_add
set_add_old xs x e = rw e

pub set_add_new :
    (xs : List String) (x : String) → includes xs x ≡ false → set_add xs x ≡ xs ++ x ∷ []
unfolding set_add
set_add_new xs x e = rw e
