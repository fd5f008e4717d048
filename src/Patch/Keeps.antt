-- ===== src/Patch/Keeps.antt =====
-- The list operations of a patch on the names of stages and ports.
use workflow_control.Prelude.{
  Bool, true, false, not, List, [], ◌∷◌, ◌++◌, map, ◌≡◌, any, keep, In, Distinct, Distinct-snoc,
  arith, inl, inr, refl,
}
use mathlib.Core.List.{map-append}
use workflow_control.Patch.{update_first}

module _ {A B : Type 0} (name : A → B) (p : A → Bool) where
  In-map-keep : (b : B) (xs : List A) → In b (map name (keep p xs)) → In b (map name xs)
  In-map-keep b [] h = absurd h
  In-map-keep b (x ∷ xs) h = ground (arith, In-map-keep b xs)

  pub Distinct-map-keep : (xs : List A) → Distinct (map name xs) → Distinct (map name (keep p xs))
  Distinct-map-keep [] d = tt
  Distinct-map-keep (x ∷ xs) d = ground (arith, Distinct-map-keep xs, In-map-keep (name x) xs)

  pub map-update_first :
      (f : A → A) (xs : List A)
      → ((x : A) → name (f x) ≡ name x)
      → map name (update_first p f xs) ≡ map name xs
  unfolding update_first
  map-update_first f [] same = refl
  map-update_first f (x ∷ xs) same = ground (arith, same x, map-update_first f xs same)

module _ {A : Type 0} (p : A → Bool) where
  -- Nothing is dropped where nothing passes the test by which elements are dropped.
  pub keep-not : (xs : List A) → any p xs ≡ false → keep (λ x. not (p x)) xs ≡ xs
  keep-not [] e = refl
  keep-not (x ∷ xs) e = ground (arith, keep-not xs)

  pub keep-append : (xs ys : List A) → keep p (xs ++ ys) ≡ keep p xs ++ keep p ys
  keep-append [] ys = refl
  keep-append (x ∷ xs) ys = ground (arith, keep-append xs ys)

-- A list with no element that passes has no element of the name for which all pass.
pub not-mem-map :
    {A B : Type 0} (name : A → B) (n : B) (p : A → Bool)
    → ((x : A) → name x ≡ n → p x ≡ true)
    → (xs : List A) → any p xs ≡ false
    → ¬ In n (map name xs)
not-mem-map name n p same [] e m = m
not-mem-map name n p same (x ∷ xs) e (inl q) = ground (arith, same x q)
not-mem-map name n p same (x ∷ xs) e (inr m) = not-mem-map name n p same xs (ground arith) m

pub Distinct-add :
    {A B : Type 0} (name : A → B) (a : A) (p : A → Bool)
    → ((x : A) → name x ≡ name a → p x ≡ true)
    → (xs : List A) → any p xs ≡ false
    → Distinct (map name xs)
    → Distinct (map name (xs ++ a ∷ []))
Distinct-add name a p same xs e d =
    rw (map-append name xs (a ∷ []))
      (Distinct-snoc (map name xs) (name a) d (not-mem-map name (name a) p same xs e))
