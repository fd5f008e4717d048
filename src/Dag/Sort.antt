-- ===== src/Dag/Sort.antt =====
-- Sorted names: what is in the list, and how often.
use workflow_control.Prelude.{String, List, [], ◌∷◌, ◌≡◌, refl, ◌↔◌, ◌⊎◌, In, Distinct, arith}
use workflow_control.Kahn.Counts.{count}
use workflow_control.Dag.{insert_name, sort_names}

In-insert_name : (x y : String) (ys : List String) → In x (insert_name y ys) ↔ ((y ≡ x) ⊎ In x ys)
unfolding insert_name
In-insert_name x y [] = ground arith
In-insert_name x y (z ∷ ys) = ground (arith, In-insert_name x y ys)

pub In-sort_names : (x : String) (xs : List String) → In x (sort_names xs) ↔ In x xs
unfolding sort_names
In-sort_names x [] = ground arith
In-sort_names x (y ∷ xs) = ground (arith, In-sort_names x xs, In-insert_name x y (sort_names xs))

count-insert_name :
    (x y : String) (ys : List String) → count x (insert_name y ys) ≡ count x (y ∷ ys)
unfolding insert_name
count-insert_name x y [] = refl
count-insert_name x y (z ∷ ys) = ground (arith, count-insert_name x y ys)

pub count-sort_names : (x : String) (xs : List String) → count x (sort_names xs) ≡ count x xs
unfolding sort_names
count-sort_names x [] = refl
count-sort_names x (y ∷ xs) =
    ground (arith, count-sort_names x xs, count-insert_name x y (sort_names xs))

Distinct-insert_name :
    (y : String) (ys : List String) → Distinct ys → ¬ In y ys → Distinct (insert_name y ys)
unfolding insert_name
Distinct-insert_name y [] d n = ground arith
Distinct-insert_name y (z ∷ ys) d n =
    ground (arith, Distinct-insert_name y ys, In-insert_name z y ys)

pub Distinct-sort_names : (xs : List String) → Distinct xs → Distinct (sort_names xs)
unfolding sort_names
Distinct-sort_names [] d = tt
Distinct-sort_names (x ∷ xs) d =
    Distinct-insert_name x (sort_names xs) (Distinct-sort_names xs d.1)
      (λ m. d.0 ((In-sort_names x xs).0 m))
