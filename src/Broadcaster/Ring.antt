-- ===== src/Broadcaster/Ring.antt =====
-- Numbered events, and the last entries of a list.
use workflow_control.Prelude.{
  ℕ, zero, suc, ◌+◌, ◌-◌, ◌≤◌, some, List, [], ◌∷◌, ◌++◌, ◌≡◌, refl, sym, ap, ◌∙◌, inl, inr, ltb,
  keep, drop, length, length-append, Bool-cases, arith,
}
use workflow_control.Broadcaster.{Event, retain, is_after}

abbrev pub numbered : ℕ → Event → Event
numbered k e = record e { seq = some k }

-- The events numbered from `k` on.
abbrev pub stamped : ℕ → List Event → List Event
stamped k [] = []
stamped k (e ∷ es) = numbered k e ∷ stamped (suc k) es

pub stamped-snoc :
    (k : ℕ) (es : List Event) (e : Event)
    → stamped k (es ++ e ∷ []) ≡ stamped k es ++ numbered (k + length es) e ∷ []
stamped-snoc k [] e = ap (λ n. numbered n e ∷ []) (omega arith)
stamped-snoc k (x ∷ es) e =
    ap (λ l. numbered k x ∷ l)
      (stamped-snoc (suc k) es e ∙ ap (λ n. stamped (suc k) es ++ numbered n e ∷ []) (omega arith))

pub length-stamped : (k : ℕ) (es : List Event) → length (stamped k es) ≡ length es
length-stamped k [] = refl
length-stamped k (e ∷ es) = ap suc (length-stamped (suc k) es)

module _ {A : Type 0} where
  pub drop-nil : (n : ℕ) → drop {A = A} n [] ≡ []
  drop-nil zero = refl
  drop-nil (suc n) = refl

  pub drop-drop : (m n : ℕ) (xs : List A) → drop m (drop n xs) ≡ drop (n + m) xs
  drop-drop m zero xs = ap (λ k. drop k xs) (omega arith)
  drop-drop m (suc n) [] = drop-nil m ∙ sym (drop-nil (suc n + m))
  drop-drop m (suc n) (x ∷ xs) =
      let e : suc (n + m) ≡ suc n + m = omega arith in
      drop-drop m n xs ∙ ap (λ k. drop k (x ∷ xs)) e

  drop-append : (n : ℕ) (xs ys : List A) → n ≤ length xs → drop n (xs ++ ys) ≡ drop n xs ++ ys
  drop-append zero xs ys le = refl
  drop-append (suc n) [] ys le = absurd (omega arith)
  drop-append (suc n) (x ∷ xs) ys le = drop-append n xs ys (omega arith)

  length-drop : (n : ℕ) (xs : List A) → length (drop n xs) ≡ length xs - n
  length-drop zero xs = omega arith
  length-drop (suc n) [] = omega arith
  length-drop (suc n) (x ∷ xs) = length-drop n xs ∙ omega arith

-- Keeping the last entries of what was kept before and one more is keeping the last entries of all.
pub retain_more :
    (limit : ℕ) (xs : List Event) (e : Event)
    → retain limit (retain limit xs ++ e ∷ []) ≡ retain limit (xs ++ e ∷ [])
retain_more limit xs e =
    let k = length xs - limit in
    ap (λ l. retain limit l) (sym (drop-append k xs (e ∷ []) (omega arith)))
    ∙ drop-drop (length (drop k (xs ++ e ∷ [])) - limit) k (xs ++ e ∷ [])
    ∙ ap (λ n. drop n (xs ++ e ∷ []))
        (omega (arith, length-drop k (xs ++ e ∷ []), length-append xs (e ∷ [])))

pub stamped-drop : (n k : ℕ) (es : List Event) → drop n (stamped k es) ≡ stamped (k + n) (drop n es)
stamped-drop zero k es = ap (λ m. stamped m es) (omega arith)
stamped-drop (suc n) k [] = refl
stamped-drop (suc n) k (e ∷ es) =
    let m : suc k + n ≡ k + suc n = omega arith in
    stamped-drop n (suc k) es ∙ ap (λ x. stamped x (drop n es)) m

pub keep_later :
    (from k : ℕ) (es : List Event)
    → keep (is_after from) (stamped k es) ≡ stamped (k + (suc from - k)) (drop (suc from - k) es)
keep_later from k [] = rw (drop-nil {A = Event} (suc from - k)) refl
keep_later from k (e ∷ es) = elim (Bool-cases (ltb from k)) [
  | inl t ↦
      let z : suc from - k ≡ 0 = ground arith in
      let z' : suc from - suc k ≡ 0 = ground arith in
      let m : k + 0 ≡ k = omega arith in
      let m' : suc k + 0 ≡ suc k = omega arith in
      rw (t, z)
        (ap (λ l. numbered k e ∷ l)
            (keep_later from (suc k) es
              ∙ ap (λ d. stamped (suc k + d) (drop d es)) z'
              ∙ ap (λ x. stamped x es) m')
          ∙ ap (λ x. stamped x (e ∷ es)) (sym m))
  | inr t ↦
      let z : suc from - k ≡ suc (suc from - suc k) = ground arith in
      let m : suc k + (suc from - suc k) ≡ k + suc (suc from - suc k) = omega arith in
      rw (t, z) (keep_later from (suc k) es ∙ ap (λ x. stamped x (drop (suc from - suc k) es)) m)
]
