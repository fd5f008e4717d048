-- ===== src/Guards/Denied.antt =====
-- Which expressions are denied.
use workflow_control.Prelude.{
  String, ℕ, some, Bool, true, false, not, List, [], ◌∷◌, ◌++◌, ◌≡◌, ◌≢◌, refl, sym, ap, subst, ◌↔◌,
  inl, inr, nat_eq, all, length, codes, In, Bool-cases, Option-cases, arith,
}
use mathlib.Core.Option.{some-injective}
use workflow_control.Guards.{
  denied_identifiers, is_word, starts_word, after_prefix, token_at, deny_exec, Ran, guard_denied,
  evaluate_guard,
}

after_prefix_iff : (t cs rest : List ℕ) → (after_prefix t cs ≡ some rest) ↔ (cs ≡ t ++ rest)
unfolding after_prefix
after_prefix_iff [] cs rest = ground arith
after_prefix_iff (t ∷ ts) [] rest = ground arith
after_prefix_iff (t ∷ ts) (c ∷ cs) rest = ground (arith, after_prefix_iff ts cs rest)

-- The text goes on with a name of the list, after which no character of a word stands.
abbrev Matches : List String → List ℕ → String → Type 0
Matches ts cs t = In t ts × (rest : List ℕ) × (cs ≡ codes t ++ rest) × (starts_word rest ≡ false)

later_match :
    (t u : String) (ts : List String) (cs : List ℕ) → Matches ts cs u → Matches (t ∷ ts) cs u
later_match t u ts cs (i, rest, e, f) = (inr i, rest, e, f)

token_sound :
    (ts : List String) (cs : List ℕ) (u : String) → token_at ts cs ≡ some u → Matches ts cs u
unfolding token_at
token_sound [] cs u h = cc
token_sound (t ∷ ts) cs u h = elim (Option-cases (after_prefix (codes t) cs)) [
  | inl e ↦ later_match t u ts cs (token_sound ts cs u (rw (token_at, e) at h))
  | inr (rest, e) ↦ elim (Bool-cases (starts_word rest)) [
    | inl f ↦ later_match t u ts cs (token_sound ts cs u (rw (token_at, e, f) at h))
    | inr f ↦
        let same : t ≡ u = some-injective t u (rw (token_at, e, f) at h) in
        subst (Matches (t ∷ ts) cs) same
          (inl refl, rest, (after_prefix_iff (codes t) cs rest).0 e, f)
  ]
]

token_complete :
    (ts : List String) (cs : List ℕ) (u : String)
    → Matches ts cs u
    → (v : String) × (token_at ts cs ≡ some v)
unfolding token_at
token_complete [] cs u (i, rest, e, f) = absurd i
token_complete (t ∷ ts) cs u (inl same, rest, e, f) =
    let k : after_prefix (codes t) cs ≡ some rest =
      (after_prefix_iff (codes t) cs rest).1 (subst (λ z. cs ≡ codes z ++ rest) (sym same) e) in
    (t, rw (k, token_at, f) refl)
token_complete (t ∷ ts) cs u (inr i, rest, e, f) =
    let (v, ih) = token_complete ts cs u (i, rest, e, f) in
    elim (Option-cases (after_prefix (codes t) cs)) [
      | inl k ↦ (v, rw (k, token_at) ih)
      | inr (r, k) ↦ elim (Bool-cases (starts_word r)) [
        | inl w ↦ (v, rw (k, token_at, w) ih)
        | inr w ↦ (t, rw (k, token_at, w) refl)
      ]
    ]

-- The last character of a text, or what stands before it, is one of a word.
abbrev pub ends_word : Bool → List ℕ → Bool
ends_word w [] = w
ends_word w (c ∷ cs) = ends_word (is_word c) cs

-- The identifier stands in the text as a word of its own.
abbrev pub StandsIn : (after_word : Bool) → List ℕ → String → Type 0
StandsIn w cs t =
    In t denied_identifiers
    × (before : List ℕ) × (after : List ℕ) × (cs ≡ before ++ (codes t ++ after))
    × (ends_word w before ≡ false)
    × (starts_word after ≡ false)

further :
    (w : Bool) (c : ℕ) (cs : List ℕ) (t : String)
    → StandsIn (is_word c) cs t
    → StandsIn w (c ∷ cs) t
further w c cs t (i, before, after, e, f, g) = (i, c ∷ before, after, ap (λ l. c ∷ l) e, f, g)

exec_sound : (w : Bool) (cs : List ℕ) (t : String) → deny_exec w cs ≡ some t → StandsIn w cs t
unfolding deny_exec
exec_sound w [] t h = cc
exec_sound true (c ∷ cs) t h = further true c cs t (exec_sound (is_word c) cs t h)
exec_sound false (c ∷ cs) t h = elim (Option-cases (token_at denied_identifiers (c ∷ cs))) [
  | inl e ↦ further false c cs t (exec_sound (is_word c) cs t (rw (deny_exec, e) at h))
  | inr (u, e) ↦
      let same : u ≡ t = some-injective u t (rw (deny_exec, e) at h) in
      let (i, rest, k, f) = token_sound denied_identifiers (c ∷ cs) u e in
      subst (StandsIn false (c ∷ cs)) same (i, [], rest, k, refl, f)
]

-- No identifier is the empty text.
nonempty :
    (ts : List String) (t : String)
    → all (λ s. not (nat_eq (length (codes s)) 0)) ts ≡ true
    → In t ts
    → codes t ≢ []
nonempty [] t h i k = absurd i
nonempty (s ∷ ts) t h (inl e) k =
    let z : codes s ≡ [] = subst (λ x. codes x ≡ []) (sym e) k in ground (arith, ap length z)
nonempty (s ∷ ts) t h (inr i) k = nonempty ts t (ground arith) i k

rest_StandsIn :
    (c b : ℕ) (cs before after : List ℕ) (t : String)
    → In t denied_identifiers
    → c ∷ cs ≡ b ∷ (before ++ (codes t ++ after))
    → ends_word (is_word b) before ≡ false
    → starts_word after ≡ false
    → StandsIn (is_word c) cs t
rest_StandsIn c b cs before after t i e f g =
    let same : c ≡ b = cc in
    (i, before, after, cc, subst (λ z. ends_word (is_word z) before ≡ false) (sym same) f, g)

exec_complete :
    (w : Bool) (cs : List ℕ) (t : String)
    → StandsIn w cs t
    → (u : String) × (deny_exec w cs ≡ some u)
unfolding deny_exec
exec_complete w [] t (i, [], after, e, f, g) =
    absurd (nonempty denied_identifiers t refl i (blank (codes t) after e))
  where
    blank : (a b : List ℕ) → [] ≡ a ++ b → a ≡ []
    blank [] b e = refl
    blank (x ∷ a) b e = cc
exec_complete w [] t (i, b ∷ before, after, e, f, g) = cc
exec_complete true (c ∷ cs) t (i, [], after, e, f, g) = cc
exec_complete false (c ∷ cs) t (i, [], after, e, f, g) =
    let (u, k) = token_complete denied_identifiers (c ∷ cs) t (i, after, e, g) in
    (u, rw (k, deny_exec) refl)
exec_complete true (c ∷ cs) t (i, b ∷ before, after, e, f, g) =
    exec_complete (is_word c) cs t (rest_StandsIn c b cs before after t i e f g)
exec_complete false (c ∷ cs) t (i, b ∷ before, after, e, f, g) =
    let (u, k) = exec_complete (is_word c) cs t (rest_StandsIn c b cs before after t i e f g) in
    elim (Option-cases (token_at denied_identifiers (c ∷ cs))) [
      | inl n ↦ (u, rw (n, deny_exec) k)
      | inr (v, n) ↦ (v, rw (n, deny_exec) refl)
    ]

-- The pattern matches an expression exactly when an identifier of the list stands in it as a word of its
-- own, and what it matches is such an identifier.
pub deny_exec_correct :
    (expr : String)
    → ((t : String) → deny_exec false (codes expr) ≡ some t → StandsIn false (codes expr) t)
      × ((t : String)
          → StandsIn false (codes expr) t
          → (u : String) × (deny_exec false (codes expr) ≡ some u))
deny_exec_correct expr = (exec_sound false (codes expr), exec_complete false (codes expr))

-- An expression in which an identifier of the list stands as a word of its own is never run: whatever
-- running it would do, the guard is false, and the error names an identifier of the list.
pub evaluate_guard-StandsIn :
    (expr t : String)
    → StandsIn false (codes expr) t
    → (u : String) × In u denied_identifiers
      × ((run : String → String → Ran) (value : String)
          → evaluate_guard run expr value ≡ (false, some (guard_denied u expr)))
unfolding evaluate_guard
evaluate_guard-StandsIn expr t h =
    let (u, e) = exec_complete false (codes expr) t h in
    (u, (exec_sound false (codes expr) u e).0, λ run value. rw (evaluate_guard, e) refl)
