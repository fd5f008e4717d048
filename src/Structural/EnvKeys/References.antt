-- ===== src/Structural/EnvKeys/References.antt =====
-- The references to variables in a text.
use mathlib.Core.Option.{some-injective}
use workflow_control.Prelude.{
  ℕ, none, some, true, false, ◌&&◌, List, [], ◌∷◌, ◌++◌, ◌≡◌, refl, ap, ◌∙◌, ◌↔◌, ◌⊎◌, inl, inr, In,
  nat_eq, Bool-cases, Option-cases, arith,
}
use workflow_control.Structural.EnvKeys.{
  is_letter, is_part, rest_of_name, name_at, ref_at, collect_var_refs,
}

abbrev pub AllParts : List ℕ → Type 0
AllParts [] = Unit
AllParts (c ∷ cs) = (is_part c ≡ true) × AllParts cs

nat_eq_iff : (a b : ℕ) → (nat_eq a b ≡ true) ↔ (a ≡ b)
nat_eq_iff a b = ground arith

-- What may be the name of a variable.
abbrev pub IsName : List ℕ → Type 0
IsName [] = ⊥
IsName (c ∷ cs) = (is_letter c ≡ true) × AllParts cs

brace_no_part : (c : ℕ) → is_part c ≡ true → nat_eq c b'}' ≡ false
unfolding is_part is_letter
brace_no_part c h = ground arith

rest_of_name_sound :
    (cs n : List ℕ)
    → rest_of_name cs ≡ some n
    → AllParts n × (after : List ℕ) × (cs ≡ n ++ b'}' ∷ after)
unfolding rest_of_name
rest_of_name_sound [] n e = cc
rest_of_name_sound (c ∷ cs) n e = elim (Bool-cases (nat_eq c b'}')) [
  | inl t ↦
      let here = some-injective [] n (rw t at e) in
      rw (← here) (tt, cs, ap (λ x. x ∷ cs) ((nat_eq_iff c b'}').0 t))
  | inr f ↦ elim (Bool-cases (is_part c)) [
    | inr g ↦ let never : none ≡ some n = rw (f, g) at e in cc
    | inl g ↦ elim (Option-cases (rest_of_name cs)) [
      | inl h ↦ let never : none ≡ some n = rw (f, g, h, rest_of_name) at e in cc
      | inr (m, h) ↦
          let here : c ∷ m ≡ n = some-injective (c ∷ m) n (rw (f, g, h, rest_of_name) at e) in
          let (parts, after, same) = rest_of_name_sound cs m h in
          rw (← here) ((g, parts), after, ap (λ l. c ∷ l) same)
    ]
  ]
]

rest_of_name_complete : (n after : List ℕ) → AllParts n → rest_of_name (n ++ b'}' ∷ after) ≡ some n
unfolding rest_of_name
rest_of_name_complete [] after h = refl
rest_of_name_complete (c ∷ n) after h =
    rw (brace_no_part c h.0, h.0, rest_of_name_complete n after h.1, rest_of_name) refl

name_at_sound :
    (cs n : List ℕ) → name_at cs ≡ some n → IsName n × (after : List ℕ) × (cs ≡ n ++ b'}' ∷ after)
unfolding name_at
name_at_sound [] n e = cc
name_at_sound (c ∷ cs) n e = elim (Bool-cases (is_letter c)) [
  | inr g ↦ let never : none ≡ some n = rw g at e in cc
  | inl g ↦ elim (Option-cases (rest_of_name cs)) [
    | inl h ↦ let never : none ≡ some n = rw (g, h, name_at) at e in cc
    | inr (m, h) ↦
        let here : c ∷ m ≡ n = some-injective (c ∷ m) n (rw (g, h, name_at) at e) in
        let (parts, after, same) = rest_of_name_sound cs m h in
        rw (← here) ((g, parts), after, ap (λ l. c ∷ l) same)
  ]
]

name_at_complete : (n after : List ℕ) → IsName n → name_at (n ++ b'}' ∷ after) ≡ some n
unfolding name_at
name_at_complete [] after h = absurd h
name_at_complete (c ∷ n) after h = rw (h.0, rest_of_name_complete n after h.1, name_at) refl

-- A text that starts with a reference to the name.
abbrev StartsRef : List ℕ → List ℕ → Type 0
StartsRef n cs = (after : List ℕ) × (cs ≡ b'$' ∷ b'{' ∷ n ++ b'}' ∷ after)

ref_at_iff : (cs n : List ℕ) → (ref_at cs ≡ some n) ↔ (IsName n × StartsRef n cs)
unfolding ref_at
ref_at_iff [] n = ((λ e. cc), λ (p, (after, e)). cc)
ref_at_iff (d ∷ []) n = ((λ e. cc), λ (p, (after, e)). cc)
ref_at_iff (d ∷ b ∷ cs) n = (
  (λ e. elim (Bool-cases (nat_eq d b'$' && nat_eq b b'{')) [
    | inr g ↦ let never : none ≡ some n = rw g at e in cc
    | inl g ↦
        let (name, after, same) = name_at_sound cs n (rw g at e) in
        (name, (after, ground (arith, nat_eq_iff d b'$', nat_eq_iff b b'{')))
  ]),
  λ (name, (after, e)).
      let here : ref_at (b'$' ∷ b'{' ∷ n ++ b'}' ∷ after) ≡ some n =
        name_at_complete n after name in
      ap ref_at e ∙ here,
)

-- A text that holds a reference to the name.
abbrev pub HoldsRef : List ℕ → List ℕ → Type 0
HoldsRef n cs =
    (before : List ℕ) × (after : List ℕ) × (cs ≡ before ++ b'$' ∷ b'{' ∷ n ++ b'}' ∷ after)

pub collect_sound : (n cs : List ℕ) → In n (collect_var_refs cs) → IsName n × HoldsRef n cs
unfolding collect_var_refs
collect_sound n [] h = absurd h
collect_sound n (c ∷ cs) h = elim (Option-cases (ref_at (c ∷ cs))) [
  | inl e ↦
      let (name, (before, after, same)) = collect_sound n cs (rw (e, collect_var_refs) at h) in
      (name, (c ∷ before, after, ap (λ l. c ∷ l) same))
  | inr (m, e) ↦
      let h' : (m ≡ n) ⊎ In n (collect_var_refs cs) = rw (e, collect_var_refs) at h in
      elim h' [
        | inl q ↦
            let (name, (after, same)) = (ref_at_iff (c ∷ cs) n).0 (e ∙ ap some q) in
            (name, ([], after, same))
        | inr q ↦
            let (name, (before, after, same)) = collect_sound n cs q in
            (name, (c ∷ before, after, ap (λ l. c ∷ l) same))
      ]
]

later_refs :
    (n : List ℕ) (c : ℕ) (cs : List ℕ)
    → In n (collect_var_refs cs)
    → In n (collect_var_refs (c ∷ cs))
unfolding collect_var_refs
later_refs n c cs h = elim (Option-cases (ref_at (c ∷ cs))) [
  | inl e ↦ rw (e, collect_var_refs) h
  | inr (m, e) ↦ rw (e, collect_var_refs) (inr h)
]

pub collect_complete :
    (n before after : List ℕ)
    → IsName n
    → In n (collect_var_refs (before ++ b'$' ∷ b'{' ∷ n ++ b'}' ∷ after))
unfolding collect_var_refs
collect_complete n [] after name =
    let cs = b'$' ∷ b'{' ∷ n ++ b'}' ∷ after in
    rw ((ref_at_iff cs n).1 (name, (after, refl)), collect_var_refs) (inl refl)
collect_complete n (b ∷ before) after name =
    later_refs n b (before ++ b'$' ∷ b'{' ∷ n ++ b'}' ∷ after)
      (collect_complete n before after name)
