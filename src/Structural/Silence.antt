-- ===== src/Structural/Silence.antt =====
-- When a list of diagnostics is empty.
use workflow_control.Prelude.{
  String, Bool, true, false, List, [], ◌∷◌, ◌++◌, ◌≡◌, refl, sym, subst, ◌↔◌, inl, inr, includes,
  includes_iff, not_includes, set_add, set_add_iff, In, Distinct, Bool-cases, arith,
}
use workflow_control.Structural.{Diagnostic, report, duplicates}

pub append_silent : {A : Type 0} (xs ys : List A) → (xs ++ ys ≡ []) ↔ ((xs ≡ []) × (ys ≡ []))
append_silent [] ys = ground arith
append_silent (x ∷ xs) ys = ground arith

pub append3_silent :
    {A : Type 0} (xs ys zs : List A) → (xs ++ ys ++ zs ≡ []) ↔ ((xs ≡ []) × (ys ≡ []) × (zs ≡ []))
append3_silent xs ys zs = ground (arith, append_silent (xs ++ ys) zs, append_silent xs ys)

pub report_silent : (t : Bool) (d : Diagnostic) → (report t d ≡ []) ↔ (t ≡ false)
report_silent true d = ground arith
report_silent false d = ground arith

pub duplicates_silent :
    (d : String → Diagnostic) (seen ns : List String)
    → (duplicates d seen ns ≡ []) ↔ (Distinct ns × ((n : String) → In n ns → ¬ In n seen))
unfolding duplicates
duplicates_silent d seen [] = ((λ e. (tt, λ n m. absurd m)), λ h. refl)
duplicates_silent d seen (n ∷ ns) =
    let ih = duplicates_silent d (set_add seen n) ns in
    elim (Bool-cases (includes seen n)) [
      | inl e ↦
          rw (e, duplicates) ((λ p. cc), λ h. absurd (h.1 n (inl refl) ((includes_iff seen n).0 e)))
      | inr e ↦
          rw (e, duplicates)
            (
              (λ p. (
                ((λ m. (ih.0 p).1 n m ((set_add_iff seen n n).1 (inr refl))), (ih.0 p).0),
                λ x m o. elim m [
                  | inl q ↦ not_includes seen n e (subst (λ y. In y seen) (sym q) o)
                  | inr q ↦ (ih.0 p).1 x q ((set_add_iff seen n x).1 (inl o))
                ],
              )),
              λ h. ih.1 (
                h.0.1,
                λ x m o. elim ((set_add_iff seen n x).0 o) [
                  | inl q ↦ h.1 x (inr m) q
                  | inr q ↦ h.0.0 (subst (λ y. In y ns) (sym q) m)
                ],
              ),
            )
    ]
