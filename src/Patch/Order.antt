-- ===== src/Patch/Order.antt =====
-- The order in which a patch runs its operations.
use workflow_control.Prelude.{
  Bool, List, [], ◌∷◌, ◌++◌, ◌≡◌, refl, ◌∙◌, ap, subst, all, find, Option-cases, inl, inr, ◌⊎◌,
  arith, if◌then◌else◌,
}
use mathlib.Core.Path.{fun_ext}
use workflow_control.Ir.{Pipeline}
use workflow_control.Patch.{
  PatchOp, PatchError, add_stage, update_port_type, update_stage_config, Result, ok, throws, ◌>>=◌,
  apply_op, apply_patch, stage_has_port, is_named, is_allowed,
}

>>=_assoc :
    {A B C : Type 0} (m : Result A) (f : A → Result B) (g : B → Result C)
    → (m >>= λ a. f a >>= g) ≡ (m >>= f >>= g)
>>=_assoc (ok a) f g = refl
>>=_assoc (throws e op) f g = refl

-- To apply one list of operations and then another is to apply them joined: the second starts
-- from what the first left, and is not reached where the first throws.
pub apply_patch-append :
    (ir : Pipeline) (xs ys : List PatchOp)
    → apply_patch ir (xs ++ ys) ≡ (apply_patch ir xs >>= λ mid. apply_patch mid ys)
unfolding apply_patch
apply_patch-append ir [] ys = refl
apply_patch-append ir (op ∷ xs) ys =
    ap (λ f. apply_op ir op >>= f) (fun_ext (λ next. apply_patch-append next xs ys))
    ∙ >>=_assoc (apply_op ir op) (λ next. apply_patch next xs) (λ mid. apply_patch mid ys)

Result-cases :
    {A : Type 0} (r : Result A)
    → ((a : A) × (r ≡ ok a)) ⊎ ((e : PatchError) × (op : PatchOp) × (r ≡ throws e op))
Result-cases (ok a) = inl (a, refl)
Result-cases (throws e op) = inr (e, op, refl)

abbrev OnThrow : {A : Type 0} → (PatchOp → Type 0) → Result A → Type 0
OnThrow P (ok a) = Unit
OnThrow P (throws e op) = P op

branch :
    (b : Bool) (ir : Pipeline) (err : PatchError) (op : PatchOp)
    → OnThrow (λ o. o ≡ op) (if b then ok ir else throws err op)
branch b ir err op = ground arith

-- An error names the operation that raised it.
apply_op-OnThrow : (ir : Pipeline) (op : PatchOp) → OnThrow (λ o. o ≡ op) (apply_op ir op)
unfolding apply_op
apply_op-OnThrow ir (update_port_type n port d new_type) =
    elim (Option-cases (find (is_named n) ir.stages)) [
      | inl e ↦ rw (e, apply_op) refl
      | inr (s, e) ↦ rw (e, apply_op) (branch (stage_has_port d port s) _ _ _)
    ]
apply_op-OnThrow ir (update_stage_config n entries) =
    elim (Option-cases (find (is_named n) ir.stages)) [
      | inl e ↦ rw (e, apply_op) refl
      | inr (s, e) ↦ rw (e, apply_op) (branch (all (is_allowed s.config) entries) _ _ _)
    ]
apply_op-OnThrow ir (add_stage s) = ground arith
apply_op-OnThrow ir op = ground arith

-- A patch throws only where one of its operations does: the operations before that one went
-- through, the error is the one that it raises on what they left, and it names that operation.
pub apply_patch_stops :
    (ir : Pipeline) (ops : List PatchOp) (err : PatchError) (op : PatchOp)
    → apply_patch ir ops ≡ throws err op
    → (before after : List PatchOp) × (mid : Pipeline) × (ops ≡ before ++ op ∷ after)
      × (apply_patch ir before ≡ ok mid)
      × (apply_op mid op ≡ throws err op)
unfolding apply_patch
apply_patch_stops ir [] err op e = cc
apply_patch_stops ir (o ∷ ops) err op e = elim (Result-cases (apply_op ir o)) [
  | inl (next, first) ↦
      let (before, after, mid, split, ran, raised) =
        apply_patch_stops next ops err op (rw first at e) in
      (o ∷ before, after, mid, ap (◌∷◌ o) split, rw first ran, raised)
  | inr (err', op', first) ↦
      let same : op' ≡ o = subst (OnThrow (λ x. x ≡ o)) first (apply_op-OnThrow ir o) in
      let stop : ◌≡◌ {A = Result Pipeline} (throws err' op') (throws err op) = rw first at e in
      ([], ops, ir, cc, refl, cc)
]
