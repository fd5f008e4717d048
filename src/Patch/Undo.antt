-- ===== src/Patch/Undo.antt =====
-- Operations of a patch that undo one another, and what the removal of a stage leaves.
use workflow_control.Prelude.{
  String, Bool, true, false, not, List, [], ◌∷◌, ◌++◌, ◌≡◌, ◌≢◌, refl, subst, ◌↔◌, eq_iff, eq_self,
  inl, inr, In, In-keep, In-keep_intro, any, keep, length, length-append, nat_eq, Bool-cases, arith,
}
use mathlib.Core.List.{append-nil}
use workflow_control.Ir.{Pipeline, Stage, Wire}
use workflow_control.Ir.Wires.{source_port, wire_source_key_prefix}
use workflow_control.Patch.{
  add_stage, remove_stage, add_wire, remove_wire, ok, apply_op, apply_patch, same_ends, touches,
  is_named, OnOk,
}
use workflow_control.Patch.Keeps.{keep-not, keep-append}

-- What is appended is dropped again by a test that it alone passes.
module _ {A : Type 0} (p : A → Bool) (a : A) (xs : List A) (new : p a ≡ true)
    (absent : any p xs ≡ false) where
  keep_added : keep (λ x. not (p x)) (xs ++ a ∷ []) ≡ xs
  keep_added =
      rw (keep-append (λ x. not (p x)) xs (a ∷ []), keep-not p xs absent, new) (append-nil xs)

  shorter : nat_eq (length (keep (λ x. not (p x)) (xs ++ a ∷ []))) (length (xs ++ a ∷ [])) ≡ false
  shorter = rw keep_added (ground (arith, length-append xs (a ∷ [])))

same_ends_self : (w : Wire) → same_ends w w ≡ true
unfolding same_ends
same_ends_self w = rw (
  eq_self (wire_source_key_prefix w),
  eq_self (source_port w.from),
  eq_self w.to.stage,
  eq_self w.to.port,
)

-- To add a stage with a new name that no wire touches and to remove it again changes nothing.
pub add-remove_stage :
    (ir : Pipeline) (s : Stage)
    → any (is_named s.name) ir.stages ≡ false
    → any (touches s.name) ir.wires ≡ false
    → apply_patch ir (add_stage s ∷ remove_stage s.name ∷ []) ≡ ok ir
unfolding apply_patch
add-remove_stage ir s absent apart = rw (
  absent,
  shorter (is_named s.name) s ir.stages (eq_self s.name) absent,
  keep_added (is_named s.name) s ir.stages (eq_self s.name) absent,
  keep-not (touches s.name) ir.wires apart,
)

-- To add a wire where no wire has its ends and to remove it again changes nothing.
pub add-remove_wire :
    (ir : Pipeline) (w : Wire)
    → any (same_ends w) ir.wires ≡ false
    → apply_patch ir (add_wire w ∷ remove_wire w ∷ []) ≡ ok ir
unfolding apply_patch
add-remove_wire ir w absent = rw (
  absent,
  shorter (same_ends w) w ir.wires (same_ends_self w) absent,
  keep_added (same_ends w) w ir.wires (same_ends_self w) absent,
)

-- The stages and wires that are left where those of stage `n` are removed, all else unchanged.
abbrev Removed : Pipeline → String → Pipeline → Type 0
Removed ir n next =
    ((s : Stage) → In s next.stages ↔ (In s ir.stages × (s.name ≢ n)))
    × ((w : Wire)
        → In w next.wires ↔ (In w ir.wires × (wire_source_key_prefix w ≢ n) × (w.to.stage ≢ n)))
    × (record next { stages = ir.stages; wires = ir.wires } ≡ ir)

remove_stage-Removed :
    (ir : Pipeline) (n : String) → OnOk (Removed ir n) (apply_op ir (remove_stage n))
unfolding apply_op
remove_stage-Removed ir n =
    elim (Bool-cases
      (nat_eq (length (keep (λ s. not (is_named n s)) ir.stages)) (length ir.stages))) [
        | inl t ↦ rw t tt
        | inr f ↦ rw f (
          (λ s. (
            λ m. ground (arith, In-keep (λ t. not (is_named n t)) s ir.stages m, eq_iff s.name n),
            λ m.
                In-keep_intro (λ t. not (is_named n t)) s ir.stages m.0
                  (ground (arith, eq_iff s.name n)),
          )),
          (λ w. (
            λ m. ground (
              arith,
              In-keep (λ v. not (touches n v)) w ir.wires m,
              eq_iff (wire_source_key_prefix w) n,
              eq_iff w.to.stage n,
            ),
            λ m.
                In-keep_intro (λ v. not (touches n v)) w ir.wires m.0
                  (ground (arith, eq_iff (wire_source_key_prefix w) n, eq_iff w.to.stage n)),
          )),
          refl,
        )
      ]

-- The removal of a stage, where it goes through, leaves exactly the other stages and exactly the
-- wires that neither start nor end at it, and changes nothing else.
pub remove_stage_correct :
    (ir next : Pipeline) (n : String)
    → apply_op ir (remove_stage n) ≡ ok next
    → ((s : Stage) → In s next.stages ↔ (In s ir.stages × (s.name ≢ n)))
      × ((w : Wire)
          → In w next.wires ↔ (In w ir.wires × (wire_source_key_prefix w ≢ n) × (w.to.stage ≢ n)))
      × (record next { stages = ir.stages; wires = ir.wires } ≡ ir)
remove_stage_correct ir next n e = subst (OnOk (Removed ir n)) e (remove_stage-Removed ir n)
