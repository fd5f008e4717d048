-- ===== src/Patch/Unique.antt =====
-- The invariant of patches on names: those of stages, those of external inputs, the ends of wires.
use workflow_control.Prelude.{
  String, Bool, true, not, List, [], ◌∷◌, map, ◌≡◌, refl, subst, eq_iff, Distinct, any, all, find,
  keep, length, nat_eq, Option-cases, Bool-cases, inl, inr, arith,
}
use workflow_control.Ir.{Port, Pipeline, Stage, Wire}
use workflow_control.Ir.Wires.{source_port, wire_source_key_prefix}
use workflow_control.Patch.{
  PatchOp, add_stage, remove_stage, add_wire, remove_wire, update_port_type, update_stage_config,
  add_external_input, remove_external_input, Direction, inward, outward, ok, coalesce, apply_op,
  apply_patch, same_ends, set_port_type, stage_has_port, is_port, is_named, is_allowed,
  merge_config, update_first, OnOk, bind_OnOk,
}
use workflow_control.Patch.Keeps.{Distinct-map-keep, map-update_first, Distinct-add}

-- What makes two wires the same to a patch. The guard is not part of it.
abbrev pub ends : Wire → String × String × String × String
ends w = (wire_source_key_prefix w, source_port w.from, w.to.stage, w.to.port)

pub record IsUnique (ir : Pipeline) : Type 0 where
  pub stages : Distinct (map (λ (s : Stage). s.name) ir.stages)
  pub wires : Distinct (map ends ir.wires)
  pub inputs : Distinct (map (λ (p : Port). p.name) (coalesce ir.external_inputs))

same_ends_of_eq : (w v : Wire) → ends v ≡ ends w → same_ends w v ≡ true
unfolding same_ends
same_ends_of_eq w v e = ground (
  arith,
  e,
  eq_iff (wire_source_key_prefix v) (wire_source_key_prefix w),
  eq_iff (source_port v.from) (source_port w.from),
  eq_iff v.to.stage w.to.stage,
  eq_iff v.to.port w.to.port,
)

set_port_type-name :
    (d : Direction) (port new_type : String) (s : Stage)
    → (set_port_type d port new_type s).name ≡ s.name
unfolding set_port_type
set_port_type-name inward port new_type s = refl
set_port_type-name outward port new_type s = refl

module _ (ir : Pipeline) (u : IsUnique ir) where
  renamed :
      (p : Stage → Bool) (f : Stage → Stage)
      → ((s : Stage) → (f s).name ≡ s.name)
      → IsUnique (record ir { stages = update_first p f ir.stages })
  renamed p f same = record {
    stages = rw (map-update_first (λ (s : Stage). s.name) p f ir.stages same) u.stages;
    wires = u.wires;
    inputs = u.inputs;
  }

  apply_op-IsUnique : (op : PatchOp) → OnOk IsUnique (apply_op ir op)
  unfolding apply_op
  apply_op-IsUnique (add_stage s) = elim (Bool-cases (any (is_named s.name) ir.stages)) [
    | inl t ↦ rw t tt
    | inr f ↦ rw f (record {
      stages =
          Distinct-add (λ (x : Stage). x.name) s (is_named s.name) (λ x. (eq_iff x.name s.name).1)
            ir.stages f u.stages;
      wires = u.wires;
      inputs = u.inputs;
    })
  ]
  apply_op-IsUnique (remove_stage n) =
      elim (Bool-cases
        (nat_eq (length (keep (λ s. not (is_named n s)) ir.stages)) (length ir.stages))) [
          | inl t ↦ rw t tt
          | inr f ↦ rw f (record {
            stages = Distinct-map-keep (λ (x : Stage). x.name) _ ir.stages u.stages;
            wires = Distinct-map-keep ends _ ir.wires u.wires;
            inputs = u.inputs;
          })
        ]
  apply_op-IsUnique (add_wire w) = elim (Bool-cases (any (same_ends w) ir.wires)) [
    | inl t ↦ rw t tt
    | inr f ↦ rw f (record {
      stages = u.stages;
      wires = Distinct-add ends w (same_ends w) (λ x. same_ends_of_eq w x) ir.wires f u.wires;
      inputs = u.inputs;
    })
  ]
  apply_op-IsUnique (remove_wire w) =
      elim (Bool-cases
        (nat_eq (length (keep (λ v. not (same_ends w v)) ir.wires)) (length ir.wires))) [
          | inl t ↦ rw t tt
          | inr f ↦ rw f (record {
            stages = u.stages;
            wires = Distinct-map-keep ends _ ir.wires u.wires;
            inputs = u.inputs;
          })
        ]
  apply_op-IsUnique (update_port_type n port d new_type) =
      elim (Option-cases (find (is_named n) ir.stages)) [
        | inl e ↦ rw (e, apply_op) tt
        | inr (s, e) ↦
            rw (e, apply_op)
              (elim (Bool-cases (stage_has_port d port s)) [
                | inl t ↦ rw t (
                    renamed (is_named n) (set_port_type d port new_type)
                      (set_port_type-name d port new_type))
                | inr f ↦ rw f tt
              ])
      ]
  apply_op-IsUnique (update_stage_config n entries) =
      elim (Option-cases (find (is_named n) ir.stages)) [
        | inl e ↦ rw (e, apply_op) tt
        | inr (s, e) ↦
            rw (e, apply_op)
              (elim (Bool-cases (all (is_allowed s.config) entries)) [
                | inl t ↦ rw t (
                    renamed (is_named n) (λ t. record t { config = merge_config t.config entries })
                      (λ t. refl))
                | inr f ↦ rw f tt
              ])
      ]
  apply_op-IsUnique (add_external_input p) =
      elim (Bool-cases (any (is_port p.name) (coalesce ir.external_inputs))) [
        | inl t ↦ rw t tt
        | inr f ↦ rw f (record {
          stages = u.stages;
          wires = u.wires;
          inputs =
              Distinct-add (λ (x : Port). x.name) p (is_port p.name) (λ x. (eq_iff x.name p.name).1)
                (coalesce ir.external_inputs) f u.inputs;
        })
      ]
  apply_op-IsUnique (remove_external_input n) =
      elim (Bool-cases (
        nat_eq (length (keep (λ p. not (is_port n p)) (coalesce ir.external_inputs)))
          (length (coalesce ir.external_inputs)))) [
            | inl t ↦ rw t tt
            | inr f ↦ rw f (record {
              stages = u.stages;
              wires = u.wires;
              inputs =
                  Distinct-map-keep (λ (x : Port). x.name) _ (coalesce ir.external_inputs) u.inputs;
            })
          ]

apply_patch-OnOk :
    (ops : List PatchOp) (ir : Pipeline) → IsUnique ir → OnOk IsUnique (apply_patch ir ops)
unfolding apply_patch
apply_patch-OnOk [] ir u = u
apply_patch-OnOk (op ∷ ops) ir u =
    bind_OnOk IsUnique IsUnique (apply_op ir op) (λ mid. apply_patch mid ops)
      (apply_op-IsUnique ir u op) (λ mid v. apply_patch-OnOk ops mid v)

-- A patch that goes through on a pipeline whose stage names, external input names and wire ends
-- are unique gives a pipeline for which they are unique too.
pub apply_patch-IsUnique :
    (ir : Pipeline) (ops : List PatchOp) (next : Pipeline)
    → IsUnique ir
    → apply_patch ir ops ≡ ok next
    → IsUnique next
apply_patch-IsUnique ir ops next u e = subst (OnOk IsUnique) e (apply_patch-OnOk ops ir u)
