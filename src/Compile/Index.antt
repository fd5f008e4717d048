-- ===== src/Compile/Index.antt =====
-- The index of the stages, by which each region is built.
use workflow_control.Prelude.{
  String, none, some, true, List, [], ◌∷◌, ◌++◌, foldl, map, ◌≡◌, refl, ap, subst, ◌∙◌, ◌↔◌, inl,
  inr, ◌==◌, eq_iff, eq_self, includes_iff, keep, In, Distinct, map_get, map_set, map_get-map_set,
  Bool-cases, Option-cases, arith, if◌then◌else◌,
}
use mathlib.Core.List.{append_assoc, append-nil}
use workflow_control.Ir.{Pipeline, Stage, Port, Wire}
use workflow_control.Segments.{stage_names}
use workflow_control.Machine.Context.{StageMeta, InboundWire}
use workflow_control.Structural.Wiring.{type_of}
use workflow_control.Compile.{
  blank_meta, inbound_wire, add_inbound, index_with, index_stages, gate_routed_targets, port_key,
}
use workflow_control.Compile.Routed.{IsRouted, IsRouted-correct}

-- The wires into a stage, in their order.
abbrev pub wires_into : List Wire → String → List Wire
wires_into ws n = keep (λ w. w.to.stage == n) ws

abbrev with_inbound : StageMeta → List InboundWire → StageMeta
with_inbound meta more = record meta { inbound = meta.inbound ++ more }

add_inbound_lem :
    (index : List (String × StageMeta)) (w : Wire) (n : String) (meta : StageMeta)
    → map_get index n ≡ some meta
    → map_get (add_inbound index w) n
      ≡ some (with_inbound meta (if w.to.stage == n then inbound_wire w ∷ [] else []))
unfolding add_inbound
add_inbound_lem index w n meta h = elim (Bool-cases (w.to.stage == n)) [
  | inl t ↦
      let same = (eq_iff w.to.stage n).0 t in
      rw
        (
          ap (map_get index) same ∙ h,
          add_inbound,
          map_get-map_set index w.to.stage n (with_inbound meta (inbound_wire w ∷ [])),
          t,
        )
        refl
  | inr f ↦ elim (Option-cases (map_get index w.to.stage)) [
    | inl e ↦ rw (e, add_inbound, f, append-nil meta.inbound) h
    | inr (entry, e) ↦
        rw
          (
            e,
            add_inbound,
            map_get-map_set index w.to.stage n (with_inbound entry (inbound_wire w ∷ [])),
            f,
            append-nil meta.inbound,
          )
          h
  ]
]

add_inbound_none :
    (index : List (String × StageMeta)) (w : Wire) (n : String)
    → map_get index n ≡ none
    → map_get (add_inbound index w) n ≡ none
unfolding add_inbound
add_inbound_none index w n h = elim (Option-cases (map_get index w.to.stage)) [
  | inl e ↦ rw (e, add_inbound) h
  | inr (entry, e) ↦
      rw (e, add_inbound)
        (ground (
          arith,
          map_get-map_set index w.to.stage n (with_inbound entry (inbound_wire w ∷ [])),
          eq_iff w.to.stage n,
          ap (map_get index),
          e,
          h,
        ))
]

wires_lem :
    (index : List (String × StageMeta)) (ws : List Wire) (n : String) (meta : StageMeta)
    → map_get index n ≡ some meta
    → map_get (foldl add_inbound index ws) n
      ≡ some (with_inbound meta (map inbound_wire (wires_into ws n)))
wires_lem index [] n meta h = rw (append-nil meta.inbound) h
wires_lem index (w ∷ ws) n meta h =
    let k = add_inbound_lem index w n meta h in
    elim (Bool-cases (w.to.stage == n)) [
      | inl t ↦ rw t (
          wires_lem (add_inbound index w) ws n (with_inbound meta (inbound_wire w ∷ [])) (rw t at k)
          ∙ ap (λ l. some (record meta { inbound = l }))
              (append_assoc meta.inbound (inbound_wire w ∷ [])
                (map inbound_wire (wires_into ws n))))
      | inr f ↦
          rw f (wires_lem (add_inbound index w) ws n meta (rw (f, append-nil meta.inbound) at k))
    ]

wires_none :
    (index : List (String × StageMeta)) (ws : List Wire) (n : String)
    → map_get index n ≡ none
    → map_get (foldl add_inbound index ws) n ≡ none
wires_none index [] n h = h
wires_none index (w ∷ ws) n h = wires_none (add_inbound index w) ws n (add_inbound_none index w n h)

abbrev names : List Stage → List String
names stages = map (λ (s : Stage). s.name) stages

abbrev blanks :
    (routed : List String) → List (String × StageMeta) → List Stage → List (String × StageMeta)
blanks routed m stages = foldl (λ m (s : Stage). map_set m s.name (blank_meta routed s)) m stages

blank_other :
    (routed : List String) (m : List (String × StageMeta)) (stages : List Stage) (n : String)
    → ¬ In n (names stages)
    → map_get (blanks routed m stages) n ≡ map_get m n
blank_other routed m [] n h = refl
blank_other routed m (s ∷ stages) n h =
    blank_other routed (map_set m s.name (blank_meta routed s)) stages n (λ i. h (inr i))
    ∙ ground (arith, map_get-map_set m s.name n (blank_meta routed s), eq_iff s.name n)

blank_own :
    (routed : List String) (m : List (String × StageMeta)) (stages : List Stage) (s : Stage)
    → Distinct (names stages)
    → In s stages
    → map_get (blanks routed m stages) s.name ≡ some (blank_meta routed s)
blank_own routed m [] s d i = absurd i
blank_own routed m (q ∷ stages) s d (inl e) =
    subst
      (λ (z : Stage).
        map_get (blanks routed (map_set m q.name (blank_meta routed q)) stages) z.name
        ≡ some (blank_meta routed z))
      e
      (blank_other routed (map_set m q.name (blank_meta routed q)) stages q.name d.0
        ∙ ground (arith, map_get-map_set m q.name q.name (blank_meta routed q), eq_self q.name))
blank_own routed m (q ∷ stages) s d (inr i) =
    blank_own routed (map_set m q.name (blank_meta routed q)) stages s d.1 i

-- What a region is built from.
pub record IsIndexed (ir : Pipeline) (s : Stage) (meta : StageMeta) : Type 0 where
  pub type_kept : meta.stage_type ≡ type_of s.config
  pub wires_in : meta.inbound ≡ map inbound_wire (wires_into ir.wires s.name)
  pub keys_out : meta.outbound ≡ map (λ (p : Port). port_key s.name p.name) s.outputs
  pub waits : (meta.gate_routed ≡ true) ↔ IsRouted ir s.name

-- For every pipeline whose stage names are distinct the index is built, and it holds for each stage
-- its type, its wires in their order, the keys of its outputs, and that it waits for the answer of a
-- gate exactly when some gate has it among its targets and it is not an ancestor of that gate; and
-- it holds nothing for other names.
pub index_stages_correct :
    (ir : Pipeline)
    → Distinct (stage_names ir)
    → (index : List (String × StageMeta)) × (index_stages ir ≡ some index)
      × ((s : Stage)
          → In s ir.stages
          → (meta : StageMeta) × (map_get index s.name ≡ some meta) × IsIndexed ir s meta)
      × ((n : String) → ¬ In n (stage_names ir) → map_get index n ≡ none)
unfolding index_stages index_with map_get
index_stages_correct ir d =
    let (m, e, routed_iff) = IsRouted-correct ir in
    let routed = gate_routed_targets m [] ir.stages in
    (
      index_with routed ir,
      rw (e, index_stages) refl,
      (λ s i. (
        with_inbound (blank_meta routed s) (map inbound_wire (wires_into ir.wires s.name)),
        wires_lem (blanks routed [] ir.stages) ir.wires s.name (blank_meta routed s)
            (blank_own routed [] ir.stages s d i),
        record {
          type_kept = refl;
          wires_in = refl;
          keys_out = refl;
          waits = (
            (λ t. (routed_iff s.name).0 ((includes_iff routed s.name).0 t)),
            λ r. (includes_iff routed s.name).1 ((routed_iff s.name).1 r),
          );
        },
      )),
      (λ n h.
          wires_none (blanks routed [] ir.stages) ir.wires n (blank_other routed [] ir.stages n h)),
    )
