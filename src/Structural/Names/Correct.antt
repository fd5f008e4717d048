-- ===== src/Structural/Names/Correct.antt =====
-- What a pipeline is like on whose names there is no diagnostic.
use workflow_control.Prelude.{
  String, some, false, not, List, [], ◌∷◌, ◌++◌, ◌≡◌, refl, sym, subst, ◌↔◌, inl, inr, ◌==◌, eq_iff,
  includes, includes_iff, not_includes, set_add, set_add_iff, In, All, Distinct, Bool-cases,
  Option-cases, arith,
}
use mathlib.Core.Option.{some-injective}
use workflow_control.Ir.{Pipeline, Stage}
use workflow_control.Segments.{stage_names}
use workflow_control.Structural.{
  report, duplicates, in_side, out_side, duplicate_stage_name, duplicate_port_name,
  entry_stage_missing, duplicate_external_input_name, external_input_collides_with_stage,
}
use workflow_control.Structural.Silence.{append3_silent, report_silent, duplicates_silent}
use workflow_control.Structural.Names.{
  reserved, entry_diagnostics, reserved_names, inputs_of, port_names, external_inputs,
  port_diagnostics, name_diagnostics,
}

entry_silent :
    (ir : Pipeline)
    → (entry_diagnostics ir ≡ []) ↔ ((e : String) → ir.entry ≡ some e → In e (stage_names ir))
unfolding entry_diagnostics
entry_silent ir = elim (Option-cases ir.entry) [
  | inl e ↦ rw (e, entry_diagnostics) ((λ p x q. cc), λ h. refl)
  | inr (n, e) ↦
      rw (e, entry_diagnostics)
        (
          (λ p x q.
              subst (λ y. In y (stage_names ir)) (some-injective n x q)
                ((includes_iff (stage_names ir) n).0 (
                  ground (
                    arith,
                    report_silent (not (includes (stage_names ir) n)) (entry_stage_missing n),
                  )))),
          λ h.
              (report_silent (not (includes (stage_names ir) n)) (entry_stage_missing n)).1
                (ground (arith, (includes_iff (stage_names ir) n).1 (h n refl))),
        )
]

reserved_silent : (ns : List String) → (reserved_names ns ≡ []) ↔ ¬ In reserved ns
unfolding reserved_names
reserved_silent [] = ground arith
reserved_silent (n ∷ ns) = ground (arith, reserved_silent ns, eq_iff n reserved)

excluded : (xs : List String) (x : String) → ¬ In x xs → includes xs x ≡ false
excluded xs x n = ground (arith, includes_iff xs x)

externals_step :
    (stages seen : List String) (n : String) (ns : List String)
    → (n == reserved) ≡ false
    → (external_inputs stages seen (n ∷ ns) ≡ []) ↔ (
        (includes seen n ≡ false)
        × (includes stages n ≡ false)
        × (external_inputs stages (set_add seen n) ns ≡ []))
unfolding external_inputs
externals_step stages seen n ns e =
    rw (e, external_inputs)
      (ground (
        arith,
        append3_silent (report (includes seen n) (duplicate_external_input_name n))
            (report (includes stages n) (external_input_collides_with_stage n))
            (external_inputs stages (set_add seen n) ns),
        report_silent (includes seen n) (duplicate_external_input_name n),
        report_silent (includes stages n) (external_input_collides_with_stage n),
      ))

-- The external inputs, none of which has the reserved name, are distinct and no stage has the
-- name of one.
externals_silent :
    (stages seen ns : List String)
    → (external_inputs stages seen ns ≡ [])
      ↔ (¬ In reserved ns × Distinct ns × ((n : String) → In n ns → ¬ In n seen × ¬ In n stages))
unfolding external_inputs
externals_silent stages seen [] = ((λ e. ((λ m. m), tt, λ n m. absurd m)), λ h. refl)
externals_silent stages seen (n ∷ ns) = elim (Bool-cases (n == reserved)) [
  | inl e ↦ rw (e, external_inputs) ((λ p. cc), λ h. absurd (h.0 (inl ((eq_iff n reserved).0 e))))
  | inr e ↦
      let ih = externals_silent stages (set_add seen n) ns in
      let step = externals_step stages seen n ns e in
      (
        (λ p.
            let (a, b, r) = step.0 p in
            let (clean, once, apart) = ih.0 r in
            (
              (λ m. elim m [
                | inl same ↦ absurd (ground (arith, eq_iff n reserved))
                | inr m' ↦ clean m'
              ]),
              ((λ m. (apart n m).0 ((set_add_iff seen n n).1 (inr refl))), once),
              λ x m. elim m [
                | inl same ↦ (
                  not_includes seen x (subst (λ y. includes seen y ≡ false) same a),
                  not_includes stages x (subst (λ y. includes stages y ≡ false) same b),
                )
                | inr m' ↦
                    ((λ o. (apart x m').0 ((set_add_iff seen n x).1 (inl o))), (apart x m').1)
              ],
            )),
        λ h.
            let (clean, once, apart) = h in
            step.1 (
              excluded seen n (apart n (inl refl)).0,
              excluded stages n (apart n (inl refl)).1,
              ih.1 (
                (λ m. clean (inr m)),
                once.1,
                λ x m. (
                  (λ o. elim ((set_add_iff seen n x).0 o) [
                    | inl q ↦ (apart x (inr m)).0 q
                    | inr q ↦ once.0 (subst (λ y. In y ns) (sym q) m)
                  ]),
                  (apart x (inr m)).1,
                ),
              ),
            ),
      )
]

abbrev pub PortsDistinct : List Stage → Type 0
PortsDistinct =
    All (λ (s : Stage). Distinct (port_names s.inputs) × Distinct (port_names s.outputs))

ports_silent : (stages : List Stage) → (port_diagnostics stages ≡ []) ↔ PortsDistinct stages
unfolding port_diagnostics
ports_silent [] = ground arith
ports_silent (s ∷ stages) = ground (
  arith,
  ports_silent stages,
  append3_silent (duplicates (λ p. duplicate_port_name s.name p in_side) [] (port_names s.inputs))
      (duplicates (λ p. duplicate_port_name s.name p out_side) [] (port_names s.outputs))
      (port_diagnostics stages),
  duplicates_silent (λ p. duplicate_port_name s.name p in_side) [] (port_names s.inputs),
  duplicates_silent (λ p. duplicate_port_name s.name p out_side) [] (port_names s.outputs),
)

-- Stage names are distinct; the entry is a stage; external inputs are distinct and no stage has the
-- name of one; the ports of each side of a stage are distinct; nothing has the reserved name.
pub record NamesOk (ir : Pipeline) : Type 0 where
  pub stages_distinct : Distinct (stage_names ir)
  pub entry_declared : (e : String) → ir.entry ≡ some e → In e (stage_names ir)
  pub stages_allowed : ¬ In reserved (stage_names ir)
  pub inputs_allowed : ¬ In reserved (port_names (inputs_of ir))
  pub inputs_distinct : Distinct (port_names (inputs_of ir))
  pub inputs_apart : (n : String) → In n (port_names (inputs_of ir)) → ¬ In n (stage_names ir)
  pub ports_distinct : PortsDistinct ir.stages

-- The rules on names give no diagnostic exactly for a pipeline whose stage names are distinct,
-- whose entry is a stage where it has one, whose external inputs are distinct and no stage names,
-- whose stages have distinct input ports and distinct output ports, and in which neither a stage
-- nor an external input has the reserved name.
pub name_diagnostics_correct : (ir : Pipeline) → (name_diagnostics ir ≡ []) ↔ NamesOk ir
unfolding name_diagnostics
name_diagnostics_correct ir =
    let stages = duplicates duplicate_stage_name [] (stage_names ir) in
    let entry = entry_diagnostics ir in
    let names = reserved_names (stage_names ir) in
    let inputs = external_inputs (stage_names ir) [] (port_names (inputs_of ir)) in
    let first = append3_silent (stages ++ entry ++ names) inputs (port_diagnostics ir.stages) in
    let second = append3_silent stages entry names in
    let stages' = duplicates_silent duplicate_stage_name [] (stage_names ir) in
    let inputs' = externals_silent (stage_names ir) [] (port_names (inputs_of ir)) in
    (
      (λ p.
          let (q, d, e) = first.0 p in
          let (a, b, c) = second.0 q in
          let (allowed, once, apart) = inputs'.0 d in
          record {
            stages_distinct = (stages'.0 a).0;
            entry_declared = (entry_silent ir).0 b;
            stages_allowed = (reserved_silent (stage_names ir)).0 c;
            inputs_allowed = allowed;
            inputs_distinct = once;
            inputs_apart = λ n m. (apart n m).1;
            ports_distinct = (ports_silent ir.stages).0 e;
          }),
      λ h. first.1 (
        second.1 (
          stages'.1 (h.stages_distinct, λ n m o. o),
          (entry_silent ir).1 h.entry_declared,
          (reserved_silent (stage_names ir)).1 h.stages_allowed,
        ),
        inputs'.1 (h.inputs_allowed, h.inputs_distinct, λ n m. ((λ o. o), h.inputs_apart n m)),
        (ports_silent ir.stages).1 h.ports_distinct,
      ),
    )
