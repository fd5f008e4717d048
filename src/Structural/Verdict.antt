-- ===== src/Structural/Verdict.antt =====
-- All passes of `validateStructural`, in the order of the code. `none` is fuel that ran out.
use workflow_control.Prelude.{
  String, Option, none, some, List, [], ◌++◌, ◌≡◌, refl, sym, ap, ◌∙◌, ◌↔◌, All, Distinct, arith,
}
use mathlib.Core.Option.{some-injective}
use workflow_control.Ir.{Pipeline, Stage}
use workflow_control.Segments.{stage_names}
use workflow_control.Structural.{Diagnostic}
use workflow_control.Structural.Silence.{append_silent}
use workflow_control.Structural.Names.{name_diagnostics}
use workflow_control.Structural.Names.Correct.{NamesOk, name_diagnostics_correct}
use workflow_control.Structural.Stages.{type_diagnostics}
use workflow_control.Structural.Stages.Correct.{StageOk, type_diagnostics_correct}
use workflow_control.Structural.Wiring.{wire_diagnostics, dataflow_diagnostics}
use workflow_control.Structural.Wiring.Correct.{WiresOk, wire_diagnostics_correct}
use workflow_control.Structural.Ancestors.{join, rollback_diagnostics}
use workflow_control.Structural.Ancestors.Rule.{GateCoherent, rollback_diagnostics_correct}
use workflow_control.Structural.Sessions.{session_diagnostics}
use workflow_control.Structural.Sessions.Rounds.{session_diagnostics_returns}
use workflow_control.Structural.EnvKeys.{env_key_diagnostics, servers_of}
use workflow_control.Structural.EnvKeys.Correct.{ServerOk, env_key_diagnostics_correct}

-- Where the registry of script modules is not given, its rule is skipped.
unfoldable pub validate_structural :
    (allowed : Option (List String)) → Pipeline → Option (List Diagnostic)
validate_structural allowed ir =
    join
      (some (name_diagnostics ir ++ type_diagnostics allowed (stage_names ir) ir.wires ir.stages))
      (join (rollback_diagnostics ir.wires ir.stages) (
        join (some (wire_diagnostics ir [] ir.wires ++ dataflow_diagnostics ir))
          (join (session_diagnostics ir) (some (env_key_diagnostics ir.stages)))))

-- What the rules ask of a pipeline. The rules on empty dataflow and on the resumption of sessions are
-- taken as they are.
pub record IsStructured (allowed : Option (List String)) (ir : Pipeline) : Type 0 where
  pub names : NamesOk ir
  pub types : All (StageOk allowed (stage_names ir) ir.wires) ir.stages
  pub coherent : All (λ (s : Stage). GateCoherent ir.wires s.name s.config) ir.stages
  pub wires : WiresOk ir
  pub flows : dataflow_diagnostics ir ≡ []
  pub resumes : session_diagnostics ir ≡ some []
  pub keys : All (λ (s : Stage). All ServerOk (servers_of s.config)) ir.stages

join_silent :
    (o p : Option (List Diagnostic)) → (join o p ≡ some []) ↔ ((o ≡ some []) × (p ≡ some []))
join_silent none p = ground arith
join_silent (some xs) none = ground arith
join_silent (some xs) (some ys) = ground (arith, append_silent xs ys)

join_returns :
    (o p : Option (List Diagnostic))
    → (xs : List Diagnostic) × (o ≡ some xs)
    → (ys : List Diagnostic) × (p ≡ some ys)
    → (ds : List Diagnostic) × (join o p ≡ some ds)
join_returns o p (xs, e) (ys, f) = (xs ++ ys, rw (e, f) refl)

parts_silent :
    (xs ys : List Diagnostic) (p : Option (List Diagnostic))
    → (join (some (xs ++ ys)) p ≡ some []) ↔ ((xs ≡ []) × (ys ≡ []) × (p ≡ some []))
parts_silent xs ys none = ground arith
parts_silent xs ys (some zs) = ground (arith, append_silent (xs ++ ys) zs, append_silent xs ys)

module _ (allowed : Option (List String)) (ir : Pipeline) where
  -- Every pass on its own.
  abbrev ArePassed : Type 0
  ArePassed =
      (name_diagnostics ir ≡ [])
      × (type_diagnostics allowed (stage_names ir) ir.wires ir.stages ≡ [])
      × (rollback_diagnostics ir.wires ir.stages ≡ some [])
      × (wire_diagnostics ir [] ir.wires ≡ [])
      × (dataflow_diagnostics ir ≡ [])
      × (session_diagnostics ir ≡ some [])
      × (env_key_diagnostics ir.stages ≡ [])

  passes_silent : (validate_structural allowed ir ≡ some []) ↔ ArePassed
  unfolding validate_structural
  passes_silent =
      let keys = some (env_key_diagnostics ir.stages) in
      let last = join (session_diagnostics ir) keys in
      let wires = wire_diagnostics ir [] ir.wires in
      let later = join (some (wires ++ dataflow_diagnostics ir)) last in
      ground (
        arith,
        parts_silent (name_diagnostics ir)
            (type_diagnostics allowed (stage_names ir) ir.wires ir.stages)
            (join (rollback_diagnostics ir.wires ir.stages) later),
        join_silent (rollback_diagnostics ir.wires ir.stages) later,
        parts_silent wires (dataflow_diagnostics ir) last,
        join_silent (session_diagnostics ir) keys,
      )

  -- The structural rules are silent exactly for the pipelines with well-formed names, stages, answers
  -- of gates, wires and environment keys, on which the rules on dataflow and on sessions are silent.
  pub validate_structural_correct :
      (validate_structural allowed ir ≡ some []) ↔ IsStructured allowed ir
  validate_structural_correct =
      let (rs, returned, iff) = rollback_diagnostics_correct ir.wires ir.stages in
      let named = name_diagnostics_correct ir in
      let typed = type_diagnostics_correct allowed (stage_names ir) ir.wires ir.stages in
      let keyed = env_key_diagnostics_correct ir.stages in
      (
        (λ e.
            let (n, t, r, w, f, s, k) = passes_silent.0 e in
            record {
              names = named.0 n;
              types = typed.0 t;
              coherent = iff.0 (some-injective rs [] (sym returned ∙ r));
              wires = (wire_diagnostics_correct ir (named.0 n).stages_distinct).0 w;
              flows = f;
              resumes = s;
              keys = keyed.0 k;
            }),
        λ h. passes_silent.1 (
          named.1 h.names,
          typed.1 h.types,
          returned ∙ ap some (iff.1 h.coherent),
          (wire_diagnostics_correct ir h.names.stages_distinct).1 h.wires,
          h.flows,
          h.resumes,
          keyed.1 h.keys,
        ),
      )

  -- For a pipeline whose stage names are distinct the rules return.
  pub validate_structural_returns :
      Distinct (stage_names ir)
      → (ds : List Diagnostic) × (validate_structural allowed ir ≡ some ds)
  unfolding validate_structural
  validate_structural_returns d =
      let (rs, e, _) = rollback_diagnostics_correct ir.wires ir.stages in
      join_returns _ _ (_, refl)
        (join_returns _ _ (rs, e)
          (join_returns _ _ (_, refl)
            (join_returns _ _ (session_diagnostics_returns ir d) (_, refl))))
