-- ===== src/Rebuild/Retry.antt =====
-- The reset for a retry.
use workflow_control.Prelude.{
  String, ℕ, suc, ◌+◌, ◌≤◌, ◌<◌, Option, none, some, true, false, List, ◌∷◌, ◌≡◌, ◌≢◌, refl, sym,
  ap, subst, ◌∙◌, ◌↔◌, inl, inr, ◌==◌, eq_iff, eq_self, ltb, includes, includes_iff, In, map_get,
  map_set, map_get-map_set, Bool-cases, arith,
}
use mathlib.Core.Option.{some-injective}
use workflow_control.Ir.{Pipeline, RetrySpec}
use workflow_control.Kahn.{or_zero}
use workflow_control.Reach.{topo_downstream}
use workflow_control.Reach.Loop.{Reaches, here}
use workflow_control.Reach.Correct.{topo_downstream_correct}
use workflow_control.Machine.{was_finalized, retry_count, retry_or_fail, executing_on}
use workflow_control.Machine.Context.{
  MachineContext, stage_failed, RetryToStage, Region, Phase, waiting, executing, go, go_raise,
  Outcome,
}
use workflow_control.Machine.Waiting.{react}
use workflow_control.Compile.Build.{CompileOptions, InitialContext, first_context}
use workflow_control.Rebuild.{reset_for_retry, retry_rebuild}
use workflow_control.Rebuild.Correct.{finals_lem, resumed}

-- The event tells of a retry that the budget of the stage allows.
record IsRetry (r : Region) (c : MachineContext) (p : Phase) (c' : MachineContext)
    (e : RetryToStage) : Type 0 where
  same : c' ≡ c
  back : p ≡ waiting
  named : e.failed_stage_name ≡ r.name
  allowed : retry_count r c < e.max_retries
  declared :
      (spec : RetrySpec) × (r.retry ≡ some spec)
      × (e.max_retries ≡ spec.max_retries)
      × (e.back_to_stage ≡ spec.back_to_stage)

raise_parts :
    (q p : Phase) (d d' : MachineContext) (f e : RetryToStage)
    → go_raise q d f ≡ go_raise p d' e
    → (q ≡ p) × (d ≡ d') × (f ≡ e)
raise_parts q p d d' f e h = (cc, cc, cc)

retry_lem :
    (o : Option RetrySpec) (r : Region) (message : String) (c : MachineContext) (p : Phase)
    (c' : MachineContext) (e : RetryToStage)
    → r.retry ≡ o
    → retry_or_fail o r message c ≡ go_raise p c' e
    → IsRetry r c p c' e
unfolding retry_or_fail
retry_lem none r message c p c' e k h = cc
retry_lem (some spec) r message c p c' e k h =
    elim (Bool-cases (ltb (retry_count r c) spec.max_retries)) [
      | inr t ↦ refused (rw (retry_or_fail, t) at h)
      | inl t ↦
          let (a, b, d) = raise_parts _ _ _ _ _ _ (rw (retry_or_fail, t) at h) in
          record {
            same = sym b;
            back = sym a;
            named = sym (ap (λ (x : RetryToStage). x.failed_stage_name) d);
            allowed = ground (arith, ap (λ (x : RetryToStage). x.max_retries) d);
            declared = (
              spec,
              k,
              sym (ap (λ (x : RetryToStage). x.max_retries) d),
              sym (ap (λ (x : RetryToStage). x.back_to_stage) d),
            );
          }
    ]
  where
    refused : {q : Phase} {d : MachineContext} → go q d ≡ go_raise p c' e → IsRetry r c p c' e
    refused h = cc

failed_lem :
    (r : Region) (message : String) (c : MachineContext) (p : Phase) (c' : MachineContext)
    (e : RetryToStage)
    → react r (stage_failed r.name message) executing c ≡ some (go_raise p c' e)
    → IsRetry r c p c' e
unfolding react executing_on
failed_lem r message c p c' e h =
    let same : (r.name == r.name) ≡ true = eq_self r.name in
    let taken : some (retry_or_fail r.retry r message c) ≡ some (go_raise p c' e) = rw same at h in
    retry_lem r.retry r message c p c' e refl (some-injective _ _ taken)

-- When the failure of a stage makes the machine ask for a retry, the budget of the stage is not used up, and
-- the reset that follows counts the retry: from the new context on, one retry more of the stage has been
-- made. The stage that the retry goes back to and all stages that the wires lead to from it are no longer
-- recorded as ended; every other stage is recorded as before, and all authorizations stay.
pub retry_rebuild_correct :
    (ir : Pipeline) (options : CompileOptions) (r : Region) (message : String)
    (c c' : MachineContext) (p : Phase) (e : RetryToStage)
    → react r (stage_failed r.name message) executing c ≡ some (go_raise p c' e)
    → (i : InitialContext) × (retry_rebuild ir c' e ≡ some i)
      × (retry_count r (first_context ir (resumed options i)) ≡ suc (retry_count r c))
      × (retry_count r (first_context ir (resumed options i)) ≤ e.max_retries)
      × ((n : String) (o : Outcome)
          → (Reaches ir.wires e.back_to_stage n
              → was_finalized (first_context ir (resumed options i)) n o ≡ false)
            × (¬ Reaches ir.wires e.back_to_stage n
                → was_finalized (first_context ir (resumed options i)) n o ≡ was_finalized c n o))
      × ((first_context ir (resumed options i)).gate_authorized_targets ≡ c.gate_authorized_targets)
unfolding retry_rebuild
retry_rebuild_correct ir options r message c c' p e h =
    let k = failed_lem r message c p c' e h in
    let (downstream, f, reach, once) = topo_downstream_correct ir.wires e.back_to_stage in
    let resets : List String = e.back_to_stage ∷ downstream in
    let i = reset_for_retry ir c e resets in
    let count = counted c.retry_counts e.failed_stage_name r.name k.named in
    (
      i,
      ap (λ x. retry_rebuild ir x e) k.same ∙ returned c f,
      count,
      omega (arith, count, k.allowed),
      λ n o. (
        (λ q.
            rw
              (
                finals_lem resets c.finalized_stages n o,
                (includes_iff resets n).1 (in_resets e.back_to_stage downstream n (reach n) q),
              )
              refl),
        λ q.
            let t : includes resets n ≡ false =
              out_of_resets e.back_to_stage downstream n (reach n) q in
            rw (finals_lem resets c.finalized_stages n o, t) refl,
      ),
      refl,
    )
  where
    returned :
        (d : MachineContext) {ds : List String}
        → topo_downstream ir.wires e.back_to_stage ≡ some ds
        → retry_rebuild ir d e ≡ some (reset_for_retry ir d e (e.back_to_stage ∷ ds))
    returned d f = rw (retry_rebuild, f) refl

    counted :
        (m : List (String × ℕ)) (failed n : String)
        → failed ≡ n
        → or_zero (map_get (map_set m failed (or_zero (map_get m failed) + 1)) n)
          ≡ suc (or_zero (map_get m n))
    counted m failed n q = ground (
      arith,
      map_get-map_set m failed n (or_zero (map_get m failed) + 1),
      eq_iff failed n,
      ap (λ x. or_zero (map_get m x)) q,
    )

    in_resets :
        (back : String) (downstream : List String) (n : String)
        → In n downstream ↔ (Reaches ir.wires back n × (n ≢ back))
        → Reaches ir.wires back n
        → In n (back ∷ downstream)
    in_resets back downstream n iff q = elim (Bool-cases (back == n)) [
      | inl t ↦ inl ((eq_iff back n).0 t)
      | inr t ↦ inr (iff.1 (q, λ s. ground (arith, eq_iff back n)))
    ]

    out_of_resets :
        (back : String) (downstream : List String) (n : String)
        → In n downstream ↔ (Reaches ir.wires back n × (n ≢ back))
        → ¬ Reaches ir.wires back n
        → includes (back ∷ downstream) n ≡ false
    out_of_resets back downstream n iff q = elim (Bool-cases (includes (back ∷ downstream) n)) [
      | inr t ↦ t
      | inl t ↦ elim ((includes_iff (back ∷ downstream) n).0 t) [
        | inl s ↦ absurd (q (subst (Reaches ir.wires back) s here))
        | inr m ↦ absurd (q (iff.0 m).0)
      ]
    ]
