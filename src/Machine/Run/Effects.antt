-- ===== src/Machine/Run/Effects.antt =====
-- What a transition of a region does to the context.
use workflow_control.Prelude.{
  String, Option, none, some, Bool, true, false, List, [], ◌∷◌, ◌++◌, ◌≡◌, refl, ap, ◌⊎◌, inl, inr,
  ◌==◌, includes_iff, set_add, set_add_iff, any, In, ltb, Bool-cases, arith, if◌then◌else◌,
}
use workflow_control.Ir.{RetrySpec}
use workflow_control.Machine.{
  is_finalized, all_delivered, is_authorized, retry_count, retry_or_fail, finalize_error,
  enter_done, authorize, add_picked,
}
use workflow_control.Machine.Context.{
  MachineContext, Region, Phase, waiting, executing, done, error, Reaction, go, go_raise,
  forward_interrupt, FinalizedStage, outcome_done, outcome_error, FailureReason,
}

abbrev pub finished : Region → FinalizedStage
finished r = record { name = r.name; outcome = outcome_done; reason = none; message = none }

abbrev pub broken : Region → FailureReason → Option String → FinalizedStage
broken r reason message = record {
  name = r.name;
  outcome = outcome_error;
  reason = some reason;
  message = message;
}

-- What enters the list of finalized stages, by the phase that is entered.
abbrev pub Finals :
    Region → (before : List FinalizedStage) → Phase → (after : List FinalizedStage) → Type 0
Finals r before waiting after = after ≡ before
Finals r before executing after = after ≡ before
Finals r before done after =
    ((any (λ (f : FinalizedStage). f.name == r.name) before ≡ true) × (after ≡ before))
    ⊎ ((any (λ (f : FinalizedStage). f.name == r.name) before ≡ false)
        × (after ≡ before ++ finished r ∷ []))
Finals r before error after =
    ((any (λ (f : FinalizedStage). f.name == r.name) before ≡ true) × (after ≡ before))
    ⊎ ((reason : FailureReason) × (message : Option String) × (after
          ≡ before ++ broken r reason message ∷ []))

pub record Effect (r : Region) (c : MachineContext) (p : Phase) (c' : MachineContext) : Type 0 where
  pub values : c'.port_values ≡ c.port_values
  pub finals : Finals r c.finalized_stages p c'.finalized_stages
  pub keeps : (n : String) → In n c.gate_authorized_targets → In n c'.gate_authorized_targets
  pub starts : p ≡ executing → (is_authorized r c' ≡ true) × (all_delivered r c ≡ true)

abbrev pub OnReaction : (Phase → MachineContext → Type 0) → Option Reaction → Type 0
OnReaction P none = Unit
OnReaction P (some (go p c)) = P p c
OnReaction P (some (go_raise p c retry)) = P p c
OnReaction P (some forward_interrupt) = Unit

module _ (r : Region) where
  pub enter_done-Effect :
      (c c' : MachineContext)
      → c'.port_values ≡ c.port_values
      → c'.finalized_stages ≡ c.finalized_stages
      → ((n : String) → In n c.gate_authorized_targets → In n c'.gate_authorized_targets)
      → Effect r c done (enter_done r c')
  unfolding enter_done
  enter_done-Effect c c' v f k = elim (Bool-cases (is_finalized c' r.name)) [
    | inl t ↦ rw t (record { values = v; finals = inl (rw f at t, f); keeps = k; starts = λ e. cc })
    | inr t ↦ rw t (record {
      values = v;
      finals = inr (rw f at t, ap (λ l. l ++ finished r ∷ []) f);
      keeps = k;
      starts = λ e. cc;
    })
  ]

  pub finalize_error-Effect :
      (c c' : MachineContext) (reason : FailureReason) (message : Option String) (line : String)
      → c'.port_values ≡ c.port_values
      → c'.finalized_stages ≡ c.finalized_stages
      → ((n : String) → In n c.gate_authorized_targets → In n c'.gate_authorized_targets)
      → Effect r c error (finalize_error r reason message line c')
  unfolding finalize_error
  finalize_error-Effect c c' reason message line v f k = record {
    values = v;
    finals = inr (reason, message, ap (λ l. l ++ broken r reason message ∷ []) f);
    keeps = k;
    starts = λ e. cc;
  }

  pub authorize_keeps :
      (c : MachineContext) (n : String)
      → In n c.gate_authorized_targets
      → In n (authorize r c).gate_authorized_targets
  unfolding authorize
  authorize_keeps c n m = (set_add_iff c.gate_authorized_targets r.name n).1 (inl m)

  pub authorized_now : (c : MachineContext) → is_authorized r (authorize r c) ≡ true
  unfolding authorize
  authorized_now c = ground (
    arith,
    includes_iff (set_add c.gate_authorized_targets r.name) r.name,
    set_add_iff c.gate_authorized_targets r.name r.name,
  )

  pub add_picked_keeps : (l picked : List String) (n : String) → In n l → In n (add_picked l picked)
  unfolding add_picked
  add_picked_keeps l [] n m = m
  add_picked_keeps l (t ∷ ts) n m =
      add_picked_keeps (set_add l t) ts n ((set_add_iff l t n).1 (inl m))

  -- A failure of the executor: retried where the budget allows it.
  pub retry_or_fail-Effect :
      (retry : Option RetrySpec) (message : String) (c : MachineContext)
      → OnReaction (Effect r c) (some (retry_or_fail retry r message c))
  unfolding retry_or_fail
  retry_or_fail-Effect none message c = finalize_error-Effect c c _ _ _ refl refl (λ n m. m)
  retry_or_fail-Effect (some spec) message c =
      elim (Bool-cases (ltb (retry_count r c) spec.max_retries)) [
        | inl t ↦ rw t (record { values = refl; finals = refl; keeps = λ n m. m; starts = λ q. cc })
        | inr t ↦ rw t (finalize_error-Effect c c _ _ _ refl refl (λ n m. m))
      ]

  -- A guard before a reaction.
  pub guarded :
      (P : Phase → MachineContext → Type 0) (t : Bool) (x : Reaction) (o : Option Reaction)
      → (t ≡ true → OnReaction P (some x))
      → OnReaction P o
      → OnReaction P (if t then some x else o)
  guarded P true x o h k = h refl
  guarded P false x o h k = k

  pub done_Effect : (c : MachineContext) → Effect r c done (enter_done r c)
  done_Effect c = enter_done-Effect c c refl refl (λ n m. m)
