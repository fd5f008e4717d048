-- ===== src/Cancel/Regions.antt =====
-- What STAGE_CANCELLED does to the regions of a machine.
use workflow_control.Prelude.{
  String, none, some, true, false, List, [], ◌∷◌, ◌≡◌, ◌≢◌, refl, sym, ap, subst, ◌∙◌, ◌⊎◌, inl,
  inr, ◌==◌, eq_iff, eq_self, In, In-append, Bool-cases,
}
use workflow_control.Machine.{cancel, finalize_error}
use workflow_control.Machine.Context.{
  MachineEvent, stage_cancelled, Region, error, upstream_cancelled, FinalizedStage, outcome_error,
}
use workflow_control.Machine.Waiting.{react}
use workflow_control.Machine.Run.{Snapshot, moved, on_event, Runs, here, next}
use workflow_control.Machine.Run.Invariant.{Active}
use workflow_control.Machine.Run.Ending.{cancelled_lem, ended_lem, Active-or_ended}
use workflow_control.Cancel.{after_reaction, take_event, send_event}

-- How a cancelled stage is listed.
abbrev pub cancelled_entry : String → FinalizedStage
cancelled_entry n = record {
  name = n;
  outcome = outcome_error;
  reason = some upstream_cancelled;
  message = none;
}

-- From `s` to `t` regions were cancelled, and nothing else happened to their phases.
pub record Cancels (rs : List Region) (s t : Snapshot) : Type 0 where
  pub run : Runs rs s t
  pub each :
      (x : String)
      → (t.phase x ≡ s.phase x)
        ⊎ (Active (s.phase x)
            × (t.phase x ≡ error)
            × In (cancelled_entry x) t.context.finalized_stages)
  pub grows :
      (f : FinalizedStage) → In f s.context.finalized_stages → In f t.context.finalized_stages
  pub values : t.context.port_values ≡ s.context.port_values

module _ (rs : List Region) where
  Runs-trans : {s t u : Snapshot} → Runs rs s t → Runs rs t u → Runs rs s u
  Runs-trans v here = v
  Runs-trans v (next w st) = next (Runs-trans v w) st

  pub Cancels-refl : (s : Snapshot) → Cancels rs s s
  Cancels-refl s = record { run = here; each = λ x. inl refl; grows = λ f m. m; values = refl }

  pub Cancels-trans : {s t u : Snapshot} → Cancels rs s t → Cancels rs t u → Cancels rs s u
  Cancels-trans {s} {t} {u} a b = record {
    run = Runs-trans a.run b.run;
    each = λ x. elim (b.each x) [
      | inl same ↦ elim (a.each x) [
        | inl before ↦ inl (same ∙ before)
        | inr (act, e, m) ↦ inr (act, same ∙ e, b.grows (cancelled_entry x) m)
      ]
      | inr (act, e, m) ↦ elim (a.each x) [
        | inl before ↦ inr (subst Active before act, e, m)
        | inr (act', e', m') ↦ absurd (subst Active e' act)
      ]
    ];
    grows = λ f m. b.grows f (a.grows f m);
    values = b.values ∙ a.values;
  }

  -- What has ended stays as it is.
  pub Cancels-ended :
      {s t : Snapshot}
      → Cancels rs s t
      → (x : String) → ¬ Active (s.phase x)
      → t.phase x ≡ s.phase x
  Cancels-ended a x h = elim (a.each x) [ inl e ↦ e | inr (act, e, m) ↦ absurd (h act) ]

  pub stays_ended :
      {s t : Snapshot} → Cancels rs s t → (x : String) → ¬ Active (s.phase x) → ¬ Active (t.phase x)
  stays_ended a x h act = h (subst Active (Cancels-ended a x h) act)

  module _ (n upstream : String) where
    abbrev event : MachineEvent
    event = stage_cancelled n upstream

    abbrev cancelled_at : Snapshot → Region → Snapshot
    cancelled_at s r =
        moved s r.name error (finalize_error r upstream_cancelled none ":cancelled" s.context)

    -- The region is the one that is named and has not ended, or it does nothing.
    take_event-cases :
        (s : Snapshot) (r : Region)
        → ((n ≡ r.name)
            × Active (s.phase r.name)
            × (take_event event s r ≡ cancelled_at s r)
            × (react r event (s.phase r.name) s.context ≡ some (cancel r s.context)))
          ⊎ ((n ≡ r.name → ¬ Active (s.phase r.name)) × (take_event event s r ≡ s))
    take_event-cases s r = elim (Active-or_ended (s.phase r.name)) [
      | inl a ↦
          let e = cancelled_lem r n upstream (s.phase r.name) s.context a in
          elim (Bool-cases (n == r.name)) [
            | inl t ↦
                let k = rw t at e in inl ((eq_iff n r.name).0 t, a, ap (after_reaction r s) k, k)
            | inr f ↦
                let k = rw f at e in
                inr (
                  (λ q act. let never : true ≡ false = sym ((eq_iff n r.name).1 q) ∙ f in cc),
                  ap (after_reaction r s) k,
                )
          ]
      | inr h ↦
          inr ((λ q. h), ap (after_reaction r s) (ended_lem r event (s.phase r.name) s.context h))
    ]

    cancelled_at-Cancels :
        (s : Snapshot) (r : Region)
        → In r rs
        → Active (s.phase r.name)
        → react r event (s.phase r.name) s.context ≡ some (cancel r s.context)
        → Cancels rs s (cancelled_at s r)
    unfolding finalize_error
    cancelled_at-Cancels s r i a k = record {
      run = next here (on_event r event error _ i (rw k (refl, refl)) refl);
      each = λ x. elim (Bool-cases (r.name == x)) [
        | inl t ↦
            let q = (eq_iff r.name x).0 t in
            rw t (
              inr (
                subst (λ z. Active (s.phase z)) q a,
                refl,
                (In-append (cancelled_entry x) s.context.finalized_stages
                      (cancelled_entry r.name ∷ [])).1
                    (inr (inl (ap cancelled_entry q))),
              ))
        | inr f ↦ rw f (inl refl)
      ];
      grows =
          λ f m. (In-append f s.context.finalized_stages (cancelled_entry r.name ∷ [])).1 (inl m);
      values = refl;
    }

    take_event-Cancels : (s : Snapshot) (r : Region) → In r rs → Cancels rs s (take_event event s r)
    take_event-Cancels s r i = elim (take_event-cases s r) [
      | inl (q, a, e, k) ↦ subst (Cancels rs s) (sym e) (cancelled_at-Cancels s r i a k)
      | inr (h, e) ↦ subst (Cancels rs s) (sym e) (Cancels-refl s)
    ]

    take_event-apart :
        (s : Snapshot) (r : Region) (x : String)
        → n ≢ x
        → (take_event event s r).phase x ≡ s.phase x
    take_event-apart s r x h = elim (take_event-cases s r) [
      | inl (q, a, e, k) ↦ elim (Bool-cases (r.name == x)) [
        | inl t ↦ absurd (h (q ∙ (eq_iff r.name x).0 t))
        | inr f ↦ ap (λ (t : Snapshot). t.phase x) e ∙ (rw f refl)
      ]
      | inr (g, e) ↦ ap (λ (t : Snapshot). t.phase x) e
    ]

    take_event-stops :
        (s : Snapshot) (r : Region) → n ≡ r.name → ¬ Active ((take_event event s r).phase r.name)
    take_event-stops s r h act = elim (take_event-cases s r) [
      | inl (q, a, e, k) ↦
          let d : Active ((cancelled_at s r).phase r.name) =
            subst (λ (t : Snapshot). Active (t.phase r.name)) e act in
          rw (eq_self r.name) at d
      | inr (g, e) ↦ g h (subst (λ (t : Snapshot). Active (t.phase r.name)) e act)
    ]

    pub send_event-Cancels :
        (s : Snapshot) (todo : List Region)
        → ((r : Region) → In r todo → In r rs)
        → Cancels rs s (send_event todo event s)
    send_event-Cancels s [] sub = Cancels-refl s
    send_event-Cancels s (r ∷ todo) sub =
        Cancels-trans (take_event-Cancels s r (sub r (inl refl)))
          (send_event-Cancels (take_event event s r) todo (λ q i. sub q (inr i)))

    pub send_event-apart :
        (s : Snapshot) (todo : List Region) (x : String)
        → n ≢ x
        → (send_event todo event s).phase x ≡ s.phase x
    send_event-apart s [] x h = refl
    send_event-apart s (r ∷ todo) x h =
        send_event-apart (take_event event s r) todo x h ∙ take_event-apart s r x h

    pub send_event-stops :
        (s : Snapshot) (todo : List Region) (r : Region)
        → ((q : Region) → In q todo → In q rs)
        → In r todo
        → n ≡ r.name
        → ¬ Active ((send_event todo event s).phase r.name)
    send_event-stops s [] r sub i h = absurd i
    send_event-stops s (q ∷ todo) r sub (inl e) h =
        stays_ended (send_event-Cancels (take_event event s q) todo (λ z j. sub z (inr j))) r.name (
          subst (λ (z : Region). ¬ Active ((take_event event s q).phase z.name)) e
            (take_event-stops s q (h ∙ sym (ap (λ (z : Region). z.name) e))))
    send_event-stops s (q ∷ todo) r sub (inr i) h =
        send_event-stops (take_event event s q) todo r (λ z j. sub z (inr j)) i h
