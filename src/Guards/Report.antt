-- ===== src/Guards/Report.antt =====
-- The report on the wires that do not deliver, against the guards of the machine.
use workflow_control.Prelude.{
  String, Option, none, some, Bool, true, false, not, ◌&&◌, List, [], ◌∷◌, ◌≡◌, ◌≢◌, refl, sym, ap,
  subst, ◌∙◌, ◌↔◌, inl, inr, ◌==◌, all, any, codes, In, map_get, Bool-cases, Option-cases, arith,
}
use mathlib.Core.Option.{some-injective}
use workflow_control.Machine.{
  wire_settled, wire_delivers, no_deliverable_wire, is_authorized, guard_passes,
}
use workflow_control.Machine.Context.{InboundWire, StageMeta, Region, MachineContext}
use workflow_control.Guards.{
  deny_exec, Ran, returned, threw, ran, GuardError, evaluate_guard, upstream_not_written,
  GuardFailure, failure, judge, describe_guard, describe_wire_failure, failed_wires,
  build_no_active_wire_error,
}

not_delivered :
    {P : Type 0} (r : Region) (w : InboundWire) (values : List (String × String))
    → map_get values w.source_key ≡ none
    → wire_delivers r w values ≡ true
    → P
unfolding wire_delivers
not_delivered r w values e h = let never : false ≡ true = rw (wire_delivers, e) at h in cc

module _ (run : String → String → Ran) where
  -- The region as the compiler builds it, with the evaluation of guards.
  abbrev pub guarded_by : Region → Region
  guarded_by r = record r { evaluate = λ w g value. (evaluate_guard run g value).0 }

  judge_iff :
      (w : InboundWire) (g value : String)
      → (judge w value (evaluate_guard run g value) ≡ none)
        ↔ ((evaluate_guard run g value).0 ≡ true)
  unfolding evaluate_guard
  judge_iff w g value = elim (Option-cases (deny_exec false (codes g))) [
    | inr (t, e) ↦ rw (e, evaluate_guard) (ground arith)
    | inl e ↦ rw (e, evaluate_guard) (by_result (run g value))
  ]
    where
      by_result : (x : Ran) → (judge w value (ran x) ≡ none) ↔ ((ran x).0 ≡ true)
      by_result (returned true) = ground arith
      by_result (returned false) = ground arith
      by_result (threw message) = ground arith

  guard_iff :
      (r : Region) (w : InboundWire) (guard : Option String) (value : String)
      → (describe_guard run w value guard ≡ none)
        ↔ (guard_passes (guarded_by r) w guard value ≡ true)
  guard_iff r w none value = ground arith
  guard_iff r w (some g) value = elim (Bool-cases (g == "")) [
    | inl t ↦ rw t (ground arith)
    | inr t ↦ rw t (judge_iff w g value)
  ]

  -- A wire has nothing to report exactly when it delivers.
  pub describe_wire_failure_iff :
      (r : Region) (w : InboundWire) (values : List (String × String))
      → (describe_wire_failure run w values ≡ none) ↔ (wire_delivers (guarded_by r) w values ≡ true)
  unfolding describe_wire_failure wire_delivers
  describe_wire_failure_iff r w values = elim (Option-cases (map_get values w.source_key)) [
    | inl e ↦ rw (e, describe_wire_failure) (absent e)
    | inr (value, e) ↦ rw (e, describe_wire_failure, wire_delivers) (guard_iff r w w.guard value)
  ]
    where
      absent :
          map_get values w.source_key ≡ none
          → (some (failure w none upstream_not_written) ≡ none)
            ↔ (wire_delivers (guarded_by r) w values ≡ true)
      absent e = ((λ h. cc), λ h. not_delivered (guarded_by r) w values e h)

  -- What the list of failures holds: a wire that does not deliver, and why.
  failed_iff :
      (values : List (String × String)) (ws : List InboundWire) (f : GuardFailure)
      → In f (failed_wires run values ws)
        ↔ ((w : InboundWire) × In w ws × (describe_wire_failure run w values ≡ some f))
  unfolding failed_wires
  failed_iff values [] f = ((λ m. absurd m), λ (w, i, e). i)
  failed_iff values (w ∷ ws) f = elim (Option-cases (describe_wire_failure run w values)) [
    | inl n ↦
        rw (n, failed_wires)
          (let ih = failed_iff values ws f in
            (
              (λ m. let (v, i, e) = ih.0 m in (v, inr i, e)),
              λ (v, i, e). ih.1 (
                v,
                elim i [
                  | inl same ↦
                      let never : none ≡ some f =
                        sym n
                        ∙ subst (λ z. describe_wire_failure run z values ≡ some f) (sym same) e in
                      cc
                  | inr j ↦ j
                ],
                e,
              ),
            ))
    | inr (g, n) ↦
        rw (n, failed_wires)
          (let ih = failed_iff values ws f in
            (
              (λ m. elim m [
                | inl same ↦ (w, inl refl, n ∙ ap some same)
                | inr k ↦ let (v, i, e) = ih.0 k in (v, inr i, e)
              ]),
              λ (v, i, e). elim i [
                | inl same ↦ inl (
                    some-injective g f (
                      sym n
                      ∙ subst (λ z. describe_wire_failure run z values ≡ some f) (sym same) e))
                | inr j ↦ inr (ih.1 (v, j, e))
              ],
            ))
  ]

  some_failure :
      (r : Region) (values : List (String × String)) (ws : List InboundWire)
      → any (λ w. not (wire_delivers (guarded_by r) w values)) ws ≡ true
      → failed_wires run values ws ≢ []
  unfolding failed_wires
  some_failure r values [] h = cc
  some_failure r values (w ∷ ws) h = elim (Option-cases (describe_wire_failure run w values)) [
    | inl n ↦
        let delivered = (describe_wire_failure_iff r w values).0 n in
        rw (n, failed_wires) (some_failure r values ws (ground arith))
    | inr (g, n) ↦ rw (n, failed_wires) (λ e. cc)
  ]

  written_reason :
      (w : InboundWire) (value : String) (guard : Option String) (f : GuardFailure)
      → describe_guard run w value guard ≡ some f
      → f.reason ≢ upstream_not_written
  written_reason w value none f h = cc
  written_reason w value (some g) f h = elim (Bool-cases (g == "")) [
    | inl t ↦ let never : none ≡ some f = rw t at h in cc
    | inr t ↦ judged (evaluate_guard run g value) (rw t at h)
  ]
    where
      judged :
          (x : Bool × Option GuardError)
          → judge w value x ≡ some f
          → f.reason ≢ upstream_not_written
      judged (ok, some e) k = λ q.
          let same = some-injective _ f k in let p = ap (λ (z : GuardFailure). z.reason) same in cc
      judged (true, none) k = cc
      judged (false, none) k = λ q.
          let same = some-injective _ f k in let p = ap (λ (z : GuardFailure). z.reason) same in cc

  settled_reason :
      (w : InboundWire) (values : List (String × String)) (f : GuardFailure)
      → wire_settled w values ≡ true
      → describe_wire_failure run w values ≡ some f
      → f.reason ≢ upstream_not_written
  unfolding describe_wire_failure
  settled_reason w values f s h = elim (Option-cases (map_get values w.source_key)) [
    | inl e ↦ let never : false ≡ true = rw e at s in cc
    | inr (value, e) ↦ written_reason w value w.guard f (rw (describe_wire_failure, e) at h)
  ]

  settled_in :
      (values : List (String × String)) (ws : List InboundWire) (w : InboundWire)
      → all (λ v. wire_settled v values) ws ≡ true
      → In w ws
      → wire_settled w values ≡ true
  settled_in values [] w h i = absurd i
  settled_in values (v ∷ ws) w h (inl e) =
      subst (λ z. wire_settled z values ≡ true) e (ground arith)
  settled_in values (v ∷ ws) w h (inr i) = settled_in values ws w (ground arith) i

  dropped_parts : (a n s x : Bool) → (a && (n && (s && x))) ≡ true → (s ≡ true) × (x ≡ true)
  dropped_parts a n s x h = ground arith

  -- When the machine ends a stage because no wire into it can deliver, the report on that stage names at
  -- least one wire; it names only wires into the stage that do not deliver, and no source that was not
  -- written.
  pub no_active_wire_report :
      (r : Region) (c : MachineContext) (metas : List (String × StageMeta))
      → map_get metas r.name ≡ some r.meta
      → no_deliverable_wire (guarded_by r) c ≡ true
      → ((build_no_active_wire_error run r.name metas c.port_values).failed_wires ≢ [])
        × ((f : GuardFailure)
            → In f (build_no_active_wire_error run r.name metas c.port_values).failed_wires
            → (f.reason ≢ upstream_not_written)
              × (w : InboundWire) × In w r.meta.inbound
              × (describe_wire_failure run w c.port_values ≡ some f)
              × (wire_delivers (guarded_by r) w c.port_values ≡ false))
  unfolding build_no_active_wire_error
  no_active_wire_report r c metas e h =
      let parts = dropped_parts (is_authorized (guarded_by r) c) _ _ _ h in
      rw (e, build_no_active_wire_error)
        (
          some_failure r c.port_values r.meta.inbound parts.1,
          λ f m.
              let (w, i, d) = (failed_iff c.port_values r.meta.inbound f).0 m in
              (
                settled_reason w c.port_values f
                    (settled_in c.port_values r.meta.inbound w parts.0 i) d,
                w,
                i,
                d,
                elim (Bool-cases (wire_delivers (guarded_by r) w c.port_values)) [
                  | inl t ↦
                      let never : none ≡ some f =
                        sym ((describe_wire_failure_iff r w c.port_values).1 t) ∙ d in
                      cc
                  | inr t ↦ t
                ],
              ),
        )
