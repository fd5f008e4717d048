-- ===== src/Kahn/Correct.antt =====
-- The invariant of Kahn's loop, and what holds of its result.
use workflow_control.Prelude.{
  String, ℕ, zero, suc, ◌+◌, ◌≤◌, some, List, [], ◌∷◌, ◌++◌, ◌≡◌, refl, sym, ap, subst, ◌∙◌, ◌⊎◌,
  inl, inr, length, length-append, In, In-append, Distinct, Distinct-snoc, List-cases,
  length_le_of_subset, arith, Bool-cases, ltb,
}
use mathlib.Core.List.{append_assoc, append-nil}
use workflow_control.Kahn.{State, degree, release_all, run}
use workflow_control.Kahn.Counts.{pending, pending-finish, pending_zero, pending_pos, In_of_count}
use workflow_control.Kahn.Release.{
  IsEnqueue, IsFree, release_all-deg, release_all-queue, release_all-out, release_all-IsFree,
}

module _ (successors : String → List String) (nodes : List String) where
  -- Each stage of the list stands behind its predecessors, given those in `seen` before it.
  abbrev pub IsTopo : List String → List String → Type 0
  IsTopo seen [] = Unit
  IsTopo seen (b ∷ rest) =
      ((p : String) → In p nodes → In b (successors p) → In p seen) × IsTopo (seen ++ b ∷ []) rest

  IsTopo-snoc :
      (seen out : List String) (n : String)
      → IsTopo seen out
      → ((p : String) → In p nodes → In n (successors p) → In p (seen ++ out))
      → IsTopo seen (out ++ n ∷ [])
  IsTopo-snoc seen [] n t h = ((λ p m s. rw append-nil at (h p m s)), tt)
  IsTopo-snoc seen (b ∷ out) n t h =
      (t.0, IsTopo-snoc (seen ++ b ∷ []) out n t.1 (λ p m s. rw append_assoc (h p m s)))

  -- What the algorithm returns.
  pub record IsOrder (out : List String) : Type 0 where
    pub listed : (x : String) → In x out → In x nodes
    pub once : Distinct out
    pub topo : IsTopo [] out
    pub rest :
        (x : String)
        → In x nodes
        → ¬ In x out
        → (p : String) × In p nodes × ¬ In p out × In x (successors p)

  pub record IsRunning (s : State) : Type 0 where
    pub degrees : (x : String) → In x nodes → degree s.degrees x ≡ pending successors nodes s.out x
    pub free : IsFree s
    pub queued : (x : String) → In x s.queue → In x nodes × ¬ In x s.out
    pub ready : (x : String) → In x nodes → degree s.degrees x ≡ 0 → In x s.out ⊎ In x s.queue
    pub done : (x : String) → In x s.out → degree s.degrees x ≡ 0
    pub listed : (x : String) → In x s.out → In x nodes
    pub once : Distinct s.out
    pub topo : IsTopo [] s.out

  module _ {enqueue : List String → String → List String} (law : IsEnqueue enqueue)
      (distinct : Distinct nodes)
      (closed : (n x : String) → In n nodes → In x (successors n) → In x nodes) where
    module _ (s : State) (n : String) (rest : List String) (e : s.queue ≡ n ∷ rest)
        (h : IsRunning s) where
      abbrev popped : State
      popped = record s { queue = rest; out = s.out ++ n ∷ [] }

      abbrev after : State
      after = release_all enqueue popped (successors n)

      at_head : In n s.queue
      at_head = rw e (inl refl)

      in_queue : (x : String) → In x rest → In x s.queue
      in_queue x m = rw e (inr m)

      once_queued : Distinct (n ∷ rest)
      once_queued = rw e at h.free.distinct

      IsFree-popped : IsFree popped
      IsFree-popped = record {
        distinct = once_queued.1;
        free = λ x m. h.free.free x (in_queue x m);
      }

      queued_after : (x : String) → In x after.queue → In x nodes × ¬ In x (s.out ++ n ∷ [])
      queued_after x m = elim ((release_all-queue law popped (successors n) x).0 m) [
        | inl r ↦ (
          (h.queued x (in_queue x r)).0,
          λ o. elim ((In-append x s.out (n ∷ [])).0 o) [
            | inl o' ↦ (h.queued x (in_queue x r)).1 o'
            | inr o' ↦ ground (arith, once_queued.0)
          ],
        )
        | inr (pos, le) ↦ (
          closed n x (h.queued n at_head).0 (In_of_count x (successors n) (omega arith)),
          λ o. elim ((In-append x s.out (n ∷ [])).0 o) [
            | inl o' ↦ absurd (omega (arith, h.done x o'))
            | inr o' ↦ ground (arith, h.free.free n at_head)
          ],
        )
      ]

      ready_after :
          (x : String)
          → In x nodes
          → degree after.degrees x ≡ 0
          → In x (s.out ++ n ∷ []) ⊎ In x after.queue
      ready_after x m z = elim (Bool-cases (ltb 0 (degree s.degrees x))) [
        | inl pos ↦ inr (
            (release_all-queue law popped (successors n) x).1
              (inr (ground arith, ground (arith, release_all-deg law popped (successors n) x))))
        | inr zero' ↦ elim (h.ready x m (ground arith)) [
          | inl o ↦ inl ((In-append x s.out (n ∷ [])).1 (inl o))
          | inr q ↦ elim (subst (λ l. In x l) e q) [
            | inl same ↦ inl ((In-append x s.out (n ∷ [])).1 (inr (inl same)))
            | inr r ↦ inr ((release_all-queue law popped (successors n) x).1 (inl r))
          ]
        ]
      ]

      fresh_head : ¬ In n s.out
      fresh_head = (h.queued n at_head).1

      is_node : In n nodes
      is_node = (h.queued n at_head).0

      held_by : (p : String) → In p nodes → In n (successors p) → In p s.out
      held_by p m i =
          pending_zero successors nodes s.out n p
            (sym (h.degrees n is_node) ∙ h.free.free n at_head) m i

      out_after : after.out ≡ s.out ++ n ∷ []
      out_after = release_all-out law popped (successors n)

      IsRunning-round : IsRunning after
      IsRunning-round = record {
        degrees = λ x m. rw out_after (
            omega (
              arith,
              release_all-deg law popped (successors n) x,
              h.degrees x m,
              pending-finish successors nodes s.out n x distinct is_node fresh_head,
            ));
        free = release_all-IsFree law popped (successors n) IsFree-popped;
        queued = rw out_after queued_after;
        ready = rw out_after ready_after;
        done = λ x o.
            let was = (In-append x s.out (n ∷ [])).0 (rw out_after at o) in
            elim was [
              | inl o' ↦ omega (arith, release_all-deg law popped (successors n) x, h.done x o')
              | inr o' ↦
                  ground (arith, release_all-deg law popped (successors n) x, h.free.free n at_head)
            ];
        listed = λ x o. elim ((In-append x s.out (n ∷ [])).0 (rw out_after at o)) [
          | inl o' ↦ h.listed x o'
          | inr (inl same) ↦ subst (λ y. In y nodes) same is_node
          | inr (inr never) ↦ absurd never
        ];
        once = rw out_after (Distinct-snoc s.out n h.once fresh_head);
        topo = rw out_after (IsTopo-snoc [] s.out n h.topo held_by);
      }

    finished : (s : State) → IsRunning s → s.queue ≡ [] → IsOrder s.out
    finished s h e = record {
      listed = h.listed;
      once = h.once;
      topo = h.topo;
      rest = λ x m o.
          pending_pos successors nodes s.out x
            (elim (Bool-cases (ltb 0 (pending successors nodes s.out x))) [
              | inl pos ↦ ground arith
              | inr none ↦ elim (h.ready x m (ground (arith, h.degrees x m))) [
                | inl done ↦ absurd (o done)
                | inr q ↦ absurd (subst (λ l. In x l) e q)
              ]
            ]);
    }

    -- A round for each stage that is not yet listed is fuel enough.
    pub run_lem :
        (fuel : ℕ) (s : State)
        → IsRunning s
        → length nodes ≤ length s.out + fuel
        → (r : List String) × (run successors enqueue fuel s ≡ some r) × IsOrder r
    unfolding run
    run_lem zero s h le = elim (List-cases s.queue) [
      | inl e ↦ (s.out, rw (e, run), finished s h e)
      | inr (n, rest, e) ↦
          let next = IsRunning-round s n rest e h in
          absurd (
            omega (
              arith,
              length_le_of_subset (after s n rest e h).out nodes next.once next.listed,
              ap length (out_after s n rest e h),
              length-append s.out (n ∷ []),
            ))
    ]
    run_lem (suc fuel) s h le = elim (List-cases s.queue) [
      | inl e ↦ (s.out, rw (e, run), finished s h e)
      | inr (n, rest, e) ↦
          rw (e, run)
            (run_lem fuel (after s n rest e h) (IsRunning-round s n rest e h)
              (omega (arith, ap length (out_after s n rest e h), length-append s.out (n ∷ []))))
    ]
