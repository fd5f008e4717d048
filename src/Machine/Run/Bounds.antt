-- ===== src/Machine/Run/Bounds.antt =====
-- How often the regions can move.
use workflow_control.Prelude.{
  String, ℕ, suc, ◌+◌, ◌*◌, ◌≤◌, ◌<◌, Option, none, some, true, not, ◌&&◌, List, [], ◌∷◌, map, ◌≡◌,
  refl, sym, ap, subst, inl, inr, ◌==◌, eq_iff, includes, In, In-map, Distinct, length, Bool-cases,
  arith, if◌then◌else◌,
}
use workflow_control.Ir.{RetrySpec}
use workflow_control.Structural.Stages.{targets_of}
use workflow_control.Machine.{
  retry_or_fail, is_gate, is_mine, all_outbound_present, executing_on, executing_always,
  was_finalized, all_inbound_delivered, no_deliverable_wire, all_delivered, has_dropped,
  is_unpicked,
}
use workflow_control.Machine.Context.{
  MachineContext, MachineEvent, start, port_written, stage_failed, stage_cancelled, gate_answered,
  interrupt, retry_to_stage, gate_rejected, Region, Phase, waiting, executing, done, error,
  outcome_done, outcome_error,
}
use workflow_control.Machine.Waiting.{
  react, react_always, waiting_on, waiting_always, waiting_written, waiting_answered,
}
use workflow_control.Machine.Run.{Snapshot, on_event, of_itself, write, Runs, here, next}
use workflow_control.Machine.Run.Effects.{OnReaction, guarded}
use workflow_control.Machine.Run.Invariant.{entered}

abbrev pub rank : Phase → ℕ
rank waiting = 2
rank executing = 1
rank done = 0
rank error = 0

abbrev total_rank : List Region → (String → Phase) → ℕ
total_rank [] ph = 0
total_rank (r ∷ rs) ph = rank (ph r.name) + total_rank rs ph

-- The moves of regions in a run.
abbrev pub moves : {rs : List Region} {s t : Snapshot} → Runs rs s t → ℕ
moves here = 0
moves (next w (on_event r e p c i m q)) = suc (moves w)
moves (next w (of_itself r p c i m q)) = suc (moves w)
moves (next w (write key value q)) = moves w

abbrev Below : ℕ → Phase → MachineContext → Type 0
Below k p c = rank p < k

module _ (r : Region) where
  executing_on-Below :
      (e : MachineEvent) (c : MachineContext)
      → r.retry ≡ none
      → OnReaction (Below 1) (executing_on r e c)
  unfolding executing_on
  executing_on-Below (stage_failed stage message) c n =
      guarded r (Below 1) (stage == r.name) _ none (λ t. fails r.retry n) tt
    where
      fails :
          (o : Option RetrySpec)
          → o ≡ none
          → OnReaction (Below 1) (some (retry_or_fail o r message c))
      fails none e = omega arith
      fails (some spec) e = cc
  executing_on-Below (stage_cancelled stage upstream) c n =
      guarded r (Below 1) (stage == r.name) _ none (λ t. omega arith) tt
  executing_on-Below (gate_answered id g answer target) c n =
      guarded r (Below 1) (is_gate r && g == r.name) _ none (λ t. omega arith) tt
  executing_on-Below (port_written key value) c n =
      guarded r (Below 1) (not (is_gate r) && all_outbound_present r c) _ none (λ t. omega arith) tt
  executing_on-Below (interrupt stage) c n =
      guarded r (Below 1) (not (is_gate r) && is_mine r stage) _ none (λ t. tt) tt
  executing_on-Below start c n = tt
  executing_on-Below (retry_to_stage retry) c n = tt
  executing_on-Below (gate_rejected id g answer target affected) c n = tt

  executing_always-Below : (c : MachineContext) → OnReaction (Below 1) (executing_always r c)
  unfolding executing_always
  executing_always-Below c =
      guarded r (Below 1) (not (is_gate r) && all_outbound_present r c) _ none (λ t. omega arith) tt

  waiting_written-Below : (c : MachineContext) → OnReaction (Below 2) (waiting_written r c)
  unfolding waiting_written
  waiting_written-Below c =
      guarded r (Below 2) (all_inbound_delivered r c) _ _ (λ t. omega arith)
        (guarded r (Below 2) (no_deliverable_wire r c) _ none (λ t. omega arith) tt)

  waiting_always-Below : (c : MachineContext) → OnReaction (Below 2) (waiting_always r c)
  unfolding waiting_always
  waiting_always-Below c =
      guarded r (Below 2) (was_finalized c r.name outcome_done) _ _ (λ t. omega arith)
        (guarded r (Below 2) (was_finalized c r.name outcome_error) _ _ (λ t. omega arith)
          (guarded r (Below 2) (includes c.gate_skipped_targets r.name) _ _ (λ t. omega arith)
            (guarded r (Below 2) (all_inbound_delivered r c) _ _ (λ t. omega arith)
              (guarded r (Below 2) (no_deliverable_wire r c) _ none (λ t. omega arith) tt))))

  waiting_answered-Below :
      (g : String) (picked : List String) (c : MachineContext)
      → OnReaction (Below 2) (waiting_answered r g picked c)
  unfolding waiting_answered
  waiting_answered-Below g picked c =
      guarded r (Below 2) (is_unpicked r g picked) _ _ (λ t. omega arith)
        (guarded r (Below 2) (includes picked r.name && all_delivered r c) _ _ (λ t. omega arith)
          (guarded r (Below 2) (includes picked r.name && has_dropped r c) _ none (λ t. omega arith)
            tt))

  waiting_on-Below :
      (e : MachineEvent) (c : MachineContext) → OnReaction (Below 2) (waiting_on r e c)
  unfolding waiting_on
  waiting_on-Below (port_written key value) c = waiting_written-Below c
  waiting_on-Below (stage_failed stage message) c =
      guarded r (Below 2) (stage == r.name) _ none (λ t. omega arith) tt
  waiting_on-Below (stage_cancelled stage upstream) c =
      guarded r (Below 2) (stage == r.name) _ none (λ t. omega arith) tt
  waiting_on-Below (gate_answered id g answer target) c =
      waiting_answered-Below g (targets_of target) c
  waiting_on-Below start c = tt
  waiting_on-Below (interrupt stage) c = tt
  waiting_on-Below (retry_to_stage retry) c = tt
  waiting_on-Below (gate_rejected id g answer target affected) c = tt

  react-Below :
      (e : MachineEvent) (q : Phase) (c : MachineContext)
      → r.retry ≡ none
      → OnReaction (Below (rank q)) (react r e q c)
  unfolding react
  react-Below e waiting c n = waiting_on-Below e c
  react-Below e executing c n = executing_on-Below e c n
  react-Below e done c n = tt
  react-Below e error c n = tt

  react_always-Below :
      (q : Phase) (c : MachineContext) → OnReaction (Below (rank q)) (react_always r q c)
  unfolding react_always
  react_always-Below waiting c = waiting_always-Below c
  react_always-Below executing c = executing_always-Below c
  react_always-Below done c = tt
  react_always-Below error c = tt

abbrev after_move : (String → Phase) → String → Phase → String → Phase
after_move ph n p x = if n == x then p else ph x

abbrev names : List Region → List String
names rs = map (λ (q : Region). q.name) rs

total_rank_apart :
    (rs : List Region) (ph : String → Phase) (n : String) (p : Phase)
    → ¬ In n (names rs)
    → total_rank rs (after_move ph n p) ≡ total_rank rs ph
total_rank_apart [] ph n p h = refl
total_rank_apart (r ∷ rs) ph n p h = elim (Bool-cases (n == r.name)) [
  | inl e ↦ absurd (h (inl (sym ((eq_iff n r.name).0 e))))
  | inr e ↦ rw (e, total_rank_apart rs ph n p (λ m. h (inr m))) refl
]

total_rank_falls :
    (rs : List Region) (ph : String → Phase) (r : Region) (p : Phase)
    → Distinct (names rs)
    → In r rs
    → rank p < rank (ph r.name)
    → total_rank rs (after_move ph r.name p) < total_rank rs ph
total_rank_falls [] ph r p d i lt = elim i [ ]
total_rank_falls (q ∷ rs) ph r p d (inl e) lt =
    let n : r.name ≡ q.name = sym (ap (λ (x : Region). x.name) e) in
    let here_eq : (r.name == q.name) ≡ true = (eq_iff r.name q.name).1 n in
    let apart = total_rank_apart rs ph r.name p (λ m. d.0 (subst (λ x. In x (names rs)) n m)) in
    rw (here_eq, apart) (omega (arith, ap (λ x. rank (ph x)) n))
total_rank_falls (q ∷ rs) ph r p d (inr i) lt = elim (Bool-cases (r.name == q.name)) [
  | inl e ↦ absurd (
      d.0 (
        subst (λ x. In x (names rs)) ((eq_iff r.name q.name).0 e)
          (In-map (λ (x : Region). x.name) r rs i)))
  | inr e ↦ rw e (omega (arith, total_rank_falls rs ph r p d.1 i lt))
]

-- No stage of the machine declares a retry.
abbrev pub NoRetry : List Region → Type 0
NoRetry rs = (r : Region) → In r rs → r.retry ≡ none

total_rank_le : (rs : List Region) (ph : String → Phase) → total_rank rs ph ≤ 2 * length rs
total_rank_le [] ph = omega arith
total_rank_le (r ∷ rs) ph = omega (arith, rank_le (ph r.name), total_rank_le rs ph)
  where
    rank_le : (p : Phase) → rank p ≤ 2
    rank_le waiting = omega arith
    rank_le executing = omega arith
    rank_le done = omega arith
    rank_le error = omega arith

moves_left :
    (rs : List Region) (s t : Snapshot)
    → Distinct (names rs)
    → NoRetry rs
    → (w : Runs rs s t) → moves w + total_rank rs t.phase ≤ total_rank rs s.phase
moves_left rs s t d n here = omega arith
moves_left rs s t d n (next {t = u} w (on_event r e p c i m q)) = rw q (
    omega (
      arith,
      moves_left rs s u d n w,
      total_rank_falls rs u.phase r p d i (
          entered (Below (rank (u.phase r.name))) _ p c
            (react-Below r e (u.phase r.name) u.context (n r i)) m),
    ))
moves_left rs s t d n (next {t = u} w (of_itself r p c i m q)) = rw q (
    omega (
      arith,
      moves_left rs s u d n w,
      total_rank_falls rs u.phase r p d i (
          entered (Below (rank (u.phase r.name))) _ p c
            (react_always-Below r (u.phase r.name) u.context) m),
    ))
moves_left rs s t d n (next {t = u} w (write key value q)) = rw q (moves_left rs s u d n w)

-- In a machine whose regions have distinct names and declare no retry, no run moves regions more often
-- than twice for each region, whatever events arrive and in whatever order.
pub moves-Runs :
    (rs : List Region) (s t : Snapshot)
    → Distinct (map (λ (q : Region). q.name) rs)
    → NoRetry rs
    → (w : Runs rs s t) → moves w ≤ 2 * length rs
moves-Runs rs s t d n w = omega (arith, moves_left rs s t d n w, total_rank_le rs s.phase)
