-- ===== src/Agent/Backoff.antt =====
-- The pause that is suggested under a rate limit: apps/server/src/kernel-next/runtime/
-- rate-limit-backoff.ts, and the event that real-executor.ts publishes after it has sent a signal to
-- the machine of the turn. JavaScript's powers of two are exact up to a number far above the cap.
use native.Mathlib.Nat.{one-le-pow as one-le-pow_of_pos}
use native.Mathlib.Omega.{pow_step}
use workflow_control.Prelude.{
  length, map, All, ap, ◌∙◌, ℕ, suc, ◌+◌, ◌-◌, ◌*◌, ◌^◌, ◌≤◌, Option, none, some, true, false, List,
  [], ◌∷◌, ◌≡◌, refl, leb, if◌then◌else◌, arith,
}
use workflow_control.Agent.{should_pause, next_signals, send, send_all}
use workflow_control.Agent.Context.{
  AgentState, starting, waiting_for_claude, dispatching_tool, compacting, done, error, AgentContext,
  AgentEvent, rate_limit_signal, Utilization, AgentSnapshot,
}
use workflow_control.Agent.Sound.{IsSound}

abbrev pub rate_limit_base_ms : ℕ
rate_limit_base_ms = 500

abbrev pub rate_limit_max_ms : ℕ
rate_limit_max_ms = 30000

abbrev min : ℕ → ℕ → ℕ
min a b = if leb a b then a else b

abbrev max : ℕ → ℕ → ℕ
max a b = if leb a b then b else a

unfoldable pub rate_limit_backoff_ms : ℕ → ℕ
rate_limit_backoff_ms consecutive_signals =
    let n = max 1 consecutive_signals in min (rate_limit_base_ms * 2 ^ (n - 1)) rate_limit_max_ms

pub record RateLimitBackoff : Type 0 where
  pub delay_ms : ℕ
  pub signal_count : ℕ
  pub utilization : Utilization

-- The event that is published after a signal, where one is.
unfoldable pub announce : Option Utilization → AgentSnapshot → Option RateLimitBackoff
announce none s = none
announce (some u) s =
    let count = (send (rate_limit_signal (some u)) s).context.consecutive_rate_limit_signals in
    if should_pause u
    then some
        (record { delay_ms = rate_limit_backoff_ms count; signal_count = count; utilization = u })
    else none

one-le-pow : (n : ℕ) → 1 ≤ 2 ^ n
one-le-pow n = one-le-pow_of_pos n 2 (omega arith)

-- The pause is half a second at the first signal, the double of the pause before at each signal
-- after it, and never more than half a minute.
pub rate_limit_backoff_ms_lem :
    (n : ℕ)
    → (rate_limit_backoff_ms 1 ≡ 500)
      × (rate_limit_backoff_ms (suc (suc n))
          ≡ min (2 * rate_limit_backoff_ms (suc n)) rate_limit_max_ms)
      × (500 ≤ rate_limit_backoff_ms n)
      × (rate_limit_backoff_ms n ≤ 30000)
unfolding rate_limit_backoff_ms
rate_limit_backoff_ms_lem n = (
  refl,
  ground (arith, one-le-pow n, pow_step 2 n),
  ground (arith, one-le-pow (n - 1)),
  ground arith,
)

-- A snapshot whose turn has not ended.
abbrev pub IsLive : AgentState → Type 0
IsLive done = ⊥
IsLive error = ⊥
IsLive s = Unit

abbrev pub counted : ℕ → AgentSnapshot → AgentSnapshot
counted n s = record s { context = record s.context { consecutive_rate_limit_signals = n } }

signal_at :
    (st : AgentState) (c : AgentContext) (u : Option Utilization)
    → IsLive st
    → IsSound (record { state = st; context = c })
    → send (rate_limit_signal u) (record { state = st; context = c })
      ≡ counted
          (next_signals u c.consecutive_rate_limit_signals)
          (record { state = st; context = c })
unfolding send
signal_at starting c u l h = refl
signal_at waiting_for_claude c u l h = ground arith
signal_at dispatching_tool c u l h = refl
signal_at compacting c u l h = refl
signal_at done c u l h = absurd l
signal_at error c u l h = absurd l

signal :
    (s : AgentSnapshot) (u : Option Utilization)
    → IsLive s.state
    → IsSound s
    → send (rate_limit_signal u) s
      ≡ counted (next_signals u s.context.consecutive_rate_limit_signals) s
signal s u l h = signal_at s.state s.context u l h

abbrev pub signals : List Utilization → List AgentEvent
signals = map (λ u. rate_limit_signal (some u))

-- What the machine takes for the end of the pressure: no utilization, or one below the threshold.
abbrev pub Eases : Option Utilization → Type 0
Eases none = Unit
Eases (some u) = should_pause u ≡ false

eased : (v : Option Utilization) (n : ℕ) → Eases v → next_signals v n ≡ 0
eased none n h = refl
eased (some u) n h = rw h refl

module _ (s : AgentSnapshot) (l : IsLive s.state) (h : IsSound s) where
  counted-IsSound : (n : ℕ) → IsSound (counted n s)
  counted-IsSound n = record {
    ended = h.ended;
    awaits = h.awaits;
    compacts = h.compacts;
    flags = h.flags;
  }

  -- The counter after signals that all ask for a pause.
  count-signals :
      (us : List Utilization) (n : ℕ)
      → All (λ u. should_pause u ≡ true) us
      → send_all (signals us) (counted n s) ≡ counted (n + length us) s
  count-signals [] n p = ap (λ m. counted m s) (omega arith)
  count-signals (u ∷ us) n p =
      ap (send_all (signals us)) (signal (counted n s) (some u) l (counted-IsSound n) ∙ rw p.0 refl)
      ∙ count-signals us (n + 1) p.1
      ∙ ap (λ m. counted m s) (omega arith)

  counted_from_zero :
      (us : List Utilization)
      → All (λ u. should_pause u ≡ true) us
      → send_all (signals us) (counted 0 s) ≡ counted (length us) s
  counted_from_zero us p = count-signals us 0 p ∙ ap (λ m. counted m s) (omega arith)

  -- After the pressure has eased, the signals that ask for a pause are counted from one on, and each
  -- of them publishes the pause that its number stands for: in a turn that has not ended.
  pub announce_lem :
      (v : Option Utilization) (us : List Utilization) (u : Utilization)
      → Eases v
      → All (λ x. should_pause x ≡ true) us
      → should_pause u ≡ true
      → announce (some u) (send_all (rate_limit_signal v ∷ signals us) s)
        ≡ some (record {
          delay_ms = rate_limit_backoff_ms (length us + 1);
          signal_count = length us + 1;
          utilization = u;
        })
  unfolding announce
  announce_lem v us u e p q =
      let run =
        ap (send_all (signals us)) (signal s v l h ∙ ap (λ m. counted m s) (eased v _ e))
        ∙ counted_from_zero us p in
      let last = signal (counted (length us) s) (some u) l (counted-IsSound (length us)) in
      rw (run, q, last, q) refl
