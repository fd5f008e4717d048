-- ===== src/Broadcaster.antt =====
-- The stream of a task's events: apps/server/src/kernel-next/sse/broadcaster.ts. A listener is its
-- number, and what it is called with is a delivery. A channel is an object, which the function that
-- `subscribe` returns keeps: it has an identity. Errors of listeners are swallowed there and do not
-- show here; the fields of an event beside its task and sequence number are its body.
pub mod Ring
pub mod Refines
mod Samples
use workflow_control.Prelude.{
  String, ℕ, suc, ◌+◌, ◌-◌, Option, none, some, Bool, not, List, [], ◌∷◌, ◌++◌, map, ◌==◌, nat_eq,
  ltb, keep, any, drop, length, map_get, map_set, if◌then◌else◌,
}
use workflow_control.Kahn.{or_zero}

pub record Event : Type 0 where
  pub task_id : String
  pub seq : Option ℕ
  pub body : String

pub record Channel : Type 0 where
  pub identity : ℕ
  pub listeners : List ℕ
  pub history : List Event
  pub next_seq : ℕ

pub record Broadcaster : Type 0 where
  pub channels : List (String × Channel)
  pub created : ℕ
  pub history_limit : ℕ

abbrev pub default_history_limit : ℕ
default_history_limit = 100

abbrev pub broadcaster : (history_limit : ℕ) → Broadcaster
broadcaster limit = record { channels = []; created = 0; history_limit = limit }

unfoldable pub ensure_channel : Broadcaster → String → Channel × Broadcaster
ensure_channel b task = elim (map_get b.channels task) [
  | some channel ↦ (channel, b)
  | none ↦
      let channel : Channel = record {
        identity = b.created;
        listeners = [];
        history = [];
        next_seq = 1;
      } in
      (channel, record b { channels = map_set b.channels task channel; created = suc b.created })
]

-- Only the last entries stay.
abbrev pub retain : ℕ → List Event → List Event
retain limit history = drop (length history - limit) history

abbrev pub to_listener : Event → ℕ → ℕ × Event
to_listener e listener = (listener, e)

abbrev pub to_listeners : List ℕ → Event → List (ℕ × Event)
to_listeners listeners e = map (to_listener e) listeners

abbrev pub put : Broadcaster → String → Channel → Broadcaster
put b task channel = record b { channels = map_set b.channels task channel }

unfoldable pub publish : Event → Broadcaster → List (ℕ × Event) × Broadcaster
unfolding ensure_channel
publish e b =
    let found = ensure_channel b e.task_id in
    let stamped : Event = record e { seq = some found.0.next_seq } in
    (
      to_listeners found.0.listeners stamped,
      put found.1 e.task_id (record found.0 {
        next_seq = suc found.0.next_seq;
        history = retain b.history_limit (found.0.history ++ stamped ∷ []);
      }),
    )

abbrev pub is_after : ℕ → Event → Bool
is_after from_seq e = ltb from_seq (or_zero e.seq)

abbrev pub add_listener : List ℕ → ℕ → List ℕ
add_listener listeners l = if any (nat_eq l) listeners then listeners else listeners ++ l ∷ []

-- The replay, the identity of the channel for the function that is returned, and the state.
unfoldable pub subscribe :
    (task : String) (listener : ℕ) (from_seq : Option ℕ)
    → Broadcaster
    → List (ℕ × Event) × (ℕ × Broadcaster)
unfolding ensure_channel
subscribe task listener from_seq b =
    let found = ensure_channel b task in
    (
      map (λ e. to_listener e listener) (keep (is_after (or_zero from_seq)) found.0.history),
      (
        found.0.identity,
        put found.1 task (record found.0 { listeners = add_listener found.0.listeners listener }),
      ),
    )

-- The function that `subscribe` returned; the channel may have been dropped since.
unfoldable pub unsubscribe : (task : String) (identity listener : ℕ) → Broadcaster → Broadcaster
unsubscribe task identity listener b = elim (map_get b.channels task) [
  | none ↦ b
  | some channel ↦
      if nat_eq channel.identity identity
      then put b task
          (record channel { listeners = keep (λ l. not (nat_eq l listener)) channel.listeners })
      else b
]

unfoldable pub history_for : Broadcaster → String → List Event
history_for b task = elim (map_get b.channels task) [ none ↦ [] | some channel ↦ channel.history ]

unfoldable pub clear_task : String → Broadcaster → Broadcaster
clear_task task b = record b {
  channels = keep (λ (e : String × Channel). not (e.0 == task)) b.channels;
}

unfoldable pub subscriber_count : Broadcaster → String → ℕ
subscriber_count b task = elim (map_get b.channels task) [
  | none ↦ 0
  | some channel ↦ length channel.listeners
]

-- A call of the broadcaster, and the state after it.
pub data Call : Type 0 where
  publishing : Event → Call
  subscribing : (task : String) (listener : ℕ) (from_seq : Option ℕ) → Call
  unsubscribing : (task : String) (identity listener : ℕ) → Call
  clearing : (task : String) → Call

unfoldable pub after_call : Broadcaster → Call → Broadcaster
unfolding publish subscribe unsubscribe clear_task
after_call b (publishing e) = (publish e b).1
after_call b (subscribing task listener from_seq) = (subscribe task listener from_seq b).1.1
after_call b (unsubscribing task identity listener) = unsubscribe task identity listener b
after_call b (clearing task) = clear_task task b
