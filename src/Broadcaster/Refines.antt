-- ===== src/Broadcaster/Refines.antt =====
-- The broadcaster against the list of all events that were published to a task.
use workflow_control.Prelude.{
  String, ℕ, suc, ◌+◌, ◌-◌, ◌≤◌, Option, none, some, false, not, List, [], ◌∷◌, ◌++◌, map, foldl,
  ◌≡◌, refl, sym, ap, subst, ◌∙◌, inl, inr, ◌==◌, eq_iff, eq_self, nat_eq, keep, drop, length,
  length-append, map_get, map_get-map_set, Bool-cases, Option-cases, arith, if◌then◌else◌,
}
use workflow_control.Broadcaster.{
  Event, Channel, Broadcaster, broadcaster, ensure_channel, retain, to_listener, put, publish,
  is_after, subscribe, unsubscribe, history_for, clear_task, Call, publishing, subscribing,
  unsubscribing, clearing, after_call,
}
use workflow_control.Broadcaster.Ring.{
  numbered, stamped, stamped-snoc, length-stamped, drop-nil, drop-drop, retain_more, stamped-drop,
  keep_later,
}

-- The events of a task since it was last cleared, in the order of their publication.
abbrev pub told : (task : String) → List Event → Call → List Event
told task log (publishing e) = if e.task_id == task then log ++ e ∷ [] else log
told task log (subscribing t listener from_seq) = log
told task log (unsubscribing t identity listener) = log
told task log (clearing t) = if t == task then [] else log

abbrev pub published : (task : String) → List Call → List Event
published task calls = foldl (told task) [] calls

-- What a channel holds after the events of a log.
abbrev Holds : (limit : ℕ) → List Event → Channel → Type 0
Holds limit log channel =
    (channel.history ≡ retain limit (stamped 1 log)) × (channel.next_seq ≡ suc (length log))

abbrev Refines : (limit : ℕ) → List Event → Option Channel → Type 0
Refines limit log none = log ≡ []
Refines limit log (some channel) = Holds limit log channel

fresh_Holds :
    (limit identity : ℕ) (log : List Event)
    → log ≡ []
    → Holds limit log (record { identity = identity; listeners = []; history = []; next_seq = 1 })
fresh_Holds limit identity log e = rw e (sym (drop-nil (0 - limit)), refl)

publish_Holds :
    (limit : ℕ) (log : List Event) (e : Event) (channel : Channel)
    → (kept : ℕ) → kept ≡ limit
    → Holds limit log channel
    → Holds limit (log ++ e ∷ []) (record channel {
      next_seq = suc channel.next_seq;
      history = retain kept (channel.history ++ numbered channel.next_seq e ∷ []);
    })
publish_Holds limit log e channel kept same (h, n) = (
  ap (λ k. retain k (channel.history ++ numbered channel.next_seq e ∷ [])) same
      ∙ ap (λ l. retain limit (l ++ numbered channel.next_seq e ∷ [])) h
      ∙ retain_more limit (stamped 1 log) (numbered channel.next_seq e)
      ∙ ap (λ k. retain limit (stamped 1 log ++ numbered k e ∷ [])) (n ∙ omega arith)
      ∙ ap (retain limit) (sym (stamped-snoc 1 log e)),
  omega (arith, n, length-append log (e ∷ [])),
)

-- What holds of a state after some calls.
record Follows (b : Broadcaster) (limit : ℕ) (logs : String → List Event) : Type 0 where
  limited : b.history_limit ≡ limit
  held : (task : String) → Refines limit (logs task) (map_get b.channels task)

-- What the lookup of a channel, made if it is not there, gives.
record IsEnsured (b : Broadcaster) (limit : ℕ) (logs : String → List Event) (task : String)
    (found : Channel × Broadcaster) : Type 0 where
  held : Holds limit (logs task) found.0
  follows : Follows found.1 limit logs

put-Follows :
    (b : Broadcaster) (limit : ℕ) (logs logs' : String → List Event) (task : String)
    (channel : Channel)
    → Follows b limit logs
    → Holds limit (logs' task) channel
    → ((x : String) → (task == x) ≡ false → logs' x ≡ logs x)
    → Follows (put b task channel) limit logs'
put-Follows b limit logs logs' task channel h k same = record {
  limited = h.limited;
  held = λ x. elim (Bool-cases (task == x)) [
    | inl t ↦
        rw (map_get-map_set b.channels task x channel, t)
          (subst (λ y. Holds limit (logs' y) channel) ((eq_iff task x).0 t) k)
    | inr t ↦ rw (map_get-map_set b.channels task x channel, t, same x t) (h.held x)
  ];
}

ensure_lem :
    (b : Broadcaster) (limit : ℕ) (logs : String → List Event) (task : String)
    → Follows b limit logs
    → IsEnsured b limit logs task (ensure_channel b task)
unfolding ensure_channel
ensure_lem b limit logs task h = elim (Option-cases (map_get b.channels task)) [
  | inr (channel, e) ↦
      rw (e, ensure_channel)
        (record { held = subst (Refines limit (logs task)) e (h.held task); follows = h })
  | inl e ↦
      let fresh =
        fresh_Holds limit b.created (logs task)
          (subst (Refines limit (logs task)) e (h.held task)) in
      rw (e, ensure_channel)
        (record {
          held = fresh;
          follows =
              put-Follows (record b { created = suc b.created }) limit logs logs task _
                (record { limited = h.limited; held = h.held }) fresh (λ x t. refl);
        })
]

keep_get :
    {V : Type 0} (m : List (String × V)) (gone k : String)
    → map_get (keep (λ (e : String × V). not (e.0 == gone)) m) k
      ≡ (if gone == k then none else map_get m k)
unfolding map_get
keep_get [] gone k = ground arith
keep_get ((j, v) ∷ m) gone k =
    ground (arith, keep_get m gone k, eq_iff j k, eq_iff j gone, eq_iff gone k)

call_Follows :
    (b : Broadcaster) (limit : ℕ) (logs : String → List Event) (call : Call)
    → Follows b limit logs
    → Follows (after_call b call) limit (λ task. told task (logs task) call)
unfolding after_call publish subscribe unsubscribe clear_task
call_Follows b limit logs (publishing e) h =
    let k = ensure_lem b limit logs e.task_id h in
    let f = ensure_channel b e.task_id in
    put-Follows f.1 limit logs (λ task. told task (logs task) (publishing e)) e.task_id _ k.follows
      (rw (eq_self e.task_id)
        (publish_Holds limit (logs e.task_id) e f.0 b.history_limit h.limited k.held))
      (λ x t. rw t refl)
call_Follows b limit logs (subscribing task listener from_seq) h =
    let k = ensure_lem b limit logs task h in
    put-Follows (ensure_channel b task).1 limit logs logs task _ k.follows k.held (λ x t. refl)
call_Follows b limit logs (unsubscribing task identity listener) h =
    elim (Option-cases (map_get b.channels task)) [
      | inl e ↦ rw (e, unsubscribe) (record { limited = h.limited; held = h.held })
      | inr (channel, e) ↦
          rw (e, unsubscribe)
            (elim (Bool-cases (nat_eq channel.identity identity)) [
              | inl t ↦ rw t (
                  put-Follows b limit logs logs task _ h
                    (subst (Refines limit (logs task)) e (h.held task)) (λ x t. refl))
              | inr t ↦ rw t (record { limited = h.limited; held = h.held })
            ])
    ]
call_Follows b limit logs (clearing t) h = record {
  limited = h.limited;
  held = λ task. elim (Bool-cases (t == task)) [
    | inl e ↦ rw (keep_get b.channels t task, e) refl
    | inr e ↦ rw (keep_get b.channels t task, e) (h.held task)
  ];
}

calls_Follow :
    (b : Broadcaster) (limit : ℕ) (logs : String → List Event) (calls : List Call)
    → Follows b limit logs
    → Follows (foldl after_call b calls) limit (λ task. foldl (told task) (logs task) calls)
calls_Follow b limit logs [] h = h
calls_Follow b limit logs (call ∷ calls) h =
    calls_Follow (after_call b call) limit (λ task. told task (logs task) call) calls
      (call_Follows b limit logs call h)

start_Follows : (limit : ℕ) → Follows (broadcaster limit) limit (λ task. [])
unfolding map_get
start_Follows limit = record { limited = refl; held = λ task. refl }

-- After any calls, in any order, the history of a task is what the events published to it since it was last
-- cleared give: numbered from one in the order of their publication, and of these the last, as many as the
-- limit allows.
pub history_for-published :
    (limit : ℕ) (calls : List Call) (task : String)
    → history_for (foldl after_call (broadcaster limit) calls) task
      ≡ retain limit (stamped 1 (published task calls))
unfolding history_for
history_for-published limit calls task =
    let b = foldl after_call (broadcaster limit) calls in
    let h = calls_Follow (broadcaster limit) limit (λ t. []) calls (start_Follows limit) in
    elim (Option-cases (map_get b.channels task)) [
      | inl e ↦
          rw (e, history_for)
            (empty (published task calls)
              (subst (Refines limit (published task calls)) e (h.held task)))
      | inr (channel, e) ↦
          rw (e, history_for) (subst (Refines limit (published task calls)) e (h.held task)).0
    ]
  where
    empty : (log : List Event) → log ≡ [] → [] ≡ retain limit (stamped 1 log)
    empty log e = rw e (sym (drop-nil (0 - limit)))

-- A listener that has seen the events up to a number and subscribes again, where no more events than the
-- limit were published since, is given exactly the events after that number, each once and in their order.
pub subscribe-published :
    (limit : ℕ) (calls : List Call) (task : String) (listener seen : ℕ)
    → seen ≤ length (published task calls)
    → length (published task calls) ≤ seen + limit
    → (subscribe task listener (some seen) (foldl after_call (broadcaster limit) calls)).0
      ≡ map (λ e. to_listener e listener) (stamped (suc seen) (drop seen (published task calls)))
unfolding subscribe
subscribe-published limit calls task listener seen le near =
    let b = foldl after_call (broadcaster limit) calls in
    let log = published task calls in
    let h = calls_Follow (broadcaster limit) limit (λ t. []) calls (start_Follows limit) in
    let k = ensure_lem b limit (λ t. published t calls) task h in
    let n = length log - limit in
    let n' : length (stamped 1 log) - limit ≡ n = omega (arith, length-stamped 1 log) in
    ap (λ l. map (λ e. to_listener e listener) (keep (is_after seen) l))
      (k.held.0 ∙ ap (λ x. drop x (stamped 1 log)) n' ∙ stamped-drop n 1 log)
    ∙ ap (map (λ e. to_listener e listener)) (
        keep_later seen (1 + n) (drop n log)
        ∙ ap (λ l. stamped ((1 + n) + (suc seen - (1 + n))) l)
            (drop-drop (suc seen - (1 + n)) n log
              ∙ ap (λ x. drop x log) (moved n seen (omega arith)))
        ∙ ap (λ x. stamped x (drop seen log)) (first n seen (omega arith)))
  where
    moved : (n seen : ℕ) → n ≤ seen → n + (suc seen - (1 + n)) ≡ seen
    moved n seen le = omega arith

    first : (n seen : ℕ) → n ≤ seen → (1 + n) + (suc seen - (1 + n)) ≡ suc seen
    first n seen le = omega arith
