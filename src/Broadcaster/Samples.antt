-- ===== src/Broadcaster/Samples.antt =====
-- A broadcaster that retains two events for each task.
use workflow_control.Prelude.{
  String, ℕ, none, some, List, [], ◌∷◌, map, foldl, drop, ◌≡◌, refl, map_get, map_set, arith,
}
use workflow_control.Broadcaster.{
  Event, broadcaster, Call, publishing, subscribing, clearing, after_call, history_for, subscribe,
  retain, to_listener,
}
use workflow_control.Broadcaster.Ring.{stamped}
use workflow_control.Broadcaster.Refines.{published, history_for-published, subscribe-published}

abbrev event : String → Event
event body = record { task_id = "t"; seq = none; body = body }

abbrev three : List Call
three =
    publishing (event "a")
    ∷ subscribing "t" 7 none
    ∷ publishing (event "b")
    ∷ publishing (event "c")
    ∷ []

history_for-published_example :
    history_for (foldl after_call (broadcaster 2) three) "t"
    ≡ retain 2 (stamped 1 (published "t" three))
history_for-published_example = history_for-published 2 three "t"

subscribe-published_example :
    (subscribe "t" 9 (some 1) (foldl after_call (broadcaster 2) three)).0
    ≡ map (λ e. to_listener e 9) (stamped 2 (drop 1 (published "t" three)))
subscribe-published_example = subscribe-published 2 three "t" 9 1 (omega arith) (omega arith)

abbrev kept : ℕ → String → Event
kept n body = record { task_id = "t"; seq = some n; body = body }

history_test :
    history_for (foldl after_call (broadcaster 2) three) "t" ≡ kept 2 "b" ∷ kept 3 "c" ∷ []
unfolding history_for after_call map_get map_set
history_test = refl

cleared_test :
    history_for (foldl after_call (broadcaster 2) (publishing (event "a") ∷ clearing "t" ∷ [])) "t"
    ≡ []
unfolding history_for after_call map_get map_set
cleared_test = refl
