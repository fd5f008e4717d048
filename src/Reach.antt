-- ===== src/Reach.antt =====
-- Stages that the wires lead to from a stage: apps/server/src/kernel-next/runtime/topo-downstream.ts
-- and apps/server/src/kernel-next/hot-update/wire-reachable.ts, and `computeTransitiveDownstreams` of
-- apps/server/src/kernel-next/runtime/runner.ts. The loops have one body and differ in the test by
-- which a stage is passed over (`skip`), and the last takes the stage that was queued last, where
-- the others take the first (Loop.IsPop is what both have in common). A round takes a stage from the
-- queue, and only a target that was not yet seen is queued, so a round for each wire and one for
-- the start are fuel enough; `none` means that the fuel ran out.
pub mod Scan
pub mod Loop
pub mod Correct
mod Samples
use workflow_control.Prelude.{
  String, ℕ, zero, suc, Option, none, some, Bool, ◌||◌, List, [], ◌∷◌, ◌++◌, map, foldl, ◌==◌,
  includes, length, if◌then◌else◌,
}
use workflow_control.Ir.{Pipeline, Stage, Wire}
use workflow_control.Ir.Wires.{wire_from_stage}

pub record Search : Type 0 where
  pub visited : List String
  pub queue : List String

-- `pop` of an array: its last element, and those before it.
pub pop_last : List String → Option (String × List String)
pop_last [] = none
pop_last (x ∷ xs) = elim (pop_last xs) [ none ↦ some (x, []) | some (y, rest) ↦ some (y, x ∷ rest) ]

module _ (skip : List String → String → Bool) where
  -- visited.add(next); queue.push(next)
  pub offer : Search → String → Search
  offer s next =
      if skip s.visited next
      then s
      else record { visited = s.visited ++ next ∷ []; queue = s.queue ++ next ∷ [] }

  -- the body of the `for` loop over the wires
  pub visit_wire : String → Search → Wire → Search
  unfolding offer
  visit_wire current s w = elim (wire_from_stage w) [
    | none ↦ s
    | some from ↦ if from == current then offer s w.to.stage else s
  ]

  pub scan : String → Search → List Wire → Search
  unfolding visit_wire
  scan current = foldl (visit_wire current)

  -- the `while` loop
  pub loop : List Wire → ℕ → Search → Option (List String)
  unfolding scan
  loop wires zero s = elim s.queue [ [] ↦ some s.visited | _ ∷ _ ↦ none ]
  loop wires (suc fuel) s = elim s.queue [
    | [] ↦ some s.visited
    | current ∷ rest ↦ loop wires fuel (scan current (record s { queue = rest }) wires)
  ]

  -- the `while` loop with `frontier.pop()`
  pub loop_last : List Wire → ℕ → Search → Option (List String)
  unfolding scan pop_last
  loop_last wires zero s = elim (pop_last s.queue) [ none ↦ some s.visited | some (_, _) ↦ none ]
  loop_last wires (suc fuel) s = elim (pop_last s.queue) [
    | none ↦ some s.visited
    | some (current, rest) ↦ loop_last wires fuel (scan current (record s { queue = rest }) wires)
  ]

abbrev passes_start : String → List String → String → Bool
passes_start start visited next = includes visited next || next == start

unfoldable pub topo_downstream : List Wire → String → Option (List String)
unfolding loop
topo_downstream wires start =
    loop (passes_start start) wires (suc (length wires))
      (record { visited = []; queue = start ∷ [] })

unfoldable pub compute_transitive_downstreams : List Wire → String → Option (List String)
unfolding loop_last
compute_transitive_downstreams wires failed_stage =
    loop_last (passes_start failed_stage) wires (suc (length wires))
      (record { visited = []; queue = failed_stage ∷ [] })

unfoldable pub compute_wire_transitive_readers : Pipeline → String → Option (List String)
unfolding loop
compute_wire_transitive_readers ir start_stage =
    if includes (map (λ (s : Stage). s.name) ir.stages) start_stage
    then loop includes ir.wires (suc (length ir.wires))
        (record { visited = start_stage ∷ []; queue = start_stage ∷ [] })
    else some []
