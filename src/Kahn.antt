-- ===== src/Kahn.antt =====
-- Kahn's algorithm, the loop that three places of the program share:
-- `topologicalStageOrder` of apps/server/src/kernel-next/runtime/segment-planner.ts, `buildDag` of
-- apps/server/src/kernel-next/validator/dag.ts and `findEarliestDivergence` of
-- apps/server/src/kernel-next/hot-update/divergence.ts. They differ in the successors of a stage and in
-- where a stage is put into the queue. The source counts an in-degree down past 0, where no test
-- ever fires again; here it stays at 0, and the test `d === 0` is made before the step, as `d` = 1.
-- Each round moves one stage from the queue to the result, so a round for each stage is fuel
-- enough; `none` means that the fuel ran out.
pub mod Counts
pub mod Release
pub mod Correct
use workflow_control.Prelude.{
  String, ℕ, zero, suc, ◌-◌, Option, none, some, List, [], ◌∷◌, ◌++◌, foldl, map_get, map_set,
  nat_eq, if◌then◌else◌,
}

abbrev pub or_zero : Option ℕ → ℕ
or_zero none = 0
or_zero (some n) = n

-- inDegree.get(name) ?? 0
unfoldable pub degree : List (String × ℕ) → String → ℕ
degree m n = or_zero (map_get m n)

pub record State : Type 0 where
  pub degrees : List (String × ℕ)
  pub queue : List String
  pub out : List String

module _ (enqueue : List String → String → List String) where
  -- the body of the `for` loop over the successors
  pub release : State → String → State
  release s next =
      let d = degree s.degrees next in
      record s {
        degrees = map_set s.degrees next (d - 1);
        queue = if nat_eq d 1 then enqueue s.queue next else s.queue;
      }

  pub release_all : State → List String → State
  unfolding release
  release_all = foldl release

-- The `while` loop.
module _ (successors : String → List String) (enqueue : List String → String → List String) where
  unfoldable pub run : ℕ → State → Option (List String)
  unfolding release_all
  run zero s = elim s.queue [ [] ↦ some s.out | _ ∷ _ ↦ none ]
  run (suc fuel) s = elim s.queue [
    | [] ↦ some s.out
    | n ∷ rest ↦
        run fuel
          (release_all enqueue (record s { queue = rest; out = s.out ++ n ∷ [] }) (successors n))
  ]
