-- ===== src/Dag.antt =====
-- The check that a pipeline's wires have no cycle: apps/server/src/kernel-next/validator/dag.ts.
-- `type_error` is the exception of `upstream.get(...)!` on a stage that is not declared. A name is
-- compared by its characters, as `sort()` does for names in ASCII, which the schema demands.
pub mod Sort
pub mod Links
pub mod Notes
pub mod Seeds
pub mod Search
pub mod Sorted
pub mod Correct
mod Samples
use Prim.Native.String.{compare}
use text.Mathlib.Text.{is_lt}
use workflow_control.Prelude.{
  String, ℕ, zero, suc, Option, none, some, Bool, not, ◌&&◌, ◌||◌, List, [], ◌∷◌, ◌++◌, foldl, ◌==◌,
  includes, set_add, length, keep, nat_eq, map_get, map_set, map_has, if◌then◌else◌,
}
use workflow_control.Ir.{Pipeline, Wire}
use workflow_control.Ir.Wires.{wire_from_stage, source_port}
use workflow_control.Kahn.{run}
use workflow_control.Segments.{stage_names, or_empty, push}

unfoldable pub insert_name : String → List String → List String
insert_name x [] = x ∷ []
insert_name x (y ∷ ys) =
    let rest = insert_name x ys in if is_lt (compare y x) then y ∷ rest else x ∷ y ∷ ys

-- `sort()` on an array of names.
unfoldable pub sort_names : List String → List String
unfolding insert_name
sort_names [] = []
sort_names (x ∷ xs) = insert_name x (sort_names xs)

pub record Edges : Type 0 where
  pub upstream : List (String × List String)
  pub downstream : List (String × List String)

abbrev pub sets_of : List (String × List String) → String → List String
sets_of m n = or_empty (map_get m n)

-- upstream.get(to)!.add(from); downstream.get(from)!.add(to)
unfoldable pub add_edge : Edges → (from to : String) → Option Edges
add_edge g from to =
    if map_has g.upstream to && map_has g.downstream from
    then some (record {
      upstream = map_set g.upstream to (set_add (sets_of g.upstream to) from);
      downstream = map_set g.downstream from (set_add (sets_of g.downstream from) to);
    })
    else none

-- A wire that carries the feedback of a gate back is no edge, and a self-wire is none here.
unfoldable pub is_edge : (from : String) → Wire → Bool
is_edge from w = not (from == w.to.stage || source_port w.from == "__gate_feedback__")

unfoldable pub note_wire : Edges → Wire → Option Edges
unfolding add_edge is_edge
note_wire g w = elim (wire_from_stage w) [
  | none ↦ some g
  | some from ↦ if is_edge from w then add_edge g from w.to.stage else some g
]

unfoldable pub note_wires : Edges → List Wire → Option Edges
unfolding note_wire
note_wires g [] = some g
note_wires g (w ∷ ws) = elim (note_wire g w) [ none ↦ none | some g' ↦ note_wires g' ws ]

abbrev pub blank_sets : List String → List (String × List String)
blank_sets = foldl (λ m n. map_set m n []) []

-- inDegree: the size of each stage's upstream set.
unfoldable pub sizes : List (String × List String) → List (String × ℕ)
sizes [] = []
sizes ((n, ups) ∷ m) = (n, length ups) ∷ sizes m

-- The keys of inDegree with degree 0, sorted.
unfoldable pub seeds : List (String × ℕ) → List String
seeds [] = []
seeds ((n, d) ∷ m) = let rest = seeds m in if nat_eq d 0 then n ∷ rest else rest

abbrev pub downs : Edges → String → List String
downs g n = sort_names (sets_of g.downstream n)

unfoldable pub kahn : Edges → ℕ → Option (List String)
unfolding sizes seeds
kahn g fuel =
    run (downs g) push fuel (record {
      degrees = sizes g.upstream;
      queue = sort_names (seeds (sizes g.upstream));
      out = [];
    })

-- Self-wires, gate feedback or not.
unfoldable pub self_wire : List Wire → Option String
self_wire [] = none
self_wire (w ∷ ws) =
    let rest = self_wire ws in
    elim (wire_from_stage w) [
      | none ↦ rest
      | some from ↦ if from == w.to.stage then some from else rest
    ]

-- The depth-first search for one cycle among the stages that were not ordered.
pub data Found : Type 0 where
  exhausted absent : Found
  found : List String → Found

pub record Dfs : Type 0 where
  pub stack : List String
  pub on_stack : List String
  pub visited : List String

-- stack.slice(stack.indexOf(node))
unfoldable pub slice_from : String → List String → List String
slice_from node [] = []
slice_from node (x ∷ xs) = let rest = slice_from node xs in if x == node then x ∷ xs else rest

unfoldable pub pop : List String → List String
pop [] = []
pop (x ∷ []) = []
pop (x ∷ y ∷ xs) = x ∷ pop (y ∷ xs)

abbrev pub enter : Dfs → String → Dfs
enter st node = record {
  stack = st.stack ++ node ∷ [];
  on_stack = set_add st.on_stack node;
  visited = set_add st.visited node;
}

unfoldable pub leave : String → Found × Dfs → Found × Dfs
unfolding pop
leave node (absent, st) =
    (absent, record st { stack = pop st.stack; on_stack = keep (λ x. not (x == node)) st.on_stack })
leave node (exhausted, st) = (exhausted, st)
leave node (found c, st) = (found c, st)

-- The loop over the sorted successors; `call` is the recursive call of `dfs`.
unfoldable pub dfs_each :
    (String → Dfs → Found × Dfs) → List String → List String → Dfs → Found × Dfs
dfs_each call remaining [] st = (absent, st)
dfs_each call remaining (m ∷ ms) st =
    if not (includes remaining m) then dfs_each call remaining ms st else elim (call m st).0 [
      | absent ↦ dfs_each call remaining ms (call m st).1
      | exhausted ↦ (exhausted, (call m st).1)
      | found c ↦ (found c, (call m st).1)
    ]

unfoldable pub dfs : Edges → List String → ℕ → String → Dfs → Found × Dfs
unfolding slice_from leave dfs_each
dfs g remaining zero node st = (exhausted, st)
dfs g remaining (suc fuel) node st =
    let search =
      leave node (dfs_each (dfs g remaining fuel) remaining (downs g node) (enter st node)) in
    if includes st.on_stack node
    then (found (slice_from node st.stack ++ node ∷ []), st)
    else if includes st.visited node
    then (absent, st)
    else search

-- `cycle none` is the array with `undefined` alone, where nothing remains; `out_of_fuel` is no
-- outcome of the program.
pub data BuildResult : Type 0 where
  dag : (topo_order : List String) (edges : Edges) → BuildResult
  cycle : Option (List String) → BuildResult
  type_error out_of_fuel : BuildResult

abbrev start_dfs : Dfs
start_dfs = record { stack = []; on_stack = []; visited = [] }

-- dfs(start) ?? [start]
abbrev or_start : String → Found → BuildResult
or_start start exhausted = out_of_fuel
or_start start absent = cycle (some (start ∷ []))
or_start start (found c) = cycle (some c)

unfoldable pub extract_cycle : List String → Edges → BuildResult
unfolding dfs sort_names
extract_cycle remaining g = elim (sort_names remaining) [
  | [] ↦ cycle none
  | start ∷ _ ↦ or_start start (dfs g remaining (suc (length remaining)) start start_dfs).0
]

unfoldable pub finish_dag : Pipeline → Edges → List String → BuildResult
unfolding extract_cycle self_wire
finish_dag ir g order =
    if nat_eq (length order) (length ir.stages)
    then elim (self_wire ir.wires) [ none ↦ dag order g | some from ↦ cycle (some (from ∷ [])) ]
    else extract_cycle (keep (λ n. not (includes order n)) (stage_names ir)) g

unfoldable pub build_dag : Pipeline → BuildResult
build_dag ir =
    elim (note_wires
      (record { upstream = blank_sets (stage_names ir); downstream = blank_sets (stage_names ir) })
      ir.wires) [
        | none ↦ type_error
        | some g ↦ elim (kahn g (length ir.stages)) [
          | none ↦ out_of_fuel
          | some order ↦ finish_dag ir g order
        ]
      ]

-- `validateDag`, its one diagnostic as the cycle that it carries; an exception and fuel as above.
pub data Verdict : Type 0 where
  accepted throws unknown : Verdict
  has_cycle : Option (List String) → Verdict

unfoldable pub validate_dag : Pipeline → Verdict
validate_dag ir = elim (build_dag ir) [
  | dag order g ↦ accepted
  | cycle c ↦ has_cycle c
  | type_error ↦ throws
  | out_of_fuel ↦ unknown
]
