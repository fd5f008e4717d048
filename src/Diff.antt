-- ===== src/Diff.antt =====
-- The difference of two pipelines: apps/server/src/kernel-next/hot-update/diff.ts with the types of
-- apps/server/src/kernel-next/hot-update/types.ts. Objects that the source compares by
-- `JSON.stringify` are compared here by their parts, and a wire key by the parts that its text is
-- made of: the schema's names hold none of the signs between them.
pub mod Ports
pub mod Changes
pub mod Stages
pub mod SafeRange
mod Samples
use workflow_control.Prelude.{
  String, Option, none, some, Bool, true, false, not, ◌&&◌, List, [], ◌∷◌, ◌++◌, ◌==◌, any, keep,
  if◌then◌else◌,
}
use workflow_control.Ir.{Wire, WireSource, stage, external}

pub data Category : Type 0 where
  prompt_only ports_only budget_only structural : Category

abbrev pub same_category : Category → Category → Bool
same_category prompt_only prompt_only = true
same_category prompt_only ports_only = false
same_category prompt_only budget_only = false
same_category prompt_only structural = false
same_category ports_only prompt_only = false
same_category ports_only ports_only = true
same_category ports_only budget_only = false
same_category ports_only structural = false
same_category budget_only prompt_only = false
same_category budget_only ports_only = false
same_category budget_only budget_only = true
same_category budget_only structural = false
same_category structural prompt_only = false
same_category structural ports_only = false
same_category structural budget_only = false
same_category structural structural = true

-- categoryUnion.add(c)
unfoldable pub add_category : List Category → Category → List Category
add_category cs c = if any (same_category c) cs then cs else cs ++ c ∷ []

abbrev same_source : WireSource → WireSource → Bool
same_source (stage a p) (stage b q) = a == b && p == q
same_source (stage a p) (external q) = false
same_source (external p) (stage b q) = false
same_source (external p) (external q) = p == q

-- A guard that is the empty text counts as none.
abbrev guard_text : Option String → String
guard_text none = ""
guard_text (some g) = g

-- wireKey(v) === wireKey(w)
unfoldable pub same_key : Wire → Wire → Bool
same_key v w =
    same_source v.from w.from
    && (v.to.stage == w.to.stage && v.to.port == w.to.port)
    && guard_text v.guard == guard_text w.guard

-- The wires of `ws` whose key no wire of `others` has.
unfoldable pub wires_beyond : (others : List Wire) → List Wire → List Wire
unfolding same_key
wires_beyond others = keep (λ w. not (any (same_key w) others))

pub record WireDiff : Type 0 where
  pub added : List Wire
  pub removed : List Wire

unfoldable pub diff_wires : (base proposed : List Wire) → WireDiff
unfolding wires_beyond
diff_wires base proposed = record {
  added = wires_beyond base proposed;
  removed = wires_beyond proposed base;
}
