-- ===== src/Guards.antt =====
-- The guards of wires: apps/server/src/kernel-next/runtime/guard-evaluator.ts and, for the report on
-- wires that do not deliver, runtime/runner-wire-resolver.ts. `run` stands for a call of
-- `new Function("value", ...)`, which JavaScript compiles: the expression and the value give a truth
-- value or throw. A report keeps the value whole, where the code keeps the first 200 characters.
pub mod Denied
pub mod Report
mod Samples
use Prim.Native.String.{◌++◌ as ◌+++◌}
use workflow_control.Prelude.{
  String, ℕ, Option, none, some, Bool, false, ◌&&◌, ◌||◌, List, [], ◌∷◌, ◌==◌, leb, nat_eq, codes,
  map_get, if◌then◌else◌,
}
use workflow_control.Ir.{WireTarget}
use workflow_control.Machine.Context.{InboundWire, StageMeta}

abbrev pub denied_identifiers : List String
denied_identifiers =
    "require" ∷ "import" ∷ "process" ∷ "globalThis" ∷ "global" ∷ "eval" ∷ "Function" ∷ "constructor"
    ∷ "prototype" ∷ "__proto__" ∷ []

-- What \w matches.
unfoldable pub is_word : ℕ → Bool
is_word c =
    (leb b'0' c && leb c b'9')
    || ((leb b'A' c && leb c b'Z') || ((leb b'a' c && leb c b'z') || nat_eq c b'_'))

abbrev pub starts_word : List ℕ → Bool
starts_word [] = false
starts_word (c ∷ cs) = is_word c

-- What is left of a text after a beginning.
unfoldable pub after_prefix : List ℕ → List ℕ → Option (List ℕ)
after_prefix [] cs = some cs
after_prefix (t ∷ ts) [] = none
after_prefix (t ∷ ts) (c ∷ cs) = let rest = after_prefix ts cs in if nat_eq t c then rest else none

-- The alternation and the boundary after it: an identifier ends with a character of a word.
unfoldable pub token_at : List String → List ℕ → Option String
unfolding after_prefix is_word
token_at [] cs = none
token_at (t ∷ ts) cs =
    let other = token_at ts cs in
    elim (after_prefix (codes t) cs) [
      | none ↦ other
      | some rest ↦ if starts_word rest then other else some t
    ]

-- DENY_PATTERN.exec, which looks for the leftmost match. An identifier starts with a character of a
-- word, so a boundary is before it where the character before is of none.
unfoldable pub deny_exec : (after_word : Bool) → List ℕ → Option String
unfolding token_at is_word
deny_exec after_word [] = none
deny_exec after_word (c ∷ cs) =
    let later = deny_exec (is_word c) cs in
    if after_word
    then later
    else elim (token_at denied_identifiers (c ∷ cs)) [ none ↦ later | some t ↦ some t ]

pub data Ran : Type 0 where
  returned : Bool → Ran
  threw : (message : String) → Ran

pub data GuardError : Type 0 where
  guard_denied : (token expr : String) → GuardError
  guard_threw : (message : String) → GuardError

abbrev pub ran : Ran → Bool × Option GuardError
ran (returned b) = (b, none)
ran (threw message) = (false, some (guard_threw message))

-- The result, and the error that `onError` is called with.
unfoldable pub evaluate_guard :
    (run : String → String → Ran) → (expr value : String) → Bool × Option GuardError
unfolding deny_exec
evaluate_guard run expr value = elim (deny_exec false (codes expr)) [
  | some token ↦ (false, some (guard_denied token expr))
  | none ↦ ran (run expr value)
]

pub data GuardFailureReason : Type 0 where
  upstream_not_written guard_false : GuardFailureReason
  guard_failed : (message : String) → GuardFailureReason

pub record GuardFailure : Type 0 where
  pub from : WireTarget
  pub to : WireTarget
  pub guard_expr : Option String
  pub value : Option String
  pub reason : GuardFailureReason

abbrev pub failure : InboundWire → Option String → GuardFailureReason → GuardFailure
failure w value reason = record {
  from = w.from;
  to = w.to;
  guard_expr = w.guard;
  value = value;
  reason = reason;
}

-- err.message
abbrev pub message_of : GuardError → String
message_of (guard_denied token expr) =
    "guard expression contains denied identifier '" +++ (token +++ ("': " +++ expr))
message_of (guard_threw message) = message

abbrev pub judge : InboundWire → (value : String) → Bool × Option GuardError → Option GuardFailure
judge w value (ok, some e) = some (failure w (some value) (guard_failed (message_of e)))
judge w value (ok, none) = if ok then none else some (failure w (some value) guard_false)

abbrev pub describe_guard :
    (run : String → String → Ran)
    → InboundWire
    → (value : String) → Option String
    → Option GuardFailure
describe_guard run w value none = none
describe_guard run w value (some g) =
    if g == "" then none else judge w value (evaluate_guard run g value)

unfoldable pub describe_wire_failure :
    (run : String → String → Ran) → InboundWire → List (String × String) → Option GuardFailure
unfolding evaluate_guard
describe_wire_failure run w values = elim (map_get values w.source_key) [
  | none ↦ some (failure w none upstream_not_written)
  | some value ↦ describe_guard run w value w.guard
]

unfoldable pub failed_wires :
    (run : String → String → Ran) → List (String × String) → List InboundWire → List GuardFailure
unfolding describe_wire_failure
failed_wires run values [] = []
failed_wires run values (w ∷ ws) =
    let rest = failed_wires run values ws in
    elim (describe_wire_failure run w values) [ none ↦ rest | some f ↦ f ∷ rest ]

pub record StageError : Type 0 where
  pub stage : String
  pub message : String
  pub failed_wires : List GuardFailure

unfoldable pub build_no_active_wire_error :
    (run : String → String → Ran)
    → (stage : String) → List (String × StageMeta)
    → List (String × String)
    → StageError
unfolding failed_wires
build_no_active_wire_error run stage metas values = record {
  stage = stage;
  message =
      "NO_ACTIVE_WIRE: every inbound wire to '"
      +++ (stage +++ "' resolved false — stage cannot activate");
  failed_wires = elim (map_get metas stage) [
    | none ↦ []
    | some meta ↦ failed_wires run values meta.inbound
  ];
}
