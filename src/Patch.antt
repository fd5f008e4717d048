-- ===== src/Patch.antt =====
-- Applying an IR patch: apps/server/src/kernel-next/mcp/patch.ts, and IRPatchOp of
-- apps/server/src/kernel-next/ir/schema.ts. A `PatchApplyError` is the operation's place in the
-- source and what was wrong. A configuration patch is the list of the keys that it sets, with
-- values of the types that the schema gives those keys (the patch op itself leaves them `unknown`).
-- A stage's configuration holds the keys of its type only: `moduleId`, which the patch would also
-- merge into an inline script, where no code reads it, leaves an inline script as it was.
mod Keeps
pub mod Unique
pub mod Undo
pub mod Order
mod Samples
use workflow_control.Prelude.{
  String, ℕ, Option, none, some, Bool, true, false, not, ◌&&◌, ◌||◌, List, [], ◌∷◌, ◌++◌, ◌==◌,
  length, nat_eq, any, all, find, keep, if◌then◌else◌,
}
use workflow_control.Ir.{
  Port, Pipeline, Stage, StageConfig, AgentConfig, ScriptConfig, GateConfig, RetrySpec,
  GateQuestion, GateRouting, SubAgentDef, McpServerDecl, agent, script, gate, registry, inline,
  Wire,
}
use workflow_control.Ir.Wires.{source_port, wire_source_key_prefix}

pub data Direction : Type 0 where
  inward outward : Direction

-- One key of a `configPatch` with its value; `other` is a key of no stage type.
pub data ConfigEntry : Type 0 where
  prompt_ref : String → ConfigEntry
  sub_agents : List SubAgentDef → ConfigEntry
  mcp_servers : List McpServerDecl → ConfigEntry
  cross_segment_resume_from : String → ConfigEntry
  module_id : String → ConfigEntry
  retry : RetrySpec → ConfigEntry
  question : GateQuestion → ConfigEntry
  routing : GateRouting → ConfigEntry
  timeout_minutes : ℕ → ConfigEntry
  other : String → ConfigEntry

pub data PatchOp : Type 0 where
  add_stage : Stage → PatchOp
  remove_stage : String → PatchOp
  add_wire : Wire → PatchOp
  remove_wire : Wire → PatchOp
  update_port_type : (stage port : String) (direction : Direction) (new_type : String) → PatchOp
  update_stage_config : (stage : String) (config_patch : List ConfigEntry) → PatchOp
  add_external_input : Port → PatchOp
  remove_external_input : String → PatchOp

pub data PatchError : Type 0 where
  stage_exists stage_missing wire_exists wire_missing port_missing : PatchError
  config_keys_refused external_exists external_missing : PatchError

pub data Result (A : Type 0) : Type 0 where
  ok : A → Result A
  throws : PatchError → PatchOp → Result A

infixl 5 ◌>>=◌
abbrev pub ◌>>=◌ : {A B : Type 0} → Result A → (A → Result B) → Result B
ok a >>= f = f a
throws e op >>= f = throws e op

-- `find` and a write to what it found: the first element that passes the test is changed.
unfoldable pub update_first : {A : Type 0} → (A → Bool) → (A → A) → List A → List A
update_first p f [] = []
update_first p f (x ∷ xs) = let rest = update_first p f xs in if p x then f x ∷ xs else x ∷ rest

abbrev pub is_named : String → Stage → Bool
is_named n s = s.name == n

abbrev pub is_port : String → Port → Bool
is_port n p = p.name == n

abbrev pub ports_of : Direction → Stage → List Port
ports_of inward s = s.inputs
ports_of outward s = s.outputs

-- `stages.find(...)`, then `ports.find(...)`: whether both find something.
abbrev pub stage_has_port : Direction → String → Stage → Bool
stage_has_port d port s = any (is_port port) (ports_of d s)

abbrev pub retype : String → Port → Port
retype new_type p = record p { type = new_type }

unfoldable pub set_port_type : Direction → (port new_type : String) → Stage → Stage
unfolding update_first
set_port_type inward port new_type s = record s {
  inputs = update_first (is_port port) (retype new_type) s.inputs;
}
set_port_type outward port new_type s = record s {
  outputs = update_first (is_port port) (retype new_type) s.outputs;
}

-- w.from's stage or "__external__", w.from.port, w.to.stage and w.to.port agree.
unfoldable pub same_ends : Wire → Wire → Bool
unfolding wire_source_key_prefix
same_ends v w =
    wire_source_key_prefix w == wire_source_key_prefix v
    && (source_port w.from == source_port v.from
        && (w.to.stage == v.to.stage && w.to.port == v.to.port))

unfoldable pub touches : String → Wire → Bool
unfolding wire_source_key_prefix
touches n w = wire_source_key_prefix w == n || w.to.stage == n

-- ALLOWED_CONFIG_KEYS
unfoldable pub is_allowed : StageConfig → ConfigEntry → Bool
is_allowed (agent c) (prompt_ref v) = true
is_allowed (agent c) (sub_agents v) = true
is_allowed (agent c) (mcp_servers v) = true
is_allowed (agent c) (cross_segment_resume_from v) = true
is_allowed (script c) (module_id v) = true
is_allowed (script c) (retry v) = true
is_allowed (gate c) (question v) = true
is_allowed (gate c) (routing v) = true
is_allowed (gate c) (timeout_minutes v) = true
is_allowed _ _ = false

merge_agent : AgentConfig → ConfigEntry → AgentConfig
merge_agent c (prompt_ref v) = record c { prompt_ref = v }
merge_agent c (sub_agents v) = record c { sub_agents = some v }
merge_agent c (mcp_servers v) = record c { mcp_servers = some v }
merge_agent c (cross_segment_resume_from v) = record c { cross_segment_resume_from = some v }
merge_agent c _ = c

merge_script : ScriptConfig → ConfigEntry → ScriptConfig
merge_script (registry m r) (module_id v) = registry v r
merge_script (registry m r) (retry v) = registry m (some v)
merge_script (inline m i r) (retry v) = inline m i (some v)
merge_script c _ = c

merge_gate : GateConfig → ConfigEntry → GateConfig
merge_gate c (question v) = record c { question = v }
merge_gate c (routing v) = record c { routing = v }
merge_gate c (timeout_minutes v) = record c { timeout_minutes = some v }
merge_gate c _ = c

-- { ...stage.config, ...op.configPatch }
unfoldable pub merge_config : StageConfig → List ConfigEntry → StageConfig
unfolding merge_agent merge_script merge_gate
merge_config c [] = c
merge_config (agent c) (e ∷ es) = merge_config (agent (merge_agent c e)) es
merge_config (script c) (e ∷ es) = merge_config (script (merge_script c e)) es
merge_config (gate c) (e ∷ es) = merge_config (gate (merge_gate c e)) es

abbrev pub coalesce : Option (List Port) → List Port
coalesce none = []
coalesce (some ps) = ps

-- The cases of the `switch`, each on the pipeline that the operations before it left.
unfoldable pub apply_op : Pipeline → PatchOp → Result Pipeline
unfolding update_first set_port_type same_ends touches is_allowed merge_config
apply_op ir (add_stage s) =
    if any (is_named s.name) ir.stages
    then throws stage_exists (add_stage s)
    else ok (record ir { stages = ir.stages ++ s ∷ [] })
apply_op ir (remove_stage n) =
    let rest = keep (λ s. not (is_named n s)) ir.stages in
    if nat_eq (length rest) (length ir.stages)
    then throws stage_missing (remove_stage n)
    else ok (record ir { stages = rest; wires = keep (λ w. not (touches n w)) ir.wires })
apply_op ir (add_wire w) =
    if any (same_ends w) ir.wires
    then throws wire_exists (add_wire w)
    else ok (record ir { wires = ir.wires ++ w ∷ [] })
apply_op ir (remove_wire w) =
    let rest = keep (λ v. not (same_ends w v)) ir.wires in
    if nat_eq (length rest) (length ir.wires)
    then throws wire_missing (remove_wire w)
    else ok (record ir { wires = rest })
apply_op ir (update_port_type n port d new_type) = elim (find (is_named n) ir.stages) [
  | none ↦ throws stage_missing (update_port_type n port d new_type)
  | some s ↦
      if stage_has_port d port s
      then ok (record ir {
        stages = update_first (is_named n) (set_port_type d port new_type) ir.stages;
      })
      else throws port_missing (update_port_type n port d new_type)
]
apply_op ir (update_stage_config n entries) = elim (find (is_named n) ir.stages) [
  | none ↦ throws stage_missing (update_stage_config n entries)
  | some s ↦
      if all (is_allowed s.config) entries
      then ok (record ir {
        stages =
            update_first (is_named n) (λ t. record t { config = merge_config t.config entries })
              ir.stages;
      })
      else throws config_keys_refused (update_stage_config n entries)
]
apply_op ir (add_external_input p) =
    if any (is_port p.name) (coalesce ir.external_inputs)
    then throws external_exists (add_external_input p)
    else ok (record ir { external_inputs = some (coalesce ir.external_inputs ++ p ∷ []) })
apply_op ir (remove_external_input n) =
    let rest = keep (λ p. not (is_port n p)) (coalesce ir.external_inputs) in
    if nat_eq (length rest) (length (coalesce ir.external_inputs))
    then throws external_missing (remove_external_input n)
    else ok (record ir { external_inputs = some rest })

-- `applyPatch`: the operations in order, up to the first that throws.
unfoldable pub apply_patch : Pipeline → List PatchOp → Result Pipeline
unfolding apply_op
apply_patch ir [] = ok ir
apply_patch ir (op ∷ ops) = apply_op ir op >>= λ next. apply_patch next ops

-- What a result has to satisfy where the patch went through.
abbrev pub OnOk : {A : Type 0} → (A → Type 0) → Result A → Type 0
OnOk P (ok a) = P a
OnOk P (throws e op) = Unit

-- What the first result satisfies may be used on the second.
pub bind_OnOk :
    {A B : Type 0} (P : A → Type 0) (Q : B → Type 0) (r : Result A) (step : A → Result B)
    → OnOk P r
    → ((a : A) → P a → OnOk Q (step a))
    → OnOk Q (r >>= step)
bind_OnOk P Q (ok a) step h q = q a h
bind_OnOk P Q (throws x op) step h q = tt
