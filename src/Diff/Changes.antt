-- ===== src/Diff/Changes.antt =====
-- The changes of one stage: the comparison of two stages of a name in `computePipelineDiff`,
-- apps/server/src/kernel-next/hot-update/diff.ts.
use workflow_control.Prelude.{
  String, Option, none, some, Bool, true, false, not, ◌&&◌, List, [], ◌∷◌, ◌==◌, if◌then◌else◌,
}
use workflow_control.Ir.{
  Stage, StageConfig, agent, script, gate, ScriptConfig, registry, inline, GateConfig, GateQuestion,
  GateAnswerOption, RouteTarget, one, many,
}
use workflow_control.Diff.Ports.{PortsDiff, diff_ports}

abbrev same_names : List String → List String → Bool
same_names [] [] = true
same_names [] (y ∷ ys) = false
same_names (x ∷ xs) [] = false
same_names (x ∷ xs) (y ∷ ys) = x == y && same_names xs ys

abbrev same_text : Option String → Option String → Bool
same_text none none = true
same_text none (some t) = false
same_text (some s) none = false
same_text (some s) (some t) = s == t

abbrev same_options : List GateAnswerOption → List GateAnswerOption → Bool
same_options [] [] = true
same_options [] (y ∷ ys) = false
same_options (x ∷ xs) [] = false
same_options (x ∷ xs) (y ∷ ys) =
    x.value == y.value && same_text x.description y.description && same_options xs ys

abbrev same_option_lists : Option (List GateAnswerOption) → Option (List GateAnswerOption) → Bool
same_option_lists none none = true
same_option_lists none (some ys) = false
same_option_lists (some xs) none = false
same_option_lists (some xs) (some ys) = same_options xs ys

abbrev pub same_question : GateQuestion → GateQuestion → Bool
same_question q r = q.text == r.text && same_option_lists q.options r.options

abbrev same_route_target : RouteTarget → RouteTarget → Bool
same_route_target (one t) (one u) = t == u
same_route_target (one t) (many us) = false
same_route_target (many ts) (one u) = false
same_route_target (many ts) (many us) = same_names ts us

abbrev pub same_routes : List (String × RouteTarget) → List (String × RouteTarget) → Bool
same_routes [] [] = true
same_routes [] (y ∷ ys) = false
same_routes (x ∷ xs) [] = false
same_routes ((a, t) ∷ xs) ((b, u) ∷ ys) = a == b && same_route_target t u && same_routes xs ys

pub data SourceKind : Type 0 where
  registry_source inline_source : SourceKind

pub record StageDiffChanges : Type 0 where
  pub prompt_ref : Option (String × String)
  pub module_id : Option (String × String)
  pub script_source : Option (SourceKind × SourceKind)
  pub module_source : Option (String × String)
  pub question : Option (GateQuestion × GateQuestion)
  pub inputs : Option PortsDiff
  pub outputs : Option PortsDiff

abbrev pub changed : String → String → Option (String × String)
changed before after = if not (before == after) then some (before, after) else none

abbrev pub blank_changes : StageDiffChanges
blank_changes = record {
  prompt_ref = none;
  module_id = none;
  script_source = none;
  module_source = none;
  question = none;
  inputs = none;
  outputs = none;
}

abbrev script_changes : ScriptConfig → ScriptConfig → StageDiffChanges
script_changes (registry m r) (registry n s) = record blank_changes { module_id = changed m n }
script_changes (registry m r) (inline n i s) = record blank_changes {
  script_source = some (registry_source, inline_source);
}
script_changes (inline m i r) (registry n s) = record blank_changes {
  script_source = some (inline_source, registry_source);
}
script_changes (inline m i r) (inline n j s) = record blank_changes { module_source = changed m n }

abbrev gate_changes : GateConfig → GateConfig → StageDiffChanges
gate_changes c d = record blank_changes {
  question =
      if not (same_question c.question d.question) then some (c.question, d.question) else none;
}

-- The changes by the type of the stage; it is called on two stages of one type.
abbrev config_changes : StageConfig → StageConfig → StageDiffChanges
config_changes (agent c) (agent d) = record blank_changes {
  prompt_ref = changed c.prompt_ref d.prompt_ref;
}
config_changes (script c) (script d) = script_changes c d
config_changes (gate c) (gate d) = gate_changes c d
config_changes (agent c) (script d) = blank_changes
config_changes (agent c) (gate d) = blank_changes
config_changes (script c) (agent d) = blank_changes
config_changes (script c) (gate d) = blank_changes
config_changes (gate c) (agent d) = blank_changes
config_changes (gate c) (script d) = blank_changes

unfoldable pub stage_changes : (base proposed : Stage) → StageDiffChanges
unfolding diff_ports
stage_changes b p = record (config_changes b.config p.config) {
  inputs = diff_ports b.inputs p.inputs;
  outputs = diff_ports b.outputs p.outputs;
}
