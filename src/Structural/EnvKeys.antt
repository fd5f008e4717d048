-- ===== src/Structural/EnvKeys.antt =====
-- The rule on the environment keys of MCP servers: each stands as `${KEY}` in the command, an argument
-- or the environment of its server. Texts are their code points. A reference holds no `$` behind its
-- start, so no two overlap, and the search, which goes on behind each, may go on at each character.
pub mod References
pub mod Correct
use workflow_control.Prelude.{
  String, ℕ, Option, none, some, Bool, not, ◌&&◌, ◌||◌, List, [], ◌∷◌, ◌++◌, map, any, leb, nat_eq,
  codes, same_codes, if◌then◌else◌,
}
use workflow_control.Ir.{Stage, StageConfig, agent, script, gate, McpServerDecl}
use workflow_control.Structural.{Diagnostic, report, envkey_not_referenced}

-- [A-Za-z_]
unfoldable pub is_letter : ℕ → Bool
is_letter c = (leb b'A' c && leb c b'Z') || ((leb b'a' c && leb c b'z') || nat_eq c b'_')

-- [A-Za-z0-9_]
unfoldable pub is_part : ℕ → Bool
unfolding is_letter
is_part c = is_letter c || (leb b'0' c && leb c b'9')

-- The rest of a name, up to the brace.
unfoldable pub rest_of_name : List ℕ → Option (List ℕ)
unfolding is_part
rest_of_name [] = none
rest_of_name (c ∷ cs) =
    let rest = rest_of_name cs in
    if nat_eq c b'}'
    then some []
    else if is_part c
    then elim rest [ none ↦ none | some n ↦ some (c ∷ n) ]
    else none

unfoldable pub name_at : List ℕ → Option (List ℕ)
unfolding rest_of_name
name_at [] = none
name_at (c ∷ cs) =
    if is_letter c then elim (rest_of_name cs) [ none ↦ none | some n ↦ some (c ∷ n) ] else none

-- A match of VAR_RE_FOR_ENVKEY at the start.
unfoldable pub ref_at : List ℕ → Option (List ℕ)
unfolding name_at
ref_at [] = none
ref_at (d ∷ []) = none
ref_at (d ∷ b ∷ cs) = if nat_eq d b'$' && nat_eq b b'{' then name_at cs else none

unfoldable pub collect_var_refs : List ℕ → List (List ℕ)
unfolding ref_at
collect_var_refs [] = []
collect_var_refs (c ∷ cs) =
    let later = collect_var_refs cs in elim (ref_at (c ∷ cs)) [ none ↦ later | some n ↦ n ∷ later ]

abbrev pub values_of : Option (List (String × String)) → List String
values_of none = []
values_of (some env) = map (λ (e : String × String). e.1) env

-- The texts that are searched, in the order of the code.
abbrev pub texts_of : McpServerDecl → List String
texts_of d = d.command ∷ d.args ++ values_of d.env

unfoldable pub is_referenced : String → List String → Bool
unfolding same_codes collect_var_refs
is_referenced key texts = any (λ t. any (same_codes (codes key)) (collect_var_refs (codes t))) texts

abbrev pub key_diagnostics : (stage server : String) → List String → List String → List Diagnostic
key_diagnostics stage server texts [] = []
key_diagnostics stage server texts (key ∷ keys) =
    report (not (is_referenced key texts)) (envkey_not_referenced stage server key)
    ++ key_diagnostics stage server texts keys

abbrev pub server_diagnostics : (stage : String) → List McpServerDecl → List Diagnostic
server_diagnostics stage [] = []
server_diagnostics stage (d ∷ ds) =
    key_diagnostics stage d.name (texts_of d) d.env_keys ++ server_diagnostics stage ds

abbrev pub servers_of : StageConfig → List McpServerDecl
servers_of (agent c) = elim c.mcp_servers [ none ↦ [] | some ds ↦ ds ]
servers_of (script c) = []
servers_of (gate c) = []

unfoldable pub env_key_diagnostics : List Stage → List Diagnostic
unfolding is_referenced
env_key_diagnostics [] = []
env_key_diagnostics (s ∷ stages) =
    server_diagnostics s.name (servers_of s.config) ++ env_key_diagnostics stages
