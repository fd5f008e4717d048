-- ===== src/Structural/EnvKeys/Correct.antt =====
-- What the rule on environment keys accepts.
use workflow_control.Prelude.{
  String, ℕ, true, not, List, [], ◌∷◌, ◌++◌, ◌≡◌, sym, subst, ◌↔◌, ◌⊎◌, In, All, any, codes,
  same_codes, same_codes_iff, arith,
}
use workflow_control.Ir.{Stage, McpServerDecl}
use workflow_control.Structural.{report, envkey_not_referenced}
use workflow_control.Structural.Silence.{append_silent, report_silent}
use workflow_control.Structural.EnvKeys.{
  collect_var_refs, values_of, texts_of, is_referenced, key_diagnostics, server_diagnostics,
  servers_of, env_key_diagnostics,
}
use workflow_control.Structural.EnvKeys.References.{
  IsName, HoldsRef, collect_sound, collect_complete,
}

any_ref_iff : (n : List ℕ) (ns : List (List ℕ)) → (any (same_codes n) ns ≡ true) ↔ In n ns
any_ref_iff n [] = ground arith
any_ref_iff n (m ∷ ns) = ground (arith, any_ref_iff n ns, same_codes_iff n m)

-- Some of the texts holds a reference to the key.
abbrev pub IsReferenced : String → List String → Type 0
IsReferenced key [] = ⊥
IsReferenced key (t ∷ ts) =
    (IsName (codes key) × HoldsRef (codes key) (codes t)) ⊎ IsReferenced key ts

text_iff :
    (key t : String)
    → (any (same_codes (codes key)) (collect_var_refs (codes t)) ≡ true)
      ↔ (IsName (codes key) × HoldsRef (codes key) (codes t))
text_iff key t =
    let refs = any_ref_iff (codes key) (collect_var_refs (codes t)) in
    (
      (λ e. collect_sound (codes key) (codes t) (refs.0 e)),
      λ (name, (before, after, same)). refs.1 (
          subst (λ l. In (codes key) (collect_var_refs l)) (sym same)
            (collect_complete (codes key) before after name)),
    )

is_referenced_iff :
    (key : String) (ts : List String) → (is_referenced key ts ≡ true) ↔ IsReferenced key ts
unfolding is_referenced
is_referenced_iff key [] = ground arith
is_referenced_iff key (t ∷ ts) = ground (arith, text_iff key t, is_referenced_iff key ts)

-- Each key of the server is referenced in it.
abbrev pub KeysOk : List String → List String → Type 0
KeysOk texts keys = All (λ k. IsReferenced k texts) keys

abbrev pub ServerOk : McpServerDecl → Type 0
ServerOk d = KeysOk (d.command ∷ d.args ++ values_of d.env) d.env_keys

keys_silent :
    (stage server : String) (texts keys : List String)
    → (key_diagnostics stage server texts keys ≡ []) ↔ KeysOk texts keys
keys_silent stage server texts [] = ground arith
keys_silent stage server texts (k ∷ ks) = ground (
  arith,
  append_silent (report (not (is_referenced k texts)) (envkey_not_referenced stage server k))
      (key_diagnostics stage server texts ks),
  report_silent (not (is_referenced k texts)) (envkey_not_referenced stage server k),
  is_referenced_iff k texts,
  keys_silent stage server texts ks,
)

servers_silent :
    (stage : String) (ds : List McpServerDecl)
    → (server_diagnostics stage ds ≡ []) ↔ All ServerOk ds
servers_silent stage [] = ground arith
servers_silent stage (d ∷ ds) = ground (
  arith,
  append_silent (key_diagnostics stage d.name (texts_of d) d.env_keys)
      (server_diagnostics stage ds),
  keys_silent stage d.name (texts_of d) d.env_keys,
  servers_silent stage ds,
)

-- The rule on environment keys gives no diagnostic exactly where each key that a server of a stage
-- declares is a name of a variable and stands as `${KEY}` in the server's command, in one of its
-- arguments or in a value of its environment.
pub env_key_diagnostics_correct :
    (stages : List Stage)
    → (env_key_diagnostics stages ≡ [])
      ↔ All (λ (s : Stage). All ServerOk (servers_of s.config)) stages
unfolding env_key_diagnostics
env_key_diagnostics_correct [] = ground arith
env_key_diagnostics_correct (s ∷ stages) = ground (
  arith,
  append_silent (server_diagnostics s.name (servers_of s.config)) (env_key_diagnostics stages),
  servers_silent s.name (servers_of s.config),
  env_key_diagnostics_correct stages,
)
