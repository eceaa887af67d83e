-- ===== src/EtcFiles/Yaml.antt =====
-- init.go: `UpdateConfigYAMLContents`, the edit of the configuration file.
pub mod Lines
use lazyjack.Base.{
  ℕ, Bytes, List, [], ◌∷◌, ◌++◌, Bool, true, false, ◌||◌, if◌then◌else◌, ◌==◌, str, has_prefix,
  trim_left, quote,
}
use lazyjack.Base.Split.{text_lines}

abbrev pub is_blank : ℕ → Bool
is_blank c = c == 32

-- Lines with an old token or hash, which are dropped.
unfoldable pub is_token_line : Bytes → Bool
is_token_line line =
    has_prefix (str "token:") (trim_left is_blank line)
    || has_prefix (str "token-cert-hash:") (trim_left is_blank line)

abbrev pub general_key : Bytes
general_key = str "general:"

-- What is written for the section `general`.
abbrev pub token_line : Bytes → Bytes
token_line token = str "    token: " ++ quote token

abbrev pub hash_line : Bytes → Bytes
hash_line hash = str "    token-cert-hash: " ++ quote hash

abbrev pub section : Bytes → Bytes → Bytes
section token hash =
    general_key ++ str "\n" ++ (token_line token ++ str "\n") ++ (hash_line hash ++ str "\n")

-- A round of the loop, with `notHandled` and the output.
yaml_round : Bytes → Bytes → Bytes → Bool × Bytes → Bool × Bytes
yaml_round token hash line (not_handled, output) =
    if is_token_line line
    then (not_handled, output)
    else if has_prefix general_key line
    then (false, output ++ section token hash)
    else (not_handled, output ++ (line ++ str "\n"))

yaml_loop : Bytes → Bytes → List Bytes → Bool × Bytes → Bool × Bytes
yaml_loop token hash [] st = st
yaml_loop token hash (line ∷ lines) st = yaml_loop token hash lines (yaml_round token hash line st)

unfoldable pub update_config_yaml_contents : Bytes → Bytes → Bytes → Bytes
unfolding yaml_loop yaml_round is_token_line
update_config_yaml_contents contents token hash =
    let (not_handled, output) = yaml_loop token hash (text_lines contents) (true, []) in
    if not_handled then output ++ section token hash else output
