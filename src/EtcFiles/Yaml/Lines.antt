-- ===== src/EtcFiles/Yaml/Lines.antt =====
-- The configuration file behind `UpdateConfigYAMLContents`, line by line.
use lazyjack.Base.{
  Bytes, List, [], ◌∷◌, ◌++◌, ◌≡◌, refl, sym, ◌∙◌, ap, Bool, true, false, not, ◌&&◌, inl, inr,
  if◌then◌else◌, Bool-cases, str, has_prefix, trim_left,
}
use lazyjack.Base.Split.{text_lines, unlines, unlines-append}
use lazyjack.EtcFiles.Yaml.{
  is_token_line, general_key, token_line, hash_line, section, yaml_round, yaml_loop,
  update_config_yaml_contents,
}
use mathlib.Core.List.{append_assoc, append-nil}

module _ (token hash : Bytes) where
  abbrev pub credentials : List Bytes
  credentials = token_line token ∷ hash_line hash ∷ []

  -- The lines of the file that is written; the flag is `notHandled`.
  pub yaml_lines : Bool → List Bytes → List Bytes
  yaml_lines not_handled [] = if not_handled then general_key ∷ credentials else []
  yaml_lines not_handled (l ∷ ls) =
      let dropped = yaml_lines not_handled ls in
      let general = (general_key ∷ credentials) ++ yaml_lines false ls in
      let kept = l ∷ yaml_lines not_handled ls in
      if is_token_line l then dropped else if has_prefix general_key l then general else kept

  ended : Bool × Bytes → Bytes
  ended (not_handled, output) = if not_handled then output ++ section token hash else output

  section-lines : section token hash ≡ unlines (general_key ∷ credentials)
  unfolding unlines str
  section-lines = simp append_assoc

  ended-lines :
      (not_handled : Bool) (output : Bytes)
      → ended (not_handled, output) ≡ output ++ unlines (yaml_lines not_handled [])
  unfolding ended yaml_lines
  ended-lines true output = ap (λ s. output ++ s) section-lines
  ended-lines false output = unfold unlines in sym (append-nil output)

  rejoin :
      (output : Bytes) (ls : List Bytes)
      → (output ++ section token hash) ++ unlines ls
        ≡ output ++ unlines ((general_key ∷ credentials) ++ ls)
  rejoin output ls =
      append_assoc output (section token hash) (unlines ls)
      ∙ ap (λ s. output ++ s)
          (ap (λ s. s ++ unlines ls) section-lines
            ∙ sym (unlines-append (general_key ∷ credentials) ls))

  module _ (l : Bytes) (not_handled : Bool) (output : Bytes) where
    round_credentials :
        is_token_line l ≡ true
        → yaml_round token hash l (not_handled, output) ≡ (not_handled, output)
    unfolding yaml_round
    round_credentials e = rw e

    round_general :
        is_token_line l ≡ false
        → has_prefix general_key l ≡ true
        → yaml_round token hash l (not_handled, output) ≡ (false, output ++ section token hash)
    unfolding yaml_round
    round_general e g = rw (e, g)

    round_other :
        is_token_line l ≡ false
        → has_prefix general_key l ≡ false
        → yaml_round token hash l (not_handled, output) ≡ (not_handled, output ++ (l ++ 10 ∷ []))
    unfolding yaml_round str
    round_other e g = rw (e, g)

  yaml_loop-lines :
      (ls : List Bytes) (not_handled : Bool) (output : Bytes)
      → ended (yaml_loop token hash ls (not_handled, output))
        ≡ output ++ unlines (yaml_lines not_handled ls)
  unfolding yaml_loop yaml_lines unlines
  yaml_loop-lines [] not_handled output = ended-lines not_handled output
  yaml_loop-lines (l ∷ ls) not_handled output = elim (Bool-cases (is_token_line l)) [
    | inl e ↦
        rw (round_credentials l not_handled output e, e) (yaml_loop-lines ls not_handled output)
    | inr e ↦ elim (Bool-cases (has_prefix general_key l)) [
      | inl g ↦
          rw (round_general l not_handled output e g, e, g)
            (yaml_loop-lines ls false (output ++ section token hash)
              ∙ rejoin output (yaml_lines false ls))
      | inr g ↦
          rw (round_other l not_handled output e g, e, g)
            (yaml_loop-lines ls not_handled (output ++ (l ++ 10 ∷ [])) ∙ simp append_assoc)
    ]
  ]

  update_config_yaml_contents-lines :
      (contents : Bytes)
      → update_config_yaml_contents contents token hash
        ≡ unlines (yaml_lines true (text_lines contents))
  unfolding update_config_yaml_contents ended
  update_config_yaml_contents-lines contents = yaml_loop-lines (text_lines contents) true []

-- The lines that are no credentials and do not open the section `general`.
abbrev pub is_other : Bytes → Bool
is_other l = not (is_token_line l) && not (has_prefix general_key l)

pub others : List Bytes → List Bytes
others [] = []
others (l ∷ ls) = let rest = others ls in if is_other l then l ∷ rest else rest

-- The lines with credentials.
pub token_lines : List Bytes → List Bytes
token_lines [] = []
token_lines (l ∷ ls) = let rest = token_lines ls in if is_token_line l then l ∷ rest else rest

-- The lines that open the section `general`, and the credentials as often.
pub repeated : List Bytes → Bool → List Bytes → List Bytes
repeated credentials not_handled [] = if not_handled then credentials else []
repeated credentials not_handled (l ∷ ls) =
    let again = credentials ++ repeated credentials false ls in
    let rest = repeated credentials not_handled ls in
    if is_token_line l then rest else if has_prefix general_key l then again else rest

module _ (token hash : Bytes) where
  credentials-others :
      (ls : List Bytes) → others ((general_key ∷ credentials token hash) ++ ls) ≡ others ls
  unfolding others is_token_line str has_prefix trim_left
  credentials-others ls = refl

  others-yaml_lines :
      (not_handled : Bool) (ls : List Bytes)
      → others (yaml_lines token hash not_handled ls) ≡ others ls
  unfolding others yaml_lines
  others-yaml_lines true [] = unfold is_token_line str has_prefix trim_left in refl
  others-yaml_lines false [] = refl
  others-yaml_lines not_handled (l ∷ ls) =
      let a = others-yaml_lines not_handled ls in
      let b = others-yaml_lines false ls in
      elim (Bool-cases (is_token_line l)) [
        | inl e ↦ rw e a
        | inr e ↦ elim (Bool-cases (has_prefix general_key l)) [
          | inl g ↦ rw (e, g) (credentials-others (yaml_lines token hash false ls) ∙ b)
          | inr g ↦ rw (e, g) (rw (e, g) (ap (◌∷◌ l) a))
        ]
      ]

  credentials-token_lines :
      (ls : List Bytes)
      → token_lines ((general_key ∷ credentials token hash) ++ ls)
        ≡ credentials token hash ++ token_lines ls
  unfolding token_lines is_token_line str has_prefix trim_left
  credentials-token_lines ls = refl

  token_lines-yaml_lines :
      (not_handled : Bool) (ls : List Bytes)
      → token_lines (yaml_lines token hash not_handled ls)
        ≡ repeated (credentials token hash) not_handled ls
  unfolding token_lines yaml_lines repeated
  token_lines-yaml_lines true [] = unfold is_token_line str has_prefix trim_left in refl
  token_lines-yaml_lines false [] = refl
  token_lines-yaml_lines not_handled (l ∷ ls) =
      let a = token_lines-yaml_lines not_handled ls in
      let b = token_lines-yaml_lines false ls in
      elim (Bool-cases (is_token_line l)) [
        | inl e ↦ rw e a
        | inr e ↦ elim (Bool-cases (has_prefix general_key l)) [
          | inl g ↦
              rw (e, g)
                (credentials-token_lines (yaml_lines token hash false ls)
                  ∙ ap (λ x. credentials token hash ++ x) b)
          | inr g ↦ rw (e, g) (rw e a)
        ]
      ]

  -- The configuration file that is written keeps all other lines, in their order. Its lines with
  -- credentials are the new token and the new hash, once for each section `general` that the file
  -- had, or once if it had none; and whatever it had of them before is gone.
  pub update_config_yaml_contents_lem :
      (contents : Bytes)
      → let lines = yaml_lines token hash true (text_lines contents) in
        (update_config_yaml_contents contents token hash ≡ unlines lines)
        × (others lines ≡ others (text_lines contents))
        × (token_lines lines ≡ repeated (credentials token hash) true (text_lines contents))
  update_config_yaml_contents_lem contents = (
    update_config_yaml_contents-lines token hash contents,
    others-yaml_lines true (text_lines contents),
    token_lines-yaml_lines true (text_lines contents),
  )
