-- ===== src/Validate/Token.antt =====
-- `ValidateToken` and `ValidateTokenCertHash`. A regular expression is a function that matches it.
pub mod Shape
use lazyjack.Base.{
  ℕ, zero, suc, Bytes, List, [], ◌∷◌, ◌++◌, Bool, true, false, not, ◌&&◌, ◌||◌, Option, none, some,
  if◌then◌else◌, ◌==◌, leb, str, quote, show_nat, Result, ok, err, Done,
}
use lazyjack.Base.Affix.{size}

abbrev pub is_digit : ℕ → Bool
is_digit c = leb b'0' c && leb c b'9'

-- `[a-z0-9]` and `[a-fA-F0-9]`
abbrev pub is_token_char : ℕ → Bool
is_token_char c = (leb b'a' c && leb c b'z') || is_digit c

abbrev pub is_hex_char : ℕ → Bool
is_hex_char c = (leb b'a' c && leb c b'f') || (leb b'A' c && leb c b'F') || is_digit c

-- `^[class]{n}`, with the text behind the match.
unfoldable pub match_times : (ℕ → Bool) → ℕ → Bytes → Option Bytes
match_times class zero s = some s
match_times class (suc n) [] = none
match_times class (suc n) (c ∷ s) = if class c then match_times class n s else none

-- `$`
ends : Option Bytes → Bool
ends none = false
ends (some []) = true
ends (some (_ ∷ _)) = false

after_dot : Option Bytes → Bool
unfolding match_times ends
after_dot none = false
after_dot (some []) = false
after_dot (some (c ∷ s)) = c == b'.' && ends (match_times is_token_char 16 s)

-- `^[a-z0-9]{6}\.[a-z0-9]{16}$`
token_matches : Bytes → Bool
unfolding after_dot match_times
token_matches s = after_dot (match_times is_token_char 6 s)

-- `^[a-fA-F0-9]{64}$`
hash_matches : Bytes → Bool
unfolding match_times ends
hash_matches s = ends (match_times is_hex_char 64 s)

unfoldable pub validate_token : Bytes → Bool → Result Done
unfolding token_matches
validate_token [] true = ok tt
validate_token [] false = err (str "missing token in config file")
validate_token (b ∷ token) ignore_missing =
    let all = b ∷ token in
    if not (size all == 23)
    then err (str "invalid token length (" ++ show_nat (size all) ++ str ")")
    else if token_matches all
    then ok tt
    else err (str "token is invalid " ++ quote all)

unfoldable pub validate_token_cert_hash : Bytes → Bool → Result Done
unfolding hash_matches
validate_token_cert_hash [] true = ok tt
validate_token_cert_hash [] false = err (str "missing token certificate hash in config file")
validate_token_cert_hash (b ∷ hash) ignore_missing =
    let all = b ∷ hash in
    if not (size all == 64)
    then err (str "invalid token certificate hash length (" ++ show_nat (size all) ++ str ")")
    else if not (hash_matches all)
    then err (str "token certificate hash is invalid " ++ quote all)
    else ok tt
