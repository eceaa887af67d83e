-- ===== src/Validate/Version.antt =====
-- `ParseVersion`: the regular expression `v([0-9]+.[0-9]+)\.[0-9]+.*`, matched as by
-- backtracking: the leftmost match, each repetition as long as possible.
use lazyjack.Base.{
  ℕ, Bytes, [], ◌∷◌, ◌++◌, Bool, false, ◌&&◌, Option, none, some, if◌then◌else◌, ◌==◌, leb, true,
  str, quote, Result, ok, err,
}
use lazyjack.Validate.Token.{is_digit}

abbrev pub or_else : Option Bytes → Option Bytes → Option Bytes
or_else none b = b
or_else (some a) b = some a

-- What the rest of the expression makes of the text matched so far and of the text behind it.
abbrev pub Rest : Type 0
Rest = Bytes → Bytes → Option Bytes

-- `[0-9]+`
unfoldable pub digits_then : Rest → Rest
digits_then k done [] = none
digits_then k done (c ∷ s) =
    if is_digit c then or_else (digits_then k (done ++ c ∷ []) s) (k (done ++ c ∷ []) s) else none

-- A byte of UTF-8 behind the first one of a character.
is_continuation : ℕ → Bool
is_continuation c = leb 0x80 c && leb c 0xbf

-- The bounds of the second byte, by the first one: no overlong form, no surrogate, none above the
-- last character.
is_second : ℕ → ℕ → Bool
unfolding is_continuation
is_second c d =
    is_continuation d
    && (if c == 0xe0
        then leb 0xa0 d
        else if c == 0xed
        then leb d 0x9f
        else if c == 0xf0
        then leb 0x90 d
        else if c == 0xf4
        then leb d 0x8f
        else true)

-- The bytes of the character that a text begins with, as `utf8.DecodeRune` reads it, and the rest.
-- A byte that begins no valid character counts as one.
rune_of : ℕ → Bytes → Bytes × Bytes
unfolding is_second
rune_of c (d ∷ e ∷ f ∷ s) =
    if leb 0xc2 c && leb c 0xdf && is_second c d
    then (c ∷ d ∷ [], e ∷ f ∷ s)
    else if leb 0xe0 c && leb c 0xef && is_second c d && is_continuation e
    then (c ∷ d ∷ e ∷ [], f ∷ s)
    else if leb 0xf0 c && leb c 0xf4 && is_second c d && is_continuation e && is_continuation f
    then (c ∷ d ∷ e ∷ f ∷ [], s)
    else (c ∷ [], d ∷ e ∷ f ∷ s)
rune_of c (d ∷ e ∷ []) =
    if leb 0xc2 c && leb c 0xdf && is_second c d
    then (c ∷ d ∷ [], e ∷ [])
    else if leb 0xe0 c && leb c 0xef && is_second c d && is_continuation e
    then (c ∷ d ∷ e ∷ [], [])
    else (c ∷ [], d ∷ e ∷ [])
rune_of c (d ∷ []) =
    if leb 0xc2 c && leb c 0xdf && is_second c d then (c ∷ d ∷ [], []) else (c ∷ [], d ∷ [])
rune_of c [] = (c ∷ [], [])

-- `.`: any character but a newline.
any_then : Rest → Rest
unfolding rune_of
any_then k done [] = none
any_then k done (c ∷ s) =
    let (rune, rest) = rune_of c s in if c == 10 then none else k (done ++ rune) rest

starts_digit : Bytes → Bool
starts_digit [] = false
starts_digit (c ∷ _) = is_digit c

-- `\.[0-9]+.*` behind the group.
patch : Rest
patch done [] = none
patch done (c ∷ s) = if c == b'.' && starts_digit s then some done else none

-- The expression behind its `v`.
version_at : Bytes → Option Bytes
unfolding digits_then any_then patch starts_digit
version_at = digits_then (any_then (digits_then patch)) []

find_version : Bytes → Option Bytes
unfolding version_at
find_version [] = none
find_version (c ∷ s) = or_else (if c == b'v' then version_at s else none) (find_version s)

unfoldable pub parse_version : Bytes → Result Bytes
unfolding find_version
parse_version version = elim (find_version version) [
  | none ↦ err (str "Unable to parse Kubeadm version from " ++ quote version)
  | some v ↦ ok v
]
