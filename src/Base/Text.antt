-- ===== src/Base/Text.antt =====
-- Go strings and byte slices as lists of bytes, with the functions of `strings` and `bytes` used.
use Prim.Native.Nat.{ℕ, ◌+◌}
use Prim.Native.Char.{code}
use Prim.Native.String.{String}
use mathlib.Core.Path.{◌≡◌, refl}
use mathlib.Core.Logic.{◌↔◌}
use mathlib.Core.Bool.{Bool, true, false, ◌&&◌, ◌||◌}
use mathlib.Core.List.{List, [], ◌∷◌, map}
use native.Mathlib.Omega.{arith}
use lazyjack.Base.Tests.{ltb, leb, ◌==◌, if◌then◌else◌}

abbrev pub Bytes : Type 0
Bytes = List ℕ

-- The bytes of an ASCII literal.
unfoldable pub str : String → Bytes
str String.[] = []
str (String.◌∷◌ c s) = code c ∷ str s

-- `a == b` on strings.
unfoldable pub eq_str : Bytes → Bytes → Bool
eq_str [] [] = true
eq_str [] (_ ∷ _) = false
eq_str (_ ∷ _) [] = false
eq_str (a ∷ s) (b ∷ t) = a == b && eq_str s t

pub eq_str_iff : (s t : Bytes) → (eq_str s t ≡ true) ↔ (s ≡ t)
unfolding eq_str
eq_str_iff [] [] = ground arith
eq_str_iff [] (_ ∷ _) = ground arith
eq_str_iff (_ ∷ _) [] = ground arith
eq_str_iff (a ∷ s) (b ∷ t) = ground (arith, eq_str_iff s t)

pub eq_str_refl : (s : Bytes) → eq_str s s ≡ true
eq_str_refl s = (eq_str_iff s s).1 refl

-- `a < b` on strings.
unfoldable pub lt_str : Bytes → Bytes → Bool
lt_str [] [] = false
lt_str [] (_ ∷ _) = true
lt_str (_ ∷ _) [] = false
lt_str (a ∷ s) (b ∷ t) = ltb a b || (a == b && lt_str s t)

-- `strings.HasPrefix(s, prefix)`, the prefix first.
unfoldable pub has_prefix : Bytes → Bytes → Bool
has_prefix [] s = true
has_prefix (_ ∷ _) [] = false
has_prefix (a ∷ p) (b ∷ s) = a == b && has_prefix p s

-- `strings.HasSuffix(s, suffix)`, the suffix first.
unfoldable pub has_suffix : Bytes → Bytes → Bool
unfolding eq_str
has_suffix t [] = eq_str t []
has_suffix t (a ∷ s) = eq_str t (a ∷ s) || has_suffix t s

-- `strings.Contains(s, sub)`, the substring first.
unfoldable pub contains : Bytes → Bytes → Bool
unfolding has_prefix
contains p [] = has_prefix p []
contains p (a ∷ s) = has_prefix p (a ∷ s) || contains p s

unfoldable pub drop_prefix : Bytes → Bytes → Bytes
drop_prefix [] s = s
drop_prefix (_ ∷ _) [] = []
drop_prefix (_ ∷ p) (_ ∷ s) = drop_prefix p s

-- `strings.TrimPrefix(s, prefix)`, the prefix first.
unfoldable pub trim_prefix : Bytes → Bytes → Bytes
unfolding has_prefix drop_prefix
trim_prefix p s = if has_prefix p s then drop_prefix p s else s

-- `strings.TrimSuffix(s, suffix)`, the suffix first.
unfoldable pub trim_suffix : Bytes → Bytes → Bytes
unfolding eq_str
trim_suffix t [] = []
trim_suffix t (a ∷ s) = if eq_str t (a ∷ s) then [] else a ∷ trim_suffix t s

-- `strings.TrimLeft` with a test in place of a cutset.
unfoldable pub trim_left : (ℕ → Bool) → Bytes → Bytes
trim_left cut [] = []
trim_left cut (a ∷ s) = if cut a then trim_left cut s else a ∷ s

-- `strings.TrimRight`: a byte stays if it is not in the cutset or something behind it stays.
unfoldable pub trim_right : (ℕ → Bool) → Bytes → Bytes
trim_right cut [] = []
trim_right cut (a ∷ s) = elim (trim_right cut s) [
  | [] ↦ if cut a then [] else a ∷ []
  | b ∷ r ↦ a ∷ b ∷ r
]

abbrev pub trim : (ℕ → Bool) → Bytes → Bytes
trim cut s = trim_right cut (trim_left cut s)

abbrev pub is_newline : ℕ → Bool
is_newline c = c == 10

-- White space of `strings.TrimSpace`, in ASCII.
abbrev pub is_space : ℕ → Bool
is_space c = c == 32 || (leb 9 c && leb c 13)

unfoldable pub to_lower : Bytes → Bytes
to_lower = map λ c. if leb b'A' c && leb c b'Z' then c + 32 else c

-- `strings.EqualFold`, in ASCII.
unfoldable pub equal_fold : Bytes → Bytes → Bool
unfolding to_lower eq_str
equal_fold s t = eq_str (to_lower s) (to_lower t)
