-- ===== src/Base/Number.antt =====
-- Go's `int`, and the verbs `%d`, `%x` and `%q` of `fmt`.
use Prim.Native.Nat.{ℕ, zero, suc, ◌+◌, ◌-◌, ◌*◌, ◌/◌, ◌%◌, ◌^◌}
use mathlib.Core.Bool.{Bool, true, false, ◌||◌}
use mathlib.Core.List.{[], ◌∷◌, ◌++◌, flat_map}
use lazyjack.Base.Tests.{ltb, ◌==◌, if◌then◌else◌}
use lazyjack.Base.Text.{Bytes}

-- `negsuc n` is -(n + 1).
pub data ℤ : Type 0 where
  pos : ℕ → ℤ
  negsuc : ℕ → ℤ

abbrev pub eq_int : ℤ → ℤ → Bool
eq_int (pos a) (pos b) = a == b
eq_int (pos a) (negsuc b) = false
eq_int (negsuc a) (pos b) = false
eq_int (negsuc a) (negsuc b) = a == b

-- `a < b` where `b` is a non-negative constant.
abbrev pub lt_nat : ℤ → ℕ → Bool
lt_nat (pos a) b = ltb a b
lt_nat (negsuc a) b = true

-- The `int` of 64 bits with this residue.
abbrev pub signed : ℕ → ℤ
signed m = if ltb m (2 ^ 63) then pos m else negsuc (2 ^ 64 - m - 1)

-- `n * k` for a constant `k`, with the wrap-around of 64 bits.
abbrev pub mul_int : ℤ → ℕ → ℤ
mul_int (pos a) k = signed ((a * k) % 2 ^ 64)
mul_int (negsuc a) k = signed ((2 ^ 64 - (suc a * k) % 2 ^ 64) % 2 ^ 64)

unfoldable pub digit : ℕ → ℕ
digit d = if ltb d 10 then b'0' + d else b'a' + (d - 10)

-- The digits of `n` in a base, before what is given. On fuel; 64 digits suffice below 2 ^ 64.
unfoldable pub digits : ℕ → ℕ → ℕ → Bytes → Bytes
unfolding digit
digits base zero n out = out
digits base (suc f) n out =
    let rest = digits base f (n / base) (digit (n % base) ∷ out) in
    if ltb n base then digit n ∷ out else rest

unfoldable pub show_nat : ℕ → Bytes
unfolding digits
show_nat n = digits 10 64 n []

unfoldable pub show_hex_nat : ℕ → Bytes
unfolding digits
show_hex_nat n = digits 16 64 n []

-- `%d` and `%x`.
unfoldable pub show_int : ℤ → Bytes
unfolding show_nat
show_int (pos n) = show_nat n
show_int (negsuc n) = b'-' ∷ show_nat (suc n)

unfoldable pub show_hex : ℤ → Bytes
unfolding show_hex_nat
show_hex (pos n) = show_hex_nat n
show_hex (negsuc n) = b'-' ∷ show_hex_nat (suc n)

-- One byte under `%q`. A byte of 0x80 or more is kept, as in a printable UTF-8 text.
quote_byte : ℕ → Bytes
unfolding digit
quote_byte c =
    if c == b'"' || c == b'\\'
    then b'\\' ∷ c ∷ []
    else if c == 7
    then b'\\' ∷ b'a' ∷ []
    else if c == 8
    then b'\\' ∷ b'b' ∷ []
    else if c == 12
    then b'\\' ∷ b'f' ∷ []
    else if c == 10
    then b'\\' ∷ b'n' ∷ []
    else if c == 13
    then b'\\' ∷ b'r' ∷ []
    else if c == 9
    then b'\\' ∷ b't' ∷ []
    else if c == 11
    then b'\\' ∷ b'v' ∷ []
    else if ltb c 32 || c == 127
    then b'\\' ∷ b'x' ∷ digit (c / 16) ∷ digit (c % 16) ∷ []
    else c ∷ []

-- `%q`.
unfoldable pub quote : Bytes → Bytes
unfolding quote_byte flat_map
quote s = (b'"' ∷ flat_map quote_byte s) ++ b'"' ∷ []
