-- ===== src/Base/Digits.antt =====
-- The verbs `%d` and `%x` read back: the fuel is enough for 64 bits, and no two numbers print alike.
use Prim.Native.Nat.{ℕ, zero, suc, ◌+◌, ◌-◌, ◌*◌, ◌/◌, ◌%◌, ◌^◌, ◌≤◌, ◌<◌}
use native.Mathlib.Omega.{arith}
use native.Mathlib.Numerals.{unary_clauses}
use native.Mathlib.Decide.{dec_lt}
use mathlib.Core.Path.{◌≡◌, refl, sym, ◌∙◌, ap, subst}
use mathlib.Core.Logic.{◌≢◌, inl, inr}
use mathlib.Core.Bool.{Bool, true, false}
use mathlib.Core.List.{[], ◌∷◌, ◌++◌}
use lazyjack.Base.Tests.{ltb, if◌then◌else◌, Bool-cases, All}
use lazyjack.Base.Text.{Bytes, str}
use lazyjack.Base.Number.{ℤ, pos, negsuc, digit, digits, show_int, show_hex}

-- The number of a digit, and of the digits behind others that stand for `n`.
undigit : ℕ → ℕ
undigit c = if ltb c 97 then c - 48 else c - 97 + 10

value : ℕ → ℕ → Bytes → ℕ
value base n [] = n
value base n (c ∷ s) = value base (n * base + undigit c) s

undigit-digit : (d : ℕ) → d < 16 → undigit (digit d) ≡ d
unfolding undigit digit
undigit-digit d h = ground arith

digit_behind_minus : (d : ℕ) → 45 < digit d
unfolding digit
digit_behind_minus d = ground arith

tail : Bytes → Bytes → Bytes
tail none_left [] = none_left
tail none_left (c ∷ s) = s

-- An `int` of 64 bits.
abbrev pub IsInt : ℤ → Type 0
IsInt (pos n) = n < 2 ^ 63
IsInt (negsuc n) = n < 2 ^ 63

doubled : (n f : ℕ) → n < 2 * 2 ^ suc f → n < 2 * (2 * 2 ^ f)
doubled n f h = let k : n < 2 * (2 ^ f * 2) = simp unary_clauses at h in omega arith

-- What the proof needs of a base.
record IsBase (base : ℕ) : Type 0 where
  two : 2 ≤ base
  small : base ≤ 16
  rejoins : (n : ℕ) → n / base * base + n % base ≡ n
  remains : (n : ℕ) → n % base < base
  halves : (n p : ℕ) → n < 2 * p → n / base < p

module _ (base : ℕ) (b : IsBase base) where
  digits-small : (f n : ℕ) (out : Bytes) → n < base → digits base (suc f) n out ≡ digit n ∷ out
  unfolding digits
  digits-small f n out h = let e : ltb n base ≡ true = ground arith in rw e

  digits-large :
      (f n : ℕ) (out : Bytes)
      → base ≤ n
      → digits base (suc f) n out ≡ digits base f (n / base) (digit (n % base) ∷ out)
  unfolding digits
  digits-large f n out h = let e : ltb n base ≡ false = ground arith in rw e

  value-digit :
      (n d : ℕ) (out : Bytes)
      → d < base
      → value base n (digit d ∷ out) ≡ value base (n * base + d) out
  unfolding value
  value-digit n d out h =
      ap (λ k. value base (n * base + k) out) (undigit-digit d (omega (arith, b.small)))

  value-last : (n : ℕ) (out : Bytes) → n < base → value base 0 (digit n ∷ out) ≡ value base n out
  value-last n out h = value-digit 0 n out h ∙ ap (λ k. value base k out) (zero_times base n)
    where
      zero_times : (k m : ℕ) → 0 * k + m ≡ m
      zero_times k m = omega arith

  -- Fuel of `f + 1` is enough below 2 ^ (f + 1).
  value-digits :
      (f n : ℕ) (out : Bytes)
      → n < 2 * 2 ^ f
      → value base 0 (digits base (suc f) n out) ≡ value base n out
  value-digits zero n out h =
      ap (value base 0) (digits-small 0 n out (omega (arith, b.two)))
      ∙ value-last n out (omega (arith, b.two))
  value-digits (suc f) n out h = elim (dec_lt n base) [
    | yes l ↦ ap (value base 0) (digits-small (suc f) n out l) ∙ value-last n out l
    | no l ↦
        ap (value base 0) (digits-large (suc f) n out (omega arith))
        ∙ value-digits f (n / base) (digit (n % base) ∷ out)
            (b.halves n (2 * 2 ^ f) (doubled n f h))
        ∙ value-digit (n / base) (n % base) out (b.remains n)
        ∙ ap (λ k. value base k out) (b.rejoins n)
  ]

  digits-injective :
      (n m : ℕ) → n < 2 ^ 64 → m < 2 ^ 64 → digits base 64 n [] ≡ digits base 64 m [] → n ≡ m
  unfolding value
  digits-injective n m h k e =
      sym (value-digits 63 n [] h) ∙ ap (value base 0) e ∙ value-digits 63 m [] k

  -- Every digit stands behind the minus sign among the bytes.
  digits_behind_minus :
      (f n : ℕ) (out : Bytes) → All (λ c. 45 < c) out → All (λ c. 45 < c) (digits base f n out)
  unfolding digits
  digits_behind_minus zero n out h = h
  digits_behind_minus (suc f) n out h = elim (Bool-cases (ltb n base)) [
    | inl e ↦ rw e (digit_behind_minus n, h)
    | inr e ↦ rw e (
        digits_behind_minus f (n / base) (digit (n % base) ∷ out)
          (digit_behind_minus (n % base), h))
  ]

  digits-ne-minus : (f n : ℕ) (s : Bytes) → digits base f n [] ≢ 45 ∷ s
  digits-ne-minus f n s e =
      let all = subst (All (λ c. 45 < c)) e (digits_behind_minus f n [] tt) in
      absurd (omega (arith, all.0))

  -- A verb with this base.
  signed_digits : ℤ → Bytes
  signed_digits (pos n) = digits base 64 n []
  signed_digits (negsuc n) = 45 ∷ digits base 64 (suc n) []

  signed_digits-injective :
      (a b : ℤ) → IsInt a → IsInt b → signed_digits a ≡ signed_digits b → a ≡ b
  unfolding signed_digits tail
  signed_digits-injective (pos n) (pos m) h k e =
      ap pos (digits-injective n m (omega arith) (omega arith) e)
  signed_digits-injective (pos n) (negsuc m) h k e = absurd (digits-ne-minus 64 n _ e)
  signed_digits-injective (negsuc n) (pos m) h k e = absurd (digits-ne-minus 64 m _ (sym e))
  signed_digits-injective (negsuc n) (negsuc m) h k e =
      ap negsuc (
        pred_eq n m (digits-injective (suc n) (suc m) (omega arith) (omega arith) (ap (tail []) e)))
    where
      pred_eq : (n m : ℕ) → suc n ≡ suc m → n ≡ m
      pred_eq n m e = omega arith

ten : IsBase 10
ten = record {
  two = omega arith;
  small = omega arith;
  rejoins = λ n. omega arith;
  remains = λ n. omega arith;
  halves = λ n p h. omega arith;
}

sixteen : IsBase 16
sixteen = record {
  two = omega arith;
  small = omega arith;
  rejoins = λ n. omega arith;
  remains = λ n. omega arith;
  halves = λ n p h. omega arith;
}

show_int-signed_digits : (a : ℤ) → show_int a ≡ signed_digits 10 ten a
unfolding show_int signed_digits
show_int-signed_digits (pos n) = refl
show_int-signed_digits (negsuc n) = refl

show_hex-signed_digits : (a : ℤ) → show_hex a ≡ signed_digits 16 sixteen a
unfolding show_hex signed_digits
show_hex-signed_digits (pos n) = refl
show_hex-signed_digits (negsuc n) = refl

-- No two numbers of 64 bits print alike.
pub show_int-injective : (a b : ℤ) → IsInt a → IsInt b → show_int a ≡ show_int b → a ≡ b
show_int-injective a b h k e =
    signed_digits-injective 10 ten a b h k
      (sym (show_int-signed_digits a) ∙ e ∙ show_int-signed_digits b)

pub show_hex-injective : (a b : ℤ) → IsInt a → IsInt b → show_hex a ≡ show_hex b → a ≡ b
show_hex-injective a b h k e =
    signed_digits-injective 16 sixteen a b h k
      (sym (show_hex-signed_digits a) ∙ e ∙ show_hex-signed_digits b)

-- The same of numbers printed by `%x` where a zero may stand in front.
abbrev pub padded : Bool → ℕ → Bytes
padded zero_first n = if zero_first then str "0" ++ show_hex (pos n) else show_hex (pos n)

value-padded : (zero_first : Bool) (n : ℕ) → n < 2 ^ 64 → value 16 0 (padded zero_first n) ≡ n
unfolding value undigit show_hex str
value-padded true n h = value-digits 16 sixteen 63 n [] h
value-padded false n h = value-digits 16 sixteen 63 n [] h

pub padded-injective :
    (b c : Bool) (n m : ℕ) → n < 2 ^ 64 → m < 2 ^ 64 → padded b n ≡ padded c m → n ≡ m
padded-injective b c n m h k e = sym (value-padded b n h) ∙ ap (value 16 0) e ∙ value-padded c m k
