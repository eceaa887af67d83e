-- ===== src/Base/Affix.antt =====
-- Prefixes and suffixes of a text that is put together.
use Prim.Native.Nat.{ℕ, suc, ◌+◌, ◌≤◌}
use lazyjack.Base.Text.{Bytes, eq_str, eq_str_iff, eq_str_refl, has_prefix, has_suffix, contains}
use lazyjack.Base.Text.{drop_prefix, trim_prefix}
use lazyjack.Base.Tests.{Bool-cases}
use mathlib.Core.Path.{◌≡◌, refl, ap, sym}
use mathlib.Core.Logic.{inl, inr}
use mathlib.Core.Bool.{true, false}
use mathlib.Core.List.{[], ◌∷◌, ◌++◌}
use native.Mathlib.Omega.{arith}

abbrev pub size : Bytes → ℕ
size [] = 0
size (_ ∷ s) = suc (size s)

pub size-append : (s t : Bytes) → size (s ++ t) ≡ size s + size t
size-append [] t = omega arith
size-append (c ∷ s) t = omega (arith, size-append s t)

pub has_prefix-append : (p s : Bytes) → has_prefix p (p ++ s) ≡ true
unfolding has_prefix
has_prefix-append [] s = refl
has_prefix-append (c ∷ p) s = ground (arith, has_prefix-append p s)

drop_prefix-append : (p s : Bytes) → drop_prefix p (p ++ s) ≡ s
unfolding drop_prefix
drop_prefix-append [] s = refl
drop_prefix-append (c ∷ p) s = drop_prefix-append p s

pub trim_prefix-append : (p s : Bytes) → trim_prefix p (p ++ s) ≡ s
unfolding trim_prefix
trim_prefix-append p s = rw (has_prefix-append p s) (drop_prefix-append p s)

pub trim_prefix-none : (p s : Bytes) → has_prefix p s ≡ false → trim_prefix p s ≡ s
unfolding trim_prefix
trim_prefix-none p s h = rw h

eq_str-size : (s t : Bytes) → eq_str s t ≡ true → size s ≡ size t
eq_str-size s t h = ap size ((eq_str_iff s t).0 h)

pub has_suffix-append : (t s : Bytes) → has_suffix t (s ++ t) ≡ true
unfolding has_suffix
has_suffix-append [] [] = refl
has_suffix-append (c ∷ t) [] = ground (arith, eq_str_refl (c ∷ t))
has_suffix-append t (c ∷ s) = ground (arith, has_suffix-append t s)

-- A text with a suffix is something before that suffix, and the suffix.
pub has_suffix-split : (t s : Bytes) → has_suffix t s ≡ true → (a : Bytes) × (s ≡ a ++ t)
unfolding has_suffix
has_suffix-split t [] h = ([], sym ((eq_str_iff t []).0 h))
has_suffix-split t (c ∷ s) h = elim (Bool-cases (eq_str t (c ∷ s))) [
  | inl e ↦ ([], sym ((eq_str_iff t (c ∷ s)).0 e))
  | inr e ↦ let (a, q) = has_suffix-split t s (rw e at h) in (c ∷ a, ap (◌∷◌ c) q)
]

-- What precedes a text of the suffix's size or more does not matter.
pub has_suffix_behind : (t p s : Bytes) → size t ≤ size s → has_suffix t (p ++ s) ≡ has_suffix t s
unfolding has_suffix
has_suffix_behind t [] s h = refl
has_suffix_behind t (c ∷ p) s h =
    ground (arith, has_suffix_behind t p s h, eq_str-size t (c ∷ p ++ s), size-append p s)

pub contains_prefix : (p s : Bytes) → has_prefix p s ≡ true → contains p s ≡ true
unfolding contains
contains_prefix p [] h = h
contains_prefix p (c ∷ s) h = ground arith

pub contains-append : (p a b : Bytes) → contains p (a ++ p ++ b) ≡ true
unfolding contains
contains-append p [] b = contains_prefix p (p ++ b) (has_prefix-append p b)
contains-append p (c ∷ a) b = ground (arith, contains-append p a b)

pub contains_behind : (p a s : Bytes) → contains p s ≡ true → contains p (a ++ s) ≡ true
unfolding contains
contains_behind p [] s h = h
contains_behind p (c ∷ a) s h = ground (arith, contains_behind p a s)
