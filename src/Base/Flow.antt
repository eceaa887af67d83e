-- ===== src/Base/Flow.antt =====
-- Results with Go's errors and panics, and operations on a state that may fail.
use mathlib.Core.Bool.{Bool, true, false}
use mathlib.Core.List.{List, [], ◌∷◌, ◌++◌}
use lazyjack.Base.Text.{Bytes}

-- A value, an `error` with its text, or a run-time panic.
pub data Result {ℓ} (A : Type ℓ) : Type ℓ where
  ok : A → Result A
  err : Bytes → Result A
  panic : Result A

-- The value of a function that returns an `error` alone.
abbrev pub Done : Type 0
Done = Unit {0}

-- An operation on a mutable state. The state is kept when the operation fails.
abbrev pub M : Type 0 → Type 0 → Type 0
M S A = S → Result A × S

module _ {S A B : Type 0} where
  abbrev pub follow : (A → M S B) → Result A × S → Result B × S
  follow f (ok a, s) = f a s
  follow f (err e, s) = (err e, s)
  follow f (panic, s) = (panic, s)

infixl 5 ◌>>=◌ ◌>>◌
abbrev pub ◌>>=◌ : {S A B : Type 0} → M S A → (A → M S B) → M S B
◌>>=◌ m f s = follow f (m s)

abbrev pub ◌>>◌ : {S B : Type 0} → M S Done → M S B → M S B
m >> k = m >>= λ _. k

module _ {S A : Type 0} where
  abbrev pub pure : A → M S A
  pure a s = (ok a, s)

  abbrev pub fail : Bytes → M S A
  fail e s = (err e, s)

  abbrev pub crash : M S A
  crash s = (panic, s)

  abbrev pub lift : Result A → M S A
  lift r s = (r, s)

  -- `err != nil` handled in place: the handler gets the text.
  abbrev pub caught : (Bytes → M S A) → Result A × S → Result A × S
  caught h (ok a, s) = (ok a, s)
  caught h (err e, s) = h e s
  caught h (panic, s) = (panic, s)

  abbrev pub recover : M S A → (Bytes → M S A) → M S A
  recover m h s = caught h (m s)

  -- `fmt.Errorf` around an error.
  abbrev pub wrap : M S A → (Bytes → Bytes) → M S A
  wrap m text = recover m λ e. fail (text e)

abbrev pub when : {S : Type 0} → Bool → M S Done → M S Done
when true m = m
when false m = pure tt

-- An error whose text begins so is passed over.
abbrev pub tolerate : {S : Type 0} → (Bytes → Bool) → M S Done → M S Done
tolerate skips m = recover m λ e. elim (skips e) [ true ↦ pure tt | false ↦ fail e ]

abbrev pub get : {S : Type 0} → M S S
get s = (ok s, s)

abbrev pub modify : {S : Type 0} → (S → S) → M S Done
modify f s = (ok tt, f s)

-- The error text that an operation leaves, for code that collects errors and goes on.
module _ {S : Type 0} where
  abbrev pub kept : List Bytes → Result Done × S → Result (List Bytes) × S
  kept all (ok _, s) = (ok all, s)
  kept all (err e, s) = (ok (all ++ e ∷ []), s)
  kept all (panic, s) = (panic, s)

  abbrev pub collect : List Bytes → M S Done → M S (List Bytes)
  collect all m s = kept all (m s)

-- An operation on a part of the state.
abbrev pub zoom : {S T A : Type 0} → (S → T) → (T → S → S) → M T A → M S A
zoom read write m s = let (r, t) = m (read s) in (r, write t s)
