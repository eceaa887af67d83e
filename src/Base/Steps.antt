-- ===== src/Base/Steps.antt =====
-- Inversion of operations that succeed.
use mathlib.Core.Path.{◌≡◌, refl}
use lazyjack.Base.Text.{Bytes}
use lazyjack.Base.Flow.{Result, ok, err, panic, M, follow, caught, fail}

module _ {S A B : Type 0} where
  pub follow-eq-ok :
      (f : A → M S B) (r : Result A × S) (b : B)
      → (follow f r).0 ≡ ok b
      → (a : A) × (r.0 ≡ ok a) × (follow f r ≡ f a r.1)
  follow-eq-ok f (ok a, s) b h = (a, refl, refl)
  follow-eq-ok f (err e, s) b h = cc
  follow-eq-ok f (panic, s) b h = cc

module _ {S A : Type 0} where
  pub caught-eq-ok :
      (text : Bytes → Bytes) (r : Result A × S) (a : A)
      → (caught (λ e. fail (text e)) r).0 ≡ ok a
      → (r.0 ≡ ok a) × (caught (λ e. fail (text e)) r ≡ r)
  caught-eq-ok text (ok a', s) a h = (h, refl)
  caught-eq-ok text (err e, s) a h = cc
  caught-eq-ok text (panic, s) a h = cc
