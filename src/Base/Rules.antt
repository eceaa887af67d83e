-- ===== src/Base/Rules.antt =====
-- What an operation leaves alone, and what holds behind one that succeeds: rules for `search`.
use mathlib.Core.Path.{◌≡◌, refl, ◌∙◌, ap, subst, sym}
use mathlib.Core.Bool.{Bool, true, false}
use lazyjack.Base.Tests.{if◌then◌else◌}
use lazyjack.Base.Text.{Bytes}
use lazyjack.Base.Flow.{
  Result, ok, err, panic, Done, M, follow, ◌>>=◌, ◌>>◌, pure, fail, lift, caught, recover, wrap,
  tolerate, get, when, zoom,
}

-- The operation leaves a part of the state as it was, whatever its result is.
pub record Keeps {S A X : Type 0} (f : S → X) (m : M S A) : Type 0 where
  pub kept_part : (s : S) → f (m s).1 ≡ f s

module _ {S : Type 0} where
  caught-state :
      {A : Type 0} (text : Bytes → Bytes) (r : Result A × S)
      → (caught (λ e. fail (text e)) r).1 ≡ r.1
  caught-state text (ok a, s) = refl
  caught-state text (err e, s) = refl
  caught-state text (panic, s) = refl

module _ {S X : Type 0} {f : S → X} where
  follow-kept :
      {A B : Type 0} (g : A → M S B) (r : Result A × S)
      → ((a : A) → Keeps f (g a))
      → f (follow g r).1 ≡ f r.1
  follow-kept g (ok a, s) h = (h a).kept_part s
  follow-kept g (err e, s) h = refl
  follow-kept g (panic, s) h = refl

  pub Keeps->>= :
      {A B : Type 0} {m : M S A} {g : A → M S B}
      → Keeps f m
      → ((a : A) → Keeps f (g a))
      → Keeps f (m >>= g)
  Keeps->>= {m} {g} h k = record { kept_part = λ s. follow-kept g (m s) k ∙ h.kept_part s }

  pub Keeps-wrap :
      {A : Type 0} {m : M S A} (text : Bytes → Bytes) → Keeps f m → Keeps f (wrap m text)
  Keeps-wrap {m} text h = record { kept_part = λ s. ap f (caught-state text (m s)) ∙ h.kept_part s }

  caught_kept :
      {A : Type 0} (k : Bytes → M S A) (r : Result A × S)
      → ((e : Bytes) → Keeps f (k e))
      → f (caught k r).1 ≡ f r.1
  caught_kept k (ok a, s) h = refl
  caught_kept k (err e, s) h = (h e).kept_part s
  caught_kept k (panic, s) h = refl

  pub Keeps-recover :
      {A : Type 0} {m : M S A} {k : Bytes → M S A}
      → Keeps f m
      → ((e : Bytes) → Keeps f (k e))
      → Keeps f (recover m k)
  Keeps-recover {m} {k} h g = record { kept_part = λ s. caught_kept k (m s) g ∙ h.kept_part s }

  pub Keeps-tolerate :
      {m : M S Done} (skips : Bytes → Bool) → Keeps f m → Keeps f (tolerate skips m)
  Keeps-tolerate skips h = Keeps-recover h λ e. by_skip (skips e) e
    where
      by_skip :
          (b : Bool) (e : Bytes)
          → Keeps f (elim b as (λ _. M S Done) [ true ↦ pure tt | false ↦ fail e ])
      by_skip true e = record { kept_part = λ s. refl }
      by_skip false e = record { kept_part = λ s. refl }

  pub Keeps-when : {m : M S Done} (b : Bool) → Keeps f m → Keeps f (when b m)
  Keeps-when true h = h
  Keeps-when false h = record { kept_part = λ s. refl }

  pub Keeps-if :
      {A : Type 0} {m k : M S A} (b : Bool) → Keeps f m → Keeps f k → Keeps f (if b then m else k)
  Keeps-if true h k = h
  Keeps-if false h k = k

  pub Keeps-get : Keeps f get
  Keeps-get = record { kept_part = λ s. refl }

  pub Keeps-pure : {A : Type 0} {a : A} → Keeps f (pure a)
  Keeps-pure = record { kept_part = λ s. refl }

  pub Keeps-lift : {A : Type 0} {r : Result A} → Keeps f (lift r)
  Keeps-lift = record { kept_part = λ s. refl }

  pub Keeps-fail : {A : Type 0} {e : Bytes} → Keeps f (fail {A = A} e)
  Keeps-fail = record { kept_part = λ s. refl }

  pub Keeps-zoom :
      {A T : Type 0} (read : S → T) (write : T → S → S) (m : M T A)
      → ((t : T) (s : S) → f (write t s) ≡ f s)
      → Keeps f (zoom read write m)
  Keeps-zoom read write m h = record { kept_part = λ s. h (m (read s)).1 s }

-- From a state with `P`, the operation that succeeds leads to one with `Q`.
pub record Ensures {S : Type 0} (m : M S Done) (P Q : S → Type 0) : Type 0 where
  pub ensured : (s : S) → P s → (m s).0 ≡ ok tt → Q (m s).1

module _ {S : Type 0} where
  caught-ensured :
      (Q : S → Type 0) (text : Bytes → Bytes) (r : Result Done × S)
      → (r.0 ≡ ok tt → Q r.1)
      → (caught (λ e. fail (text e)) r).0 ≡ ok tt
      → Q (caught (λ e. fail (text e)) r).1
  caught-ensured Q text (ok _, s) q e = q refl
  caught-ensured Q text (err x, s) q e = cc
  caught-ensured Q text (panic, s) q e = cc

module _ {S : Type 0} {Q : S → Type 0} where
  pub Ensures-wrap :
      {P : S → Type 0} {m : M S Done} (text : Bytes → Bytes)
      → Ensures m P Q
      → Ensures (wrap m text) P Q
  Ensures-wrap {P} {m} text h = record {
    ensured = λ s p e. caught-ensured Q text (m s) (h.ensured s p) e;
  }

module _ {S : Type 0} {Q R : S → Type 0} where
  follow-ensured :
      (k : Done → M S Done) (r : Result Done × S)
      → (r.0 ≡ ok tt → Q r.1)
      → Ensures (k tt) Q R
      → (follow k r).0 ≡ ok tt
      → R (follow k r).1
  follow-ensured k (ok _, s) q h e = h.ensured s (q refl) e
  follow-ensured k (err x, s) q h e = cc
  follow-ensured k (panic, s) q h e = cc

  pub Ensures->> :
      {P : S → Type 0} {m : M S Done} {k : M S Done}
      → Ensures m P Q
      → Ensures k Q R
      → Ensures (m >> k) P R
  Ensures->> {m} {k} h g = record {
    ensured = λ s p e. follow-ensured (λ _. k) (m s) (h.ensured s p) g e;
  }

module _ {S : Type 0} {m : M S Done} where
  -- What depends on a kept part alone holds on, and what success gives is added to it.
  pub Ensures-add :
      {X : Type 0} {f : S → X} (P : X → Type 0) (Q : S → Type 0)
      → Keeps f m
      → ((s : S) → (m s).0 ≡ ok tt → Q (m s).1)
      → Ensures m (λ s. P (f s)) (λ s. P (f s) × Q s)
  Ensures-add P Q k h = record { ensured = λ s p e. (subst P (sym (k.kept_part s)) p, h s e) }

  pub Ensures-keep :
      {X : Type 0} {f : S → X} (P : X → Type 0)
      → Keeps f m
      → Ensures m (λ s. P (f s)) (λ s. P (f s))
  Ensures-keep P k = record { ensured = λ s p e. subst P (sym (k.kept_part s)) p }
