-- ===== src/Base/Skip.antt =====
-- Errors that are passed over, and what holds behind the operation that passes them over.
use mathlib.Core.Path.{◌≡◌, refl, subst}
use mathlib.Core.Bool.{Bool, true, false}
use mathlib.Core.Logic.{inl, inr}
use lazyjack.Base.Tests.{Bool-cases}
use lazyjack.Base.Text.{Bytes}
use lazyjack.Base.Flow.{
  Result, ok, err, panic, Done, M, follow, ◌>>=◌, pure, fail, caught, wrap, tolerate,
}

module _ {S : Type 0} (skips : Bytes → Bool) where
  -- The result is an error that is not passed over, or the state has `P`.
  abbrev pub Settled : (S → Type 0) → Result Done × S → Type 0
  Settled P (ok _, s) = P s
  Settled P (err e, s) = skips e ≡ true → P s
  Settled P (panic, s) = Unit

  -- No error of the operation is passed over.
  pub record Stops {A : Type 0} (m : M S A) : Type 0 where
    pub stopped : (s : S) (e : Bytes) → (m s).0 ≡ err e → skips e ≡ false

  caught_stops :
      {A : Type 0} (text : Bytes → Bytes) (r : Result A × S) (e : Bytes)
      → ((x : Bytes) → skips (text x) ≡ false)
      → (caught (λ x. fail (text x)) r).0 ≡ err e
      → skips e ≡ false
  caught_stops text (ok a, s) e h q = cc
  caught_stops text (err x, s) e h q = cc (h x)
  caught_stops text (panic, s) e h q = cc

  pub Stops-wrap :
      {A : Type 0} (m : M S A) (text : Bytes → Bytes)
      → ((x : Bytes) → skips (text x) ≡ false)
      → Stops (wrap m text)
  Stops-wrap m text h = record { stopped = λ s e. caught_stops text (m s) e h }

  follow-Stops :
      {A B : Type 0} (k : A → M S B) (r : Result A × S)
      → ((e : Bytes) → r.0 ≡ err e → skips e ≡ false)
      → ((a : A) → Stops (k a))
      → (e : Bytes) → (follow k r).0 ≡ err e
      → skips e ≡ false
  follow-Stops k (ok a, s) h g e q = (g a).stopped s e q
  follow-Stops k (err x, s) h g e q =
      let same : x ≡ e = cc in subst (λ y. skips y ≡ false) same (h x refl)
  follow-Stops k (panic, s) h g e q = cc

  pub Stops->>= :
      {A B : Type 0} {m : M S A} {k : A → M S B}
      → Stops m
      → ((a : A) → Stops (k a))
      → Stops (m >>= k)
  Stops->>= {m} {k} h g = record { stopped = λ s. follow-Stops k (m s) (h.stopped s) g }

  follow-Settled :
      {A : Type 0} (P : S → Type 0) (k : A → M S Done) (r : Result A × S)
      → ((e : Bytes) → r.0 ≡ err e → skips e ≡ false)
      → ((a : A) → r.0 ≡ ok a → Settled P (k a r.1))
      → Settled P (follow k r)
  follow-Settled P k (ok a, s) h g = g a refl
  follow-Settled P k (err e, s) h g = λ t. absurd (cc (h e refl))
  follow-Settled P k (panic, s) h g = tt

  pub Settled->>= :
      {A : Type 0} (P : S → Type 0) {m : M S A} (k : A → M S Done) (s : S)
      → Stops m
      → ((a : A) → (m s).0 ≡ ok a → Settled P (k a (m s).1))
      → Settled P ((m >>= k) s)
  Settled->>= P {m} k s h g = follow-Settled P k (m s) (h.stopped s) g

  passed_over :
      (P : S → Type 0) (r : Result Done × S)
      → Settled P r
      → (caught (λ e. elim (skips e) [ true ↦ pure tt | false ↦ fail e ]) r).0 ≡ ok tt
      → P (caught (λ e. elim (skips e) [ true ↦ pure tt | false ↦ fail e ]) r).1
  passed_over P (ok _, s) h q = h
  passed_over P (err e, s) h q = elim (Bool-cases (skips e)) [
    | inl t ↦ rw (caught, t) (h t)
    | inr f ↦ cc (rw (caught, f) at q)
  ]
  passed_over P (panic, s) h q = cc

  pub tolerate_settled :
      (P : S → Type 0) (m : M S Done) (s : S)
      → Settled P (m s)
      → (tolerate skips m s).0 ≡ ok tt
      → P (tolerate skips m s).1
  tolerate_settled P m s h e = passed_over P (m s) h e
