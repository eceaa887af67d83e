-- ===== src/Base/Yields.antt =====
-- What holds of the value and behind an operation that succeeds: rules for chains of operations.
use mathlib.Core.Path.{◌≡◌, ◌∙◌, ap, subst, sym}
use lazyjack.Base.Text.{Bytes}
use lazyjack.Base.Flow.{Result, ok, M, ◌>>=◌, wrap}
use lazyjack.Base.Rules.{Keeps}
use lazyjack.Base.Steps.{follow-eq-ok, caught-eq-ok}

-- From a state with `P`, the operation that succeeds has a value and a state with `Q`.
pub record Yields {S A : Type 0} (m : M S A) (P : S → Type 0) (Q : A → S → Type 0) : Type 0 where
  pub yielded : (s : S) (a : A) → P s → (m s).0 ≡ ok a → Q a (m s).1

module _ {S : Type 0} {P : S → Type 0} where
  pub Yields->>= :
      {A B : Type 0} {Q : A → S → Type 0} {R : B → S → Type 0} {m : M S A} {k : A → M S B}
      → Yields m P Q
      → ((a : A) → Yields (k a) (Q a) R)
      → Yields (m >>= k) P R
  Yields->>= {A} {B} {Q} {R} {m} {k} h g = record {
    yielded = λ s b p e.
        let (a, f, q) = follow-eq-ok k (m s) b e in
        let e' : (k a (m s).1).0 ≡ ok b = ap (λ (r : Result B × S). r.0) (sym q) ∙ e in
        subst (λ (r : Result B × S). R b r.1) (sym q)
          ((g a).yielded (m s).1 b (h.yielded s a p f) e');
  }

  pub Yields-fact :
      {V A : Type 0} {Q : A → S → Type 0} {m : M S A}
      → (V → Yields m P Q)
      → Yields m (λ s. P s × V) Q
  Yields-fact h = record { yielded = λ s a (p, v) e. (h v).yielded s a p e }

  pub Yields-wrap :
      {A : Type 0} {Q : A → S → Type 0} {m : M S A} (text : Bytes → Bytes)
      → Yields m P Q
      → Yields (wrap m text) P Q
  Yields-wrap {A} {Q} {m} text h = record {
    yielded = λ s a p e.
        let (f, q) = caught-eq-ok text (m s) a e in
        subst (λ (r : Result A × S). Q a r.1) (sym q) (h.yielded s a p f);
  }

module _ {S X A : Type 0} {f : S → X} {m : M S A} (P : X → Type 0) where
  -- What depends on a kept part alone holds on.
  pub Yields-keep : Keeps f m → Yields m (λ s. P (f s)) (λ _ s. P (f s))
  Yields-keep k = record { yielded = λ s a p e. subst P (sym (k.kept_part s)) p }

  pub Yields-behind :
      {B : Type 0} {R : B → S → Type 0} {k : A → M S B}
      → Keeps f m
      → ((a : A) → Yields (k a) (λ s. P (f s)) R)
      → Yields (m >>= k) (λ s. P (f s)) R
  Yields-behind h g = Yields->>= (Yields-keep h) g
