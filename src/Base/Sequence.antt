-- ===== src/Base/Sequence.antt =====
-- Lists of steps: all of them made, or made up to the first that fails.
use mathlib.Core.Path.{◌≡◌, refl, ap}
use mathlib.Core.Logic.{◌≢◌, ◌↔◌, ◌⊎◌, inl, inr}
use mathlib.Core.Bool.{Bool, true, false}
use mathlib.Core.List.{List, [], ◌∷◌, ◌++◌}
use lazyjack.Base.Flow.{Result, ok, err, panic, Done, M, follow, ◌>>◌, pure}

ok_or_not : (r : Result Done) → (r ≡ ok tt) ⊎ (r ≢ ok tt)
ok_or_not (ok _) = inl refl
ok_or_not (err x) = inr (λ e. cc)
ok_or_not panic = inr (λ e. cc)

module _ {S : Type 0} where
  -- The state behind steps that are all made, one after the other.
  unfoldable pub made : List (M S Done) → S → S
  made [] s = s
  made (m ∷ ms) s = made ms (m s).1

  -- Every step succeeds where its turn comes.
  abbrev pub AllSucceed : List (M S Done) → S → Type 0
  AllSucceed [] s = Unit
  AllSucceed (m ∷ ms) s = ((m s).0 ≡ ok tt) × AllSucceed ms (m s).1

  abbrev pub NonePanics : List (M S Done) → S → Type 0
  NonePanics [] s = Unit
  NonePanics (m ∷ ms) s = ((m s).0 ≢ panic) × NonePanics ms (m s).1

  abbrev pub steps_if : Bool → List (M S Done) → List (M S Done)
  steps_if true ms = ms
  steps_if false ms = []

  -- Some first steps succeed, and the next one, made behind them, fails with the given result.
  pub record FailsFirst (ms : List (M S Done)) (s : S) (r : Result Done × S) : Type 0 where
    pub before : List (M S Done)
    pub failing : M S Done
    pub behind : List (M S Done)
    pub split : ms ≡ before ++ failing ∷ behind
    pub succeeded_before : AllSucceed before s
    pub failure : r ≡ failing (made before s)
    pub failed_with : r.0 ≢ ok tt

  -- An operation that makes the steps in their order until one fails.
  pub record StopsAtFirst (ms : List (M S Done)) (run : M S Done) (s : S) : Type 0 where
    pub succeeds : ((run s).0 ≡ ok tt) ↔ AllSucceed ms s
    pub all_made : (run s).0 ≡ ok tt → (run s).1 ≡ made ms s
    pub stops : (run s).0 ≢ ok tt → FailsFirst ms s (run s)

  -- The operation that a list of steps is.
  unfoldable pub run_all : List (M S Done) → M S Done
  run_all [] = pure tt
  run_all (m ∷ ms) = m >> run_all ms

  -- A first step that succeeds, before steps of which one fails.
  FailsFirst-later :
      (m : M S Done) (ms : List (M S Done)) (s : S) (r : Result Done × S)
      → (m s).0 ≡ ok tt
      → FailsFirst ms (m s).1 r
      → FailsFirst (m ∷ ms) s r
  unfolding made
  FailsFirst-later m ms s r e f = record {
    before = m ∷ f.before;
    failing = f.failing;
    behind = f.behind;
    split = ap (λ rest. m ∷ rest) (f.split);
    succeeded_before = (e, f.succeeded_before);
    failure = f.failure;
    failed_with = f.failed_with;
  }

  FailsFirst-now :
      (m : M S Done) (ms : List (M S Done)) (s : S) → (m s).0 ≢ ok tt → FailsFirst (m ∷ ms) s (m s)
  unfolding made
  FailsFirst-now m ms s h = record {
    before = [];
    failing = m;
    behind = ms;
    split = refl;
    succeeded_before = tt;
    failure = refl;
    failed_with = h;
  }

  follow_ok : (k : M S Done) (r : Result Done × S) → r.0 ≡ ok tt → follow (λ _. k) r ≡ k r.1
  follow_ok k (ok _, t) e = refl
  follow_ok k (err x, t) e = cc
  follow_ok k (panic, t) e = cc

  follow_failed : (k : M S Done) (r : Result Done × S) → r.0 ≢ ok tt → follow (λ _. k) r ≡ r
  follow_failed k (ok _, t) h = absurd (h refl)
  follow_failed k (err x, t) h = refl
  follow_failed k (panic, t) h = refl

  pub run_all-StopsAtFirst : (ms : List (M S Done)) (s : S) → StopsAtFirst ms (run_all ms) s
  unfolding run_all made
  run_all-StopsAtFirst [] s = record {
    succeeds = (λ h. tt, λ h. refl);
    all_made = λ h. refl;
    stops = λ h. absurd (h refl);
  }
  run_all-StopsAtFirst (m ∷ ms) s = elim (ok_or_not (m s).0) [
    | inl e ↦
        let ih = run_all-StopsAtFirst ms (m s).1 in
        let same = follow_ok (run_all ms) (m s) e in
        record {
          succeeds = (λ h. (e, ih.succeeds.0 (rw same at h)), λ (_, h). rw same (ih.succeeds.1 h));
          all_made = λ h. rw same (ih.all_made (rw same at h));
          stops = λ h. rw same (FailsFirst-later m ms s _ e (ih.stops (rw same at h)));
        }
    | inr h ↦
        let same = follow_failed (run_all ms) (m s) h in
        record {
          succeeds = (λ e. absurd (h (rw same at e)), λ (e, _). absurd (h e));
          all_made = λ e. absurd (h (rw same at e));
          stops = λ _. rw same (FailsFirst-now m ms s h);
        }
  ]
