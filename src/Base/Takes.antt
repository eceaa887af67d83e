-- ===== src/Base/Takes.antt =====
-- Operations that are lists of steps, by their parts.
use mathlib.Core.Path.{◌≡◌, refl, ◌∙◌, ap}
use mathlib.Core.List.{List, [], ◌∷◌, ◌++◌}
use lazyjack.Base.Flow.{Result, ok, err, panic, Done, M, follow, ◌>>◌, pure}
use lazyjack.Base.Sequence.{run_all, StopsAtFirst, run_all-StopsAtFirst}

module _ {S : Type 0} where
  -- The operation is the list of steps.
  pub record Takes (m : M S Done) (ms : List (M S Done)) : Type 0 where
    pub takes : (s : S) → m s ≡ run_all ms s

  pub Takes-StopsAtFirst :
      {m : M S Done} {ms : List (M S Done)} → Takes m ms → (s : S) → StopsAtFirst ms m s
  Takes-StopsAtFirst {m} {ms} t s =
      let all = run_all-StopsAtFirst ms s in
      let same = t.takes s in
      record {
        succeeds = rw same (all.succeeds);
        all_made = rw same (all.all_made);
        stops = rw same (all.stops);
      }

  pub Takes-none : Takes (pure tt) []
  unfolding run_all
  Takes-none = record { takes = λ s. refl }

  follow-pure : (r : Result Done × S) → r ≡ follow (λ _. pure tt) r
  follow-pure (ok _, t) = refl
  follow-pure (err x, t) = refl
  follow-pure (panic, t) = refl

  pub Takes-one : (m : M S Done) → Takes m (m ∷ [])
  unfolding run_all
  Takes-one m = record { takes = λ s. follow-pure (m s) }

  run_all-append :
      (ms ks : List (M S Done)) (s : S) → (run_all ms >> run_all ks) s ≡ run_all (ms ++ ks) s
  unfolding run_all
  run_all-append [] ks s = refl
  run_all-append (m ∷ ms) ks s = step (m s) (run_all-append ms ks (m s).1)
    where
      step :
          (r : Result Done × S)
          → follow (λ _. run_all ks) (run_all ms r.1) ≡ run_all (ms ++ ks) r.1
          → follow (λ _. run_all ks) (follow (λ _. run_all ms) r)
            ≡ follow (λ _. run_all (ms ++ ks)) r
      step (ok _, t) ih = ih
      step (err x, t) ih = refl
      step (panic, t) ih = refl

  follow-cong :
      (m k : M S Done)
      → ((s : S) → m s ≡ k s)
      → (r : Result Done × S) → follow (λ _. m) r ≡ follow (λ _. k) r
  follow-cong m k h (ok _, t) = h t
  follow-cong m k h (err x, t) = refl
  follow-cong m k h (panic, t) = refl

  pub Takes->> :
      {m k : M S Done} {ms ks : List (M S Done)}
      → Takes m ms
      → Takes k ks
      → Takes (m >> k) (ms ++ ks)
  Takes->> {m} {k} {ms} {ks} t u = record {
    takes = λ s.
        ap (λ r. follow (λ _. k) r) (t.takes s)
        ∙ follow-cong k (run_all ks) (u.takes) (run_all ms s)
        ∙ run_all-append ms ks s;
  }
