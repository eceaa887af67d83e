-- ===== src/Base/Lines.antt =====
-- The lines of a file, cut and written back.
use Prim.Native.Nat.{ℕ}
use lazyjack.Base.Text.{Bytes, trim_right, is_newline}
use lazyjack.Base.Tests.{◌==◌, if◌then◌else◌, All}
use lazyjack.Base.Split.{split, join, unlines, text_lines, Lacks, Ends, Closed, push_head}
use lazyjack.Base.Split.{split-Lacks, unlines-split, split-join}
use mathlib.Core.Path.{◌≡◌, refl, sym, ◌∙◌, ap, subst}
use mathlib.Core.Logic.{◌≢◌, ◌⊎◌, inl, inr}
use mathlib.Core.List.{List, [], ◌∷◌, ◌++◌, cons-ne-nil}
use native.Mathlib.Omega.{arith}

-- The last byte is there and is not a newline.
abbrev EndsText : Bytes → Type 0
EndsText [] = ⊥
EndsText (c ∷ []) = c ≢ 10
EndsText (c ∷ d ∷ s) = EndsText (d ∷ s)

EndsText-cons : (c : Bytes) (d : Bytes) → EndsText d → EndsText (c ++ d)
EndsText-cons [] d h = h
EndsText-cons (c ∷ []) (d ∷ s) h = h
EndsText-cons (c ∷ []) [] h = absurd h
EndsText-cons (c ∷ b ∷ t) d h = EndsText-cons (b ∷ t) d h

trim_right-cases : (s : Bytes) → (trim_right is_newline s ≡ []) ⊎ EndsText (trim_right is_newline s)
unfolding trim_right
trim_right-cases [] = inl refl
trim_right-cases (c ∷ s) = step (trim_right is_newline s) (trim_right-cases s)
  where
    step :
        (r : Bytes)
        → (r ≡ []) ⊎ EndsText r
        → let t : Bytes = elim r [ [] ↦ if c == 10 then [] else c ∷ [] | b ∷ q ↦ c ∷ b ∷ q ] in
          (t ≡ []) ⊎ EndsText t
    step [] h = ground arith
    step (b ∷ q) (inl h) = absurd (cons-ne-nil b q h)
    step (b ∷ q) (inr h) = inr h

Ends-push_head : (c : Bytes) (ps : List Bytes) → Ends ps → Ends (c ∷ ps)
Ends-push_head c [] h = absurd h
Ends-push_head c (p ∷ ps) h = h

Ends-split : (s : Bytes) → EndsText s → Ends (split 10 s)
unfolding split
Ends-split [] h = absurd h
Ends-split (c ∷ []) h = ground arith
Ends-split (c ∷ d ∷ s) h = step (split 10 (d ∷ s)) (Ends-split (d ∷ s) h)
  where
    step : (ps : List Bytes) → Ends ps → Ends (if c == 10 then [] ∷ ps else push_head c ps)
    step [] h = absurd h
    step (p ∷ []) h = ground arith
    step (p ∷ q ∷ ps) h = ground arith

pub text_lines-Closed : (s : Bytes) → Closed (text_lines s)
unfolding text_lines
text_lines-Closed s = step (trim_right is_newline s) (trim_right-cases s)
  where
    step : (t : Bytes) → (t ≡ []) ⊎ EndsText t → Closed (split 10 t)
    step [] h = inl refl
    step (c ∷ t) (inl h) = absurd (cons-ne-nil c t h)
    step (c ∷ t) (inr h) = inr (Ends-split (c ∷ t) h)

pub text_lines-Lacks : (s : Bytes) → All (Lacks 10) (text_lines s)
unfolding text_lines
text_lines-Lacks s = split-Lacks 10 (trim_right is_newline s)

-- Written back, the lines are the text with one newline at its end.
pub unlines-text_lines : (s : Bytes) → unlines (text_lines s) ≡ trim_right is_newline s ++ 10 ∷ []
unfolding text_lines
unlines-text_lines s = unlines-split _

trim_right-append :
    (s t : Bytes)
    → trim_right is_newline t ≢ []
    → trim_right is_newline (s ++ t) ≡ s ++ trim_right is_newline t
unfolding trim_right
trim_right-append [] t h = refl
trim_right-append (c ∷ s) t h = rw (trim_right-append s t h) (step s (trim_right is_newline t) h)
  where
    step :
        (s r : Bytes)
        → r ≢ []
        → (elim (s ++ r) [ [] ↦ if c == 10 then [] else c ∷ [] | b ∷ q ↦ c ∷ b ∷ q ]) ≡ c ∷ s ++ r
    step [] [] h = absurd (h refl)
    step [] (b ∷ q) h = refl
    step (b ∷ s) r h = refl

-- A line without newlines, with one newline behind it.
trim_line : (l : Bytes) → Lacks 10 l → trim_right is_newline (l ++ 10 ∷ []) ≡ l
unfolding trim_right
trim_line [] h = refl
trim_line (c ∷ l) (hc, hl) = rw (trim_line l hl) (step l)
  where
    step :
        (l : Bytes) → (elim l [ [] ↦ if c == 10 then [] else c ∷ [] | b ∷ q ↦ c ∷ b ∷ q ]) ≡ c ∷ l
    step [] = ground arith
    step (b ∷ q) = refl

append-ne-nil : (l : Bytes) (c : ℕ) (s : Bytes) → l ++ c ∷ s ≢ []
append-ne-nil [] c s = cons-ne-nil c s
append-ne-nil (b ∷ l) c s = cons-ne-nil b (l ++ c ∷ s)

join-ne-nil : (ls : List Bytes) → Ends ls → join 10 ls ≢ []
unfolding join
join-ne-nil [] h = absurd h
join-ne-nil (l ∷ []) h = h
join-ne-nil (l ∷ m ∷ ls) h = append-ne-nil l 10 (join 10 (m ∷ ls))

trim_right-unlines :
    (ls : List Bytes)
    → All (Lacks 10) ls
    → Ends ls
    → trim_right is_newline (unlines ls) ≡ join 10 ls
unfolding unlines join
trim_right-unlines [] hs h = absurd h
trim_right-unlines (l ∷ []) (hl, _) h = trim_line l hl
trim_right-unlines (l ∷ m ∷ ls) (hl, hs) h =
    let ih = trim_right-unlines (m ∷ ls) hs h in
    let rest : trim_right is_newline (unlines (m ∷ ls)) ≢ [] =
      subst (λ t. t ≢ []) (sym ih) (join-ne-nil (m ∷ ls) h) in
    let tail : trim_right is_newline (10 ∷ unlines (m ∷ ls)) ≡ 10 ∷ join 10 (m ∷ ls) =
      trim_right-append (10 ∷ []) (unlines (m ∷ ls)) rest ∙ ap (◌∷◌ 10) ih in
    trim_right-append l (10 ∷ unlines (m ∷ ls))
      (subst (λ t. t ≢ []) (sym tail) (cons-ne-nil 10 (join 10 (m ∷ ls))))
    ∙ ap (λ t. l ++ t) tail

Ends-ne-nil : (ls : List Bytes) → Ends ls → ls ≢ []
Ends-ne-nil [] h = absurd h
Ends-ne-nil (l ∷ ls) h = cons-ne-nil l ls

-- Lines that are written and read again are the same lines.
pub text_lines-unlines :
    (ls : List Bytes) → All (Lacks 10) ls → Closed ls → text_lines (unlines ls) ≡ ls
unfolding text_lines
text_lines-unlines ls hs (inl e) =
    subst (λ ls. split 10 (trim_right is_newline (unlines ls)) ≡ ls) (sym e)
      (unfold unlines in refl)
text_lines-unlines ls hs (inr h) =
    ap (split 10) (trim_right-unlines ls hs h) ∙ split-join 10 ls (Ends-ne-nil ls h) hs

-- Closed lines with lines behind them that are not empty.
pub Ends-append : (ls ms : List Bytes) → Ends ms → Ends (ls ++ ms)
Ends-append [] ms h = h
Ends-append (l ∷ []) ms h = Ends-push_head l ms h
Ends-append (l ∷ m ∷ ls) ms h = Ends-append (m ∷ ls) ms h
