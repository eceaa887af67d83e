-- ===== src/Base/Split.antt =====
-- `strings.Split` and `strings.Join` for a separator of one byte, and the lines of a file.
use lazyjack.Base.Text.{Bytes, trim_right, is_newline}
use lazyjack.Base.Tests.{◌==◌, if◌then◌else◌, All}
use Prim.Native.Nat.{ℕ}
use mathlib.Core.Path.{◌≡◌, refl, ◌∙◌, ap}
use mathlib.Core.Logic.{◌≢◌, ◌⊎◌}
use mathlib.Core.List.{List, [], ◌∷◌, ◌++◌, append_assoc, cons-ne-nil}
use native.Mathlib.Omega.{arith}

abbrev pub push_head : ℕ → List Bytes → List Bytes
push_head c [] = (c ∷ []) ∷ []
push_head c (p ∷ ps) = (c ∷ p) ∷ ps

unfoldable pub split : ℕ → Bytes → List Bytes
split sep [] = [] ∷ []
split sep (c ∷ s) = let rest = split sep s in if c == sep then [] ∷ rest else push_head c rest

unfoldable pub join : ℕ → List Bytes → Bytes
join sep [] = []
join sep (p ∷ []) = p
join sep (p ∷ q ∷ ps) = p ++ sep ∷ join sep (q ∷ ps)

-- What the loops write: every line with a newline behind it.
unfoldable pub unlines : List Bytes → Bytes
unlines [] = []
unlines (l ∷ ls) = l ++ 10 ∷ unlines ls

-- `bytes.Split(bytes.TrimRight(contents, "\n"), []byte("\n"))`
unfoldable pub text_lines : Bytes → List Bytes
unfolding split trim_right
text_lines contents = split 10 (trim_right is_newline contents)

abbrev pub Lacks : ℕ → Bytes → Type 0
Lacks b = All (λ c. c ≢ b)

-- The last line is there and is not empty.
abbrev pub Ends : List Bytes → Type 0
Ends [] = ⊥
Ends (l ∷ []) = l ≢ []
Ends (l ∷ m ∷ ls) = Ends (m ∷ ls)

-- The lines that `text_lines` returns: no blank line at the end, unless it is the only one.
abbrev pub Closed : List Bytes → Type 0
Closed ls = (ls ≡ [] ∷ []) ⊎ Ends ls

pub unlines-append : (ls ms : List Bytes) → unlines (ls ++ ms) ≡ unlines ls ++ unlines ms
unfolding unlines
unlines-append [] ms = refl
unlines-append (l ∷ ls) ms = simp (unlines-append ls ms, append_assoc)

push_head-ne-nil : (c : ℕ) (ps : List Bytes) → push_head c ps ≢ []
push_head-ne-nil c [] = cc
push_head-ne-nil c (p ∷ ps) = cc

pub split-ne-nil : (sep : ℕ) (s : Bytes) → split sep s ≢ []
unfolding split
split-ne-nil sep [] = cc
split-ne-nil sep (c ∷ s) = ground (arith, push_head-ne-nil c (split sep s))

push_head-Lacks :
    (sep c : ℕ) (ps : List Bytes) → c ≢ sep → All (Lacks sep) ps → All (Lacks sep) (push_head c ps)
push_head-Lacks sep c [] h _ = ((h, tt), tt)
push_head-Lacks sep c (p ∷ ps) h (hp, hps) = ((h, hp), hps)

pub split-Lacks : (sep : ℕ) (s : Bytes) → All (Lacks sep) (split sep s)
unfolding split
split-Lacks sep [] = (tt, tt)
split-Lacks sep (c ∷ s) = ground (arith, split-Lacks sep s, push_head-Lacks sep c (split sep s))

unlines-push_head : (c : ℕ) (ps : List Bytes) → ps ≢ [] → unlines (push_head c ps) ≡ c ∷ unlines ps
unfolding unlines
unlines-push_head c [] h = absurd (h refl)
unlines-push_head c (p ∷ ps) h = refl

pub unlines-split : (s : Bytes) → unlines (split 10 s) ≡ s ++ 10 ∷ []
unfolding split unlines
unlines-split [] = refl
unlines-split (c ∷ s) =
    ground (arith, unlines-split s, unlines-push_head c (split 10 s) (split-ne-nil 10 s))

split_part : (sep : ℕ) (p : Bytes) → Lacks sep p → split sep p ≡ p ∷ []
unfolding split
split_part sep [] h = refl
split_part sep (c ∷ p) (hc, hp) = ground (arith, split_part sep p hp)

split-append : (sep : ℕ) (p s : Bytes) → Lacks sep p → split sep (p ++ sep ∷ s) ≡ p ∷ split sep s
unfolding split
split-append sep [] s h = ground arith
split-append sep (c ∷ p) s (hc, hp) = ground (arith, split-append sep p s hp)

pub split-join :
    (sep : ℕ) (ps : List Bytes) → ps ≢ [] → All (Lacks sep) ps → split sep (join sep ps) ≡ ps
unfolding join
split-join sep [] h _ = absurd (h refl)
split-join sep (p ∷ []) h (hp, _) = split_part sep p hp
split-join sep (p ∷ q ∷ ps) h (hp, hps) =
    split-append sep p _ hp ∙ ap (◌∷◌ p) (split-join sep (q ∷ ps) (cons-ne-nil q ps) hps)
