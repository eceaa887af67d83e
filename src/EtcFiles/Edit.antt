-- ===== src/EtcFiles/Edit.antt =====
-- `RevertConfigInfo`, and the edits that it undoes.
use lazyjack.Base.{
  Bytes, List, [], ◌∷◌, ◌++◌, ◌≡◌, ◌≢◌, sym, ◌∙◌, ap, true, false, if◌then◌else◌, All, str,
  has_prefix, has_suffix, trim_prefix,
}
use lazyjack.Base.Split.{text_lines, unlines, Lacks, Ends, Closed}
use lazyjack.Base.Lines.{text_lines-unlines, Ends-append}
use lazyjack.Base.Affix.{trim_prefix-append, trim_prefix-none}
use mathlib.Core.List.{append_assoc, append-nil}

-- The comment behind a line that was added, and before a line that was replaced.
abbrev pub added_tag : Bytes
added_tag = str "  #[+]"

abbrev pub removed_tag : Bytes
removed_tag = str "#[-] "

-- A round of the loop of `RevertConfigInfo`.
revert_round : Bytes → Bytes → Bytes
revert_round line output =
    let line' = trim_prefix removed_tag line in
    if has_suffix added_tag line' then output else output ++ (line' ++ 10 ∷ [])

revert_loop : List Bytes → Bytes → Bytes
revert_loop [] output = output
revert_loop (line ∷ lines) output = revert_loop lines (revert_round line output)

unfoldable pub revert_config_info : Bytes → Bytes
unfolding revert_loop revert_round
revert_config_info contents = revert_loop (text_lines contents) []

-- A line without a tag.
abbrev pub Plain : Bytes → Type 0
Plain l = (has_prefix removed_tag l ≡ false) × (has_suffix added_tag l ≡ false)

-- A file that no `prepare` has edited.
abbrev pub Clean : Bytes → Type 0
Clean contents = All Plain (text_lines contents)

-- The second list of lines is the first with lines replaced by comments and tagged lines added.
pub data Edit : List Bytes → List Bytes → Type 0 where
  done : Edit [] []
  keep : {l : Bytes} {ls ms : List Bytes} → Plain l → Edit ls ms → Edit (l ∷ ls) (l ∷ ms)
  comment :
      {l m : Bytes} {ls ms : List Bytes}
      → Plain l
      → m ≡ removed_tag ++ l
      → Edit ls ms
      → Edit (l ∷ ls) (m ∷ ms)
  add :
      {m : Bytes} {ls ms : List Bytes}
      → has_prefix removed_tag m ≡ false
      → has_suffix added_tag m ≡ true
      → Edit ls ms
      → Edit ls (m ∷ ms)

revert_loop-Edit :
    {ls ms : List Bytes} (output : Bytes)
    → Edit ls ms
    → revert_loop ms output ≡ output ++ unlines ls
unfolding revert_loop revert_round unlines
revert_loop-Edit output done = sym (append-nil output)
revert_loop-Edit output (keep {l = l} {ls = ls} (p, s) e) =
    rw (trim_prefix-none removed_tag l p, s, revert_loop-Edit (output ++ (l ++ 10 ∷ [])) e)
      (simp append_assoc)
revert_loop-Edit output (comment {l = l} (p, s) q e) =
    rw (q, trim_prefix-append removed_tag l, s, revert_loop-Edit (output ++ (l ++ 10 ∷ [])) e)
      (simp append_assoc)
revert_loop-Edit output (add {m = m} p s e) =
    rw (trim_prefix-none removed_tag m p, s) (revert_loop-Edit output e)

-- Written by lines, an edited file is reverted to the lines before the edit.
pub revert-Edit :
    {ls ms : List Bytes}
    → Edit ls ms
    → All (Lacks 10) ms
    → Closed ms
    → revert_config_info (unlines ms) ≡ unlines ls
unfolding revert_config_info
revert-Edit {ms = ms} e hs closed =
    ap (λ l. revert_loop l []) (text_lines-unlines ms hs closed) ∙ revert_loop-Edit [] e

suffix-ne-nil : (m : Bytes) → has_suffix added_tag m ≡ true → m ≢ []
unfolding has_suffix str
suffix-ne-nil [] h = cc
suffix-ne-nil (c ∷ m) h = cc

Ends-cons : (m : Bytes) (ls : List Bytes) → Ends ls → Ends (m ∷ ls)
Ends-cons m ls h = Ends-append (m ∷ []) ls h

Ends-of_added : {ms : List Bytes} (l : Bytes) → l ≢ [] → Edit [] ms → Ends (l ∷ ms)
Ends-of_added l h done = h
Ends-of_added l h (add {m = m} {ms = ms} a b e) =
    Ends-cons l (m ∷ ms) (Ends-of_added m (suffix-ne-nil m b) e)

-- An edit leaves a last line that is not empty.
pub Edit-Ends : {ls ms : List Bytes} → Edit ls ms → Ends ls → Ends ms
unfolding str
Edit-Ends done h = h
Edit-Ends (keep {l = l} {ls = []} p e) h = Ends-of_added l h e
Edit-Ends (keep {l = l} {ls = k ∷ ls} {ms = ms} p e) h = Ends-cons l ms (Edit-Ends e h)
Edit-Ends (comment {l = l} {m = m} {ls = []} p q e) h = Ends-of_added m (λ z. cc) e
Edit-Ends (comment {m = m} {ls = k ∷ ls} {ms = ms} p q e) h = Ends-cons m ms (Edit-Ends e h)
Edit-Ends (add {m = m} {ms = ms} a b e) h = Ends-cons m ms (Edit-Ends e h)

pub Ends-added : (k : Bytes) (ms : List Bytes) → Edit [] (k ∷ ms) → Ends (k ∷ ms)
Ends-added k ms (add a b e) = Ends-of_added k (suffix-ne-nil k b) e
