-- ===== src/World/Path.antt =====
-- `filepath.Join` of two or three elements, with the `Clean` that it ends in.
use lazyjack.Base.{Bytes, List, [], ◌∷◌, ◌++◌, Bool, true, false, if◌then◌else◌, ◌==◌, str, eq_str}
use lazyjack.Base.Split.{split, join}
use mathlib.Core.List.{reverse}

-- A component behind those kept so far, the last one first. `..` takes the last one back, is
-- dropped at the root, and is kept at the start of a relative path.
add_component : Bool → Bytes → List Bytes → List Bytes
add_component rooted [] kept = kept
add_component rooted (c ∷ s) kept =
    if eq_str (c ∷ s) (str ".")
    then kept
    else if eq_str (c ∷ s) (str "..")
    then up rooted kept
    else (c ∷ s) ∷ kept
  where
    up : Bool → List Bytes → List Bytes
    up true [] = []
    up false [] = str ".." ∷ []
    up r (k ∷ ks) = if eq_str k (str "..") then str ".." ∷ k ∷ ks else ks

components : Bool → List Bytes → List Bytes → List Bytes
unfolding add_component
components rooted [] kept = reverse kept
components rooted (s ∷ ss) kept = components rooted ss (add_component rooted s kept)

-- `filepath.Clean`
unfoldable pub clean_path : Bytes → Bytes
unfolding components
clean_path [] = str "."
clean_path (c ∷ s) =
    let rooted = c == b'/' in
    let out = join b'/' (components rooted (split b'/' (c ∷ s)) []) in
    if rooted then b'/' ∷ out else elim out [ [] ↦ str "." | d ∷ t ↦ d ∷ t ]

-- `filepath.Join(a, b)`: empty elements are left out.
unfoldable pub join_path : Bytes → Bytes → Bytes
unfolding clean_path
join_path [] [] = []
join_path [] (c ∷ b) = clean_path (c ∷ b)
join_path (c ∷ a) [] = clean_path (c ∷ a)
join_path (c ∷ a) (d ∷ b) = clean_path ((c ∷ a) ++ b'/' ∷ d ∷ b)
