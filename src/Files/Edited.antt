-- ===== src/Files/Edited.antt =====
-- A file that is read, changed and saved.
use lazyjack.Base.{
  Bytes, ◌++◌, Option, some, ◌≡◌, ◌≢◌, sym, ◌∙◌, ap, str, Result, ok, Done, M, ◌>>=◌,
}
use lazyjack.Base.Steps.{follow-eq-ok, caught-eq-ok}
use lazyjack.World.{Os}
use lazyjack.Files.{get_file_contents, save_file_contents}
use lazyjack.Files.Laws.{FileLaws, save_file_contents-saved}

module _ (o : Os) (content : Bytes → o.World → Option Bytes) (L : FileLaws o content) where
  -- What the program reads is the contents of the file.
  pub get_file_contents-content :
      (file c d : Bytes) (w : o.World)
      → content file w ≡ some c
      → (get_file_contents o file w).0 ≡ ok d
      → d ≡ c
  unfolding get_file_contents
  get_file_contents-content file c d w e h =
      let read =
        (caught-eq-ok (λ e. str "unable to read " ++ file ++ str ": " ++ e) (o.read_file file w) d
          h).0 in
      cc (L.read_content file w d read, e)

  -- A file that is read, changed by a function and saved.
  pub edit_file-content :
      (read : M (o.World) Bytes) (change : Bytes → Bytes) (file backup c : Bytes) (w w' : o.World)
      → file ≢ backup
      → ((d : Bytes) → (read w).0 ≡ ok d → d ≡ c)
      → (read >>= λ d. save_file_contents o (change d) file backup) w ≡ (ok tt, w')
      → content file w' ≡ some (change c)
  edit_file-content read change file backup c w w' ne known h =
      let save = λ (d : Bytes). save_file_contents o (change d) file backup in
      let (d, p, q) = follow-eq-ok save (read w) tt (ap result h) in
      let saved = save_file_contents-saved o content L (change d) file backup (read w).1 ne in
      ap (λ r. content file (world r)) (sym h ∙ q)
      ∙ (saved (ap result (sym q ∙ h))).0
      ∙ ap (λ d. some (change d)) (known d p)
    where
      result : Result Done × o.World → Result Done
      result r = r.0

      world : Result Done × o.World → o.World
      world r = r.1
