-- ===== src/Files/Laws.antt =====
-- What saving a file leaves on disk, whatever fails on the way.
use lazyjack.Base.{Bytes, true, Option, none, some, ◌≡◌, ◌≢◌, ◌↔◌, ◌⊎◌, arith, ok, panic}
use lazyjack.World.{Os}
use lazyjack.Files.{recover_file, save_file_contents}

-- What the operating system documents of `os.Stat`, `ioutil.ReadFile`, `ioutil.WriteFile` and
-- `os.Rename`, by the contents of the files. A write that fails may have changed its file; a
-- rename that fails has changed nothing.
pub record FileLaws (o : Os) (content : Bytes → o.World → Option Bytes) : Type 0 where
  pub missing : (f : Bytes) (w : o.World) → (o.is_missing f w ≡ true) ↔ (content f w ≡ none)
  pub read_content :
      (f : Bytes) (w : o.World) (c : Bytes) → (o.read_file f w).0 ≡ ok c → content f w ≡ some c
  pub read_keeps : (f g : Bytes) (w : o.World) → content g (o.read_file f w).1 ≡ content g w
  pub write_content :
      (f c : Bytes) (w : o.World)
      → (o.write_file f c w).0 ≡ ok tt
      → content f (o.write_file f c w).1 ≡ some c
  pub write_keeps :
      (f c g : Bytes) (w : o.World) → g ≢ f → content g (o.write_file f c w).1 ≡ content g w
  pub write_no_panic : (f c : Bytes) (w : o.World) → (o.write_file f c w).0 ≢ panic
  pub rename_content :
      (a b : Bytes) (w : o.World)
      → a ≢ b
      → (o.rename a b w).0 ≡ ok tt
      → content b (o.rename a b w).1 ≡ content a w
  pub rename_keeps :
      (a b g : Bytes) (w : o.World) → g ≢ a → g ≢ b → content g (o.rename a b w).1 ≡ content g w
  pub rename_fails :
      (a b g : Bytes) (w : o.World)
      → (o.rename a b w).0 ≢ ok tt
      → content g (o.rename a b w).1 ≡ content g w
  pub rename_no_panic : (a b : Bytes) (w : o.World) → (o.rename a b w).0 ≢ panic

module _ (o : Os) (content : Bytes → o.World → Option Bytes) (L : FileLaws o content) where
  -- The former contents of a file are never lost: whether saving succeeds or fails, and whatever
  -- fails, they are afterwards in the file or in its backup.
  pub save_file_contents-kept :
      (contents file backup : Bytes) (w : o.World) (old : Bytes)
      → file ≢ backup
      → content file w ≡ some old
      → (content file (save_file_contents o contents file backup w).1 ≡ some old)
        ⊎ (content backup (save_file_contents o contents file backup w).1 ≡ some old)
  unfolding save_file_contents recover_file
  save_file_contents-kept contents file backup w old ne h =
      let w1 = (o.rename file backup w).1 in
      let w2 = (o.write_file file contents w1).1 in
      ground (
        arith,
        L.missing file w,
        L.rename_content file backup w,
        L.rename_fails file backup file w,
        L.rename_no_panic file backup w,
        L.write_keeps file contents backup w1,
        L.write_no_panic file contents w1,
        L.rename_content backup file w2,
        L.rename_fails backup file backup w2,
        L.rename_no_panic backup file w2,
      )

  -- Saving that succeeds leaves the new contents in the file and the former ones in the backup,
  -- which without former contents stays as it was.
  pub save_file_contents-saved :
      (contents file backup : Bytes) (w : o.World)
      → file ≢ backup
      → (save_file_contents o contents file backup w).0 ≡ ok tt
      → (content file (save_file_contents o contents file backup w).1 ≡ some contents)
        × (content backup (save_file_contents o contents file backup w).1
            ≡ (elim (content file w) [ none ↦ content backup w | some old ↦ some old ]))
  unfolding save_file_contents recover_file
  save_file_contents-saved contents file backup w ne h =
      let w1 = (o.rename file backup w).1 in
      (
        ground (arith, L.write_content file contents w, L.write_content file contents w1),
        ground (
          arith,
          L.missing file w,
          L.rename_content file backup w,
          L.write_keeps file contents backup w,
          L.write_keeps file contents backup w1,
        ),
      )

  -- Saving, with success or without, changes no third file.
  pub save_file_contents-others :
      (contents file backup g : Bytes) (w : o.World)
      → g ≢ file
      → g ≢ backup
      → content g (save_file_contents o contents file backup w).1 ≡ content g w
  unfolding save_file_contents recover_file
  save_file_contents-others contents file backup g w a b =
      let w1 = (o.rename file backup w).1 in
      ground (
        arith,
        L.rename_keeps file backup g w a b,
        L.write_keeps file contents g w a,
        L.write_keeps file contents g w1 a,
        L.rename_keeps backup file g (o.write_file file contents w1).1 b a,
      )
