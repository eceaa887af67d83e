-- ===== src/EtcFiles/Resolv/Again.antt =====
-- "prepare" after "prepare": the edit of the resolver's file changes an edited file no more.
use lazyjack.Base.{
  ◌≤◌, Bytes, List, [], ◌∷◌, ◌++◌, ◌≡◌, refl, sym, ◌∙◌, Bool, true, false, inl, inr, arith, All,
  Bool-cases, str, has_prefix, has_suffix, contains,
}
use lazyjack.Base.Split.{text_lines, unlines, Lacks}
use lazyjack.Base.Affix.{size, has_suffix_behind}
use lazyjack.EtcFiles.Edit.{added_tag, removed_tag, Plain, Clean}
use lazyjack.EtcFiles.Resolv.{
  nameserver_key, added_server, resolv_mark, resolv_round, resolv_loop, update_resolv_conf_info,
}
use lazyjack.EtcFiles.Resolv.Body.{
  server_lines, resolv_body, finish, round_server, round_other, update_resolv_conf_info-body,
}
use lazyjack.EtcFiles.Resolv.Restore.{added_server-suffix, text_lines-update_resolv_conf_info}
use lazyjack.EtcFiles.Resolv.Serves.{removed-key}
use mathlib.Core.List.{append_assoc, append-nil}

has_prefix-size : (p s : Bytes) → has_prefix p s ≡ true → size p ≤ size s
unfolding has_prefix
has_prefix-size [] s h = omega arith
has_prefix-size (a ∷ p) [] h = cc
has_prefix-size (a ∷ p) (b ∷ s) h = ground (arith, has_prefix-size p s)

-- A line that names a server is longer than the tag, so a comment before it makes no tag.
removed-suffix :
    (line : Bytes)
    → has_prefix nameserver_key line ≡ true
    → has_suffix added_tag line ≡ false
    → has_suffix added_tag (removed_tag ++ line) ≡ false
removed-suffix line e s =
    has_suffix_behind added_tag removed_tag line
      (unfold str in omega (arith, has_prefix-size nameserver_key line e))
    ∙ s

skip_added :
    (ns : Bytes) (first : Bool) (output : Bytes)
    → resolv_round ns (added_server ns) (first, output) ≡ (first, output)
unfolding resolv_round
skip_added ns first output = rw (added_server-suffix ns)

-- The lines that the first pass wrote for a server's line, and then lines that are written again.
server_again :
    (ns line : Bytes) (lines : List Bytes) (first matches : Bool) (output : Bytes)
    → has_prefix nameserver_key line ≡ true
    → has_suffix added_tag line ≡ false
    → contains ns line ≡ matches
    → ((out : Bytes) → finish ns (resolv_loop ns lines (false, out)) ≡ out ++ unlines lines)
    → finish ns (resolv_loop ns (server_lines ns line first matches ++ lines) (first, output))
      ≡ output ++ unlines (server_lines ns line first matches ++ lines)
unfolding resolv_loop server_lines unlines resolv_mark
server_again ns line lines true true output e s c ih =
    rw (round_server ns line true output s e, c, ih) (simp append_assoc)
server_again ns line lines true false output e s c ih =
    rw (skip_added ns true output, round_server ns line true output s e, c, ih) (simp append_assoc)
server_again ns line lines false true output e s c ih =
    rw
      (
        round_other ns (removed_tag ++ line) false output (removed-suffix line e s)
            (removed-key line),
        ih,
      )
      (simp append_assoc)
server_again ns line lines false false output e s c ih =
    rw (round_server ns line false output s e, c, ih) (simp append_assoc)

other_again :
    (ns line : Bytes) (lines : List Bytes) (first : Bool) (output : Bytes)
    → has_prefix nameserver_key line ≡ false
    → has_suffix added_tag line ≡ false
    → ((out : Bytes) → finish ns (resolv_loop ns lines (first, out)) ≡ out ++ unlines lines)
    → finish ns (resolv_loop ns (line ∷ lines) (first, output)) ≡ output ++ unlines (line ∷ lines)
unfolding resolv_loop unlines
other_again ns line lines first output e s ih =
    rw (round_other ns line first output s e, ih) (simp append_assoc)

-- The second pass writes the lines of the first one.
resolv_loop_again :
    (ns : Bytes) (lines : List Bytes) (first : Bool) (output : Bytes)
    → All Plain lines
    → finish ns (resolv_loop ns (resolv_body ns first lines) (first, output))
      ≡ output ++ unlines (resolv_body ns first lines)
unfolding resolv_loop resolv_body unlines
resolv_loop_again ns [] true output h =
    rw (skip_added ns true output) (unfold finish in simp append_assoc)
resolv_loop_again ns [] false output h = unfold finish in sym (append-nil output)
resolv_loop_again ns (line ∷ lines) first output ((p, s), h) =
    elim (Bool-cases (has_prefix nameserver_key line)) [
      | inl e ↦ rw e (
          server_again ns line (resolv_body ns false lines) first (contains ns line) output e s refl
            (λ out. resolv_loop_again ns lines false out h))
      | inr e ↦ rw e (
          other_again ns line (resolv_body ns first lines) first output e s
            (λ out. resolv_loop_again ns lines first out h))
    ]

-- Updating a file that has been updated for the same server changes nothing. Before the first
-- update the file must have no tags, and the server must hold no newline.
pub update_resolv_conf_info_idem :
    (contents ns : Bytes)
    → Clean contents
    → Lacks 10 ns
    → update_resolv_conf_info (update_resolv_conf_info contents ns) ns
      ≡ update_resolv_conf_info contents ns
update_resolv_conf_info_idem contents ns clean h =
    let lines = text_lines contents in
    again (update_resolv_conf_info contents ns)
      (text_lines-update_resolv_conf_info contents ns clean h)
    ∙ resolv_loop_again ns lines true [] clean
    ∙ sym (update_resolv_conf_info-body contents ns clean)
  where
    again :
        (edited : Bytes)
        → text_lines edited ≡ resolv_body ns true (text_lines contents)
        → update_resolv_conf_info edited ns
          ≡ finish ns (resolv_loop ns (resolv_body ns true (text_lines contents)) (true, []))
    again edited e = unfold update_resolv_conf_info finish in rw e refl
