-- ===== src/EtcFiles/Resolv/Body.antt =====
-- The edit of the resolver's file as a list of lines.
use lazyjack.Base.{
  Bytes, List, [], ◌∷◌, ◌++◌, ◌≡◌, sym, ap, Bool, true, false, inl, inr, if◌then◌else◌, All,
  Bool-cases, has_prefix, has_suffix, contains,
}
use lazyjack.Base.Split.{text_lines, unlines}
use lazyjack.EtcFiles.Edit.{added_tag, removed_tag, Plain, Clean}
use lazyjack.EtcFiles.Resolv.{
  nameserver_key, added_server, resolv_mark, resolv_round, resolv_loop, update_resolv_conf_info,
}
use mathlib.Core.List.{append_assoc, append-nil}

-- A server's line, by `first` and by whether it holds the new server.
unfoldable pub server_lines : Bytes → Bytes → Bool → Bool → List Bytes
server_lines ns line true true = line ∷ []
server_lines ns line true false = added_server ns ∷ line ∷ []
server_lines ns line false true = (removed_tag ++ line) ∷ []
server_lines ns line false false = line ∷ []

unfoldable pub resolv_body : Bytes → Bool → List Bytes → List Bytes
resolv_body ns first [] = if first then added_server ns ∷ [] else []
resolv_body ns first (line ∷ lines) =
    let server = server_lines ns line first (contains ns line) ++ resolv_body ns false lines in
    let other = line ∷ resolv_body ns first lines in
    if has_prefix nameserver_key line then server else other

unfoldable pub finish : Bytes → Bool × Bytes → Bytes
finish ns (first, output) = if first then output ++ (added_server ns ++ 10 ∷ []) else output

pub mark-server_lines :
    (ns line : Bytes) (first matches : Bool) (lines : List Bytes)
    → resolv_mark first ns matches ++ (line ++ 10 ∷ []) ++ unlines lines
      ≡ unlines (server_lines ns line first matches ++ lines)
unfolding resolv_mark server_lines unlines
mark-server_lines ns line true true lines = simp append_assoc
mark-server_lines ns line true false lines = simp append_assoc
mark-server_lines ns line false true lines = simp append_assoc
mark-server_lines ns line false false lines = simp append_assoc

module _ (ns line : Bytes) (first : Bool) (output : Bytes)
    (s : has_suffix added_tag line ≡ false) where
  pub round_server :
      has_prefix nameserver_key line ≡ true
      → resolv_round ns line (first, output)
        ≡ (false, output ++ (resolv_mark first ns (contains ns line) ++ (line ++ 10 ∷ [])))
  unfolding resolv_round
  round_server e = rw (s, e)

  pub round_other :
      has_prefix nameserver_key line ≡ false
      → resolv_round ns line (first, output) ≡ (first, output ++ (line ++ 10 ∷ []))
  unfolding resolv_round
  round_other e = rw (s, e)

resolv_loop-body :
    (ns : Bytes) (lines : List Bytes) (first : Bool) (output : Bytes)
    → All Plain lines
    → finish ns (resolv_loop ns lines (first, output))
      ≡ output ++ unlines (resolv_body ns first lines)
unfolding resolv_loop resolv_body unlines
resolv_loop-body ns [] true output h = unfold finish in simp append_assoc
resolv_loop-body ns [] false output h = unfold finish in sym (append-nil output)
resolv_loop-body ns (line ∷ lines) first output ((p, s), h) =
    elim (Bool-cases (has_prefix nameserver_key line)) [
      | inl e ↦
          rw
            (
              round_server ns line first output s e,
              e,
              resolv_loop-body ns lines false _ h,
              append_assoc,
            )
            (ap (λ t. output ++ t) (mark-server_lines ns line first (contains ns line) _))
      | inr e ↦
          rw (round_other ns line first output s e, e, resolv_loop-body ns lines first _ h)
            (simp append_assoc)
    ]

pub update_resolv_conf_info-body :
    (contents ns : Bytes)
    → Clean contents
    → update_resolv_conf_info contents ns ≡ unlines (resolv_body ns true (text_lines contents))
unfolding update_resolv_conf_info finish
update_resolv_conf_info-body contents ns h = resolv_loop-body ns (text_lines contents) true [] h
