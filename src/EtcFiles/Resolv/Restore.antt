-- ===== src/EtcFiles/Resolv/Restore.antt =====
-- What `UpdateResolvConfInfo` writes, and that `RevertConfigInfo` undoes it.
use lazyjack.Base.{
  Bytes, List, [], ◌∷◌, ◌++◌, ◌≡◌, ◌≢◌, refl, sym, ◌∙◌, ap, subst, Bool, true, false, inl, inr,
  arith, All, All-append, Bool-cases, str, has_prefix, has_suffix, contains, trim_right, is_newline,
}
use lazyjack.Base.Split.{text_lines, Lacks, Closed}
use lazyjack.Base.Lines.{
  text_lines-Closed, text_lines-Lacks, unlines-text_lines, text_lines-unlines,
}
use lazyjack.Base.Affix.{has_suffix-append}
use lazyjack.EtcFiles.Edit.{
  added_tag, removed_tag, revert_config_info, Plain, Clean, Edit, revert-Edit, Edit-Ends,
}
use lazyjack.EtcFiles.Resolv.{nameserver_key, added_server, update_resolv_conf_info}
use lazyjack.EtcFiles.Resolv.Body.{server_lines, resolv_body, update_resolv_conf_info-body}

added_server-prefix : (ns : Bytes) → has_prefix removed_tag (added_server ns) ≡ false
unfolding str has_prefix
added_server-prefix ns = refl

pub added_server-suffix : (ns : Bytes) → has_suffix added_tag (added_server ns) ≡ true
added_server-suffix ns = has_suffix-append added_tag (str "nameserver " ++ ns)

server_lines-Edit :
    (ns line : Bytes) (first matches : Bool) {ls ms : List Bytes}
    → Plain line
    → Edit ls ms
    → Edit (line ∷ ls) (server_lines ns line first matches ++ ms)
unfolding server_lines
server_lines-Edit ns line true true p e = Edit.keep p e
server_lines-Edit ns line true false p e =
    Edit.add (added_server-prefix ns) (added_server-suffix ns) (Edit.keep p e)
server_lines-Edit ns line false true p e = Edit.comment p refl e
server_lines-Edit ns line false false p e = Edit.keep p e

resolv_body-Edit :
    (ns : Bytes) (first : Bool) (lines : List Bytes)
    → All Plain lines
    → Edit lines (resolv_body ns first lines)
unfolding resolv_body
resolv_body-Edit ns true [] h = Edit.add (added_server-prefix ns) (added_server-suffix ns) Edit.done
resolv_body-Edit ns false [] h = Edit.done
resolv_body-Edit ns first (line ∷ lines) (p, h) =
    elim (Bool-cases (has_prefix nameserver_key line)) [
      | inl e ↦
          rw e (
            server_lines-Edit ns line first (contains ns line) p
              (resolv_body-Edit ns false lines h))
      | inr e ↦ rw e (Edit.keep p (resolv_body-Edit ns first lines h))
    ]

added_server-Lacks : (ns : Bytes) → Lacks 10 ns → Lacks 10 (added_server ns)
unfolding str
added_server-Lacks ns h =
    All-append (λ c. c ≢ 10) (str "nameserver " ++ ns) added_tag
      (All-append (λ c. c ≢ 10) (str "nameserver ") ns (omega arith) h) (omega arith)

server_lines-Lacks :
    (ns line : Bytes) (first matches : Bool) (ms : List Bytes)
    → Lacks 10 ns
    → Lacks 10 line
    → All (Lacks 10) ms
    → All (Lacks 10) (server_lines ns line first matches ++ ms)
unfolding server_lines str
server_lines-Lacks ns line true true ms hn hl h = (hl, h)
server_lines-Lacks ns line true false ms hn hl h = (added_server-Lacks ns hn, (hl, h))
server_lines-Lacks ns line false true ms hn hl h =
    (All-append (λ c. c ≢ 10) removed_tag line (omega arith) hl, h)
server_lines-Lacks ns line false false ms hn hl h = (hl, h)

resolv_body-Lacks :
    (ns : Bytes) (first : Bool) (lines : List Bytes)
    → Lacks 10 ns
    → All (Lacks 10) lines
    → All (Lacks 10) (resolv_body ns first lines)
unfolding resolv_body
resolv_body-Lacks ns true [] hn h = (added_server-Lacks ns hn, tt)
resolv_body-Lacks ns false [] hn h = tt
resolv_body-Lacks ns first (line ∷ lines) hn (hl, h) =
    elim (Bool-cases (has_prefix nameserver_key line)) [
      | inl e ↦ rw e (
          server_lines-Lacks ns line first (contains ns line) _ hn hl
            (resolv_body-Lacks ns false lines hn h))
      | inr e ↦ rw e (hl, resolv_body-Lacks ns first lines hn h)
    ]

blank-Closed : (ns : Bytes) → Closed (resolv_body ns true ([] ∷ []))
unfolding resolv_body str has_prefix
blank-Closed ns = inr (λ z. cc)

resolv_body-Closed :
    (ns : Bytes) (lines : List Bytes)
    → All Plain lines
    → Closed lines
    → Closed (resolv_body ns true lines)
resolv_body-Closed ns lines h (inl e) =
    subst (λ ls. Closed (resolv_body ns true ls)) (sym e) (blank-Closed ns)
resolv_body-Closed ns lines h (inr e) = inr (Edit-Ends (resolv_body-Edit ns true lines h) e)

pub body_lines-Lacks :
    (contents ns : Bytes) → Lacks 10 ns → All (Lacks 10) (resolv_body ns true (text_lines contents))
body_lines-Lacks contents ns h = resolv_body-Lacks ns true _ h (text_lines-Lacks contents)

-- The lines of the updated file.
pub text_lines-update_resolv_conf_info :
    (contents ns : Bytes)
    → Clean contents
    → Lacks 10 ns
    → text_lines (update_resolv_conf_info contents ns) ≡ resolv_body ns true (text_lines contents)
text_lines-update_resolv_conf_info contents ns clean h =
    rw (update_resolv_conf_info-body contents ns clean) (
      text_lines-unlines _ (body_lines-Lacks contents ns h)
        (resolv_body-Closed ns _ clean (text_lines-Closed contents)))

-- For a file that has no tags, cleaning up after preparing gives the file back, with exactly
-- one newline at its end. The name server must hold no newline.
pub revert_config_info-update_resolv_conf_info :
    (contents ns : Bytes)
    → Clean contents
    → Lacks 10 ns
    → revert_config_info (update_resolv_conf_info contents ns)
      ≡ trim_right is_newline contents ++ 10 ∷ []
revert_config_info-update_resolv_conf_info contents ns clean h =
    ap revert_config_info (update_resolv_conf_info-body contents ns clean)
    ∙ revert-Edit (resolv_body-Edit ns true _ clean) (body_lines-Lacks contents ns h)
        (resolv_body-Closed ns _ clean (text_lines-Closed contents))
    ∙ unlines-text_lines contents
