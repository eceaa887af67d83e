-- ===== src/EtcFiles/Hosts/Restore.antt =====
-- `RevertConfigInfo` undoes `UpdateHostsInfo`: the edit of the hosts file as lists of lines.
use lazyjack.Base.{
  ℕ, zero, suc, Bytes, List, [], ◌∷◌, ◌++◌, ◌≡◌, ◌≢◌, ◌⊎◌, refl, sym, ◌∙◌, ap, subst, true, false,
  Option, none, some, inl, inr, arith, if◌then◌else◌, All, All-append, Bool-cases, str, has_prefix,
  has_suffix, contains, trim_right, is_newline,
}
use lazyjack.Base.Split.{text_lines, unlines, unlines-append, Lacks, Closed}
use lazyjack.Base.Lines.{
  text_lines-Closed, text_lines-Lacks, text_lines-unlines, unlines-text_lines,
}
use lazyjack.Base.Affix.{has_suffix-append}
use lazyjack.EtcFiles.Edit.{
  added_tag, removed_tag, revert_config_info, Plain, Clean, Edit, revert-Edit, Edit-Ends,
  Ends-added,
}
use lazyjack.EtcFiles.Hosts.{
  NodeInfo, matching_node_index, node_at, set_seen, mark_entry, mark_node, hosts_mark, hosts_round,
  hosts_loop, added_host, missing_hosts, update_hosts_info,
}
use mathlib.Core.List.{append_assoc, append-nil}

-- A node whose entry is one line that is no comment.
pub record IsGood (node : NodeInfo) : Type 0 where
  pub plain_ip : has_prefix removed_tag (added_host node) ≡ false
  pub one_line : Lacks 10 (added_host node)

unfoldable pub marked : Bytes → List NodeInfo → Bytes
marked line n = (hosts_mark line n).0 ++ line

-- The lines that the first loop writes, and the nodes behind it.
unfoldable pub hosts_body : List Bytes → List NodeInfo → List Bytes
hosts_body [] n = []
hosts_body (line ∷ lines) n = marked line n ∷ hosts_body lines (hosts_mark line n).1

unfoldable pub hosts_nodes : List Bytes → List NodeInfo → List NodeInfo
hosts_nodes [] n = n
hosts_nodes (line ∷ lines) n = hosts_nodes lines (hosts_mark line n).1

unfoldable pub hosts_added : List NodeInfo → List Bytes
hosts_added [] = []
hosts_added (node ∷ n) =
    let rest = hosts_added n in if node.seen then rest else added_host node ∷ rest

hosts_loop-body :
    (lines : List Bytes) (n : List NodeInfo) (output : Bytes)
    → All Plain lines
    → hosts_loop lines (output, n) ≡ (output ++ unlines (hosts_body lines n), hosts_nodes lines n)
unfolding hosts_loop hosts_round hosts_body hosts_nodes unlines marked
hosts_loop-body [] n output h = rw append-nil
hosts_loop-body (line ∷ lines) n output ((p, s), h) =
    rw (s, hosts_loop-body lines (hosts_mark line n).1 _ h) (simp append_assoc)

missing_hosts-added :
    (n : List NodeInfo) (output : Bytes)
    → missing_hosts n output ≡ output ++ unlines (hosts_added n)
unfolding missing_hosts hosts_added unlines
missing_hosts-added [] output = sym (append-nil output)
missing_hosts-added (node ∷ n) output = elim (Bool-cases node.seen) [
  | inl e ↦ rw e (missing_hosts-added n output)
  | inr e ↦ rw (e, missing_hosts-added n) (simp append_assoc)
]

abbrev pub edited : List Bytes → List NodeInfo → List Bytes
edited lines n = hosts_body lines n ++ hosts_added (hosts_nodes lines n)

pub update_hosts_info-edited :
    (contents : Bytes) (n : List NodeInfo)
    → Clean contents
    → update_hosts_info contents n ≡ unlines (edited (text_lines contents) n)
unfolding update_hosts_info
update_hosts_info-edited contents n h =
    rw (hosts_loop-body (text_lines contents) n [] h, missing_hosts-added)
      (sym (unlines-append (hosts_body (text_lines contents) n) _))

mark_entry-cases :
    (line : Bytes) (n : List NodeInfo) (i : ℕ) (o : Option NodeInfo)
    → ((mark_entry line n i o).0 ≡ []) ⊎ ((mark_entry line n i o).0 ≡ removed_tag)
unfolding mark_entry
mark_entry-cases line n i none = inl refl
mark_entry-cases line n i (some node) = ground arith

mark_node-cases :
    (line : Bytes) (n : List NodeInfo) (i : Option ℕ)
    → ((mark_node line n i).0 ≡ []) ⊎ ((mark_node line n i).0 ≡ removed_tag)
unfolding mark_node
mark_node-cases line n none = inl refl
mark_node-cases line n (some i) = mark_entry-cases line n i (node_at n i)

hosts_mark-cases :
    (line : Bytes) (n : List NodeInfo)
    → ((hosts_mark line n).0 ≡ []) ⊎ ((hosts_mark line n).0 ≡ removed_tag)
unfolding hosts_mark
hosts_mark-cases line n = ground (arith, mark_node-cases line n (matching_node_index line n))

set_seen-IsGood : (n : List NodeInfo) (i : ℕ) → All IsGood n → All IsGood (set_seen n i)
set_seen-IsGood [] i h = tt
set_seen-IsGood (node ∷ n) zero (g, h) =
    (record { plain_ip = g.plain_ip; one_line = g.one_line }, h)
set_seen-IsGood (node ∷ n) (suc i) (g, h) = (g, set_seen-IsGood n i h)

mark_entry-IsGood :
    (line : Bytes) (n : List NodeInfo) (i : ℕ) (o : Option NodeInfo)
    → All IsGood n
    → All IsGood (mark_entry line n i o).1
unfolding mark_entry
mark_entry-IsGood line n i none h = h
mark_entry-IsGood line n i (some node) h = elim (Bool-cases (contains node.ip line)) [
  | inl e ↦ rw e (set_seen-IsGood n i h)
  | inr e ↦ rw e h
]

mark_node-IsGood :
    (line : Bytes) (n : List NodeInfo) (i : Option ℕ)
    → All IsGood n
    → All IsGood (mark_node line n i).1
unfolding mark_node
mark_node-IsGood line n none h = h
mark_node-IsGood line n (some i) h = mark_entry-IsGood line n i (node_at n i) h

hosts_mark-IsGood :
    (line : Bytes) (n : List NodeInfo) → All IsGood n → All IsGood (hosts_mark line n).1
unfolding hosts_mark
hosts_mark-IsGood line n h = elim (Bool-cases (has_prefix (str "#") line)) [
  | inl e ↦ rw e h
  | inr e ↦ rw e (mark_node-IsGood line n (matching_node_index line n) h)
]

added_host-suffix : (node : NodeInfo) → has_suffix added_tag (added_host node) ≡ true
added_host-suffix node = has_suffix-append added_tag (node.ip ++ str " " ++ node.name)

hosts_added-Edit : (n : List NodeInfo) → All IsGood n → Edit [] (hosts_added n)
unfolding hosts_added
hosts_added-Edit [] h = Edit.done
hosts_added-Edit (node ∷ n) (g, h) = elim (Bool-cases node.seen) [
  | inl e ↦ rw e (hosts_added-Edit n h)
  | inr e ↦ rw e (Edit.add g.plain_ip (added_host-suffix node) (hosts_added-Edit n h))
]

edited-Edit :
    (lines : List Bytes) (n : List NodeInfo)
    → All Plain lines
    → All IsGood n
    → Edit lines (edited lines n)
unfolding hosts_body hosts_nodes marked
edited-Edit [] n hs h = hosts_added-Edit n h
edited-Edit (line ∷ lines) n (p, hs) h =
    let rest = edited-Edit lines (hosts_mark line n).1 hs (hosts_mark-IsGood line n h) in
    elim (hosts_mark-cases line n) [
      | inl e ↦ rw e (Edit.keep p rest)
      | inr e ↦ rw e (Edit.comment p refl rest)
    ]

marked-Lacks : (line : Bytes) (n : List NodeInfo) → Lacks 10 line → Lacks 10 (marked line n)
unfolding marked str
marked-Lacks line n h = elim (hosts_mark-cases line n) [
  | inl e ↦ rw e h
  | inr e ↦ rw e (All-append (λ c. c ≢ 10) removed_tag line (omega arith) h)
]

edited-Lacks :
    (lines : List Bytes) (n : List NodeInfo)
    → All (Lacks 10) lines
    → All IsGood n
    → All (Lacks 10) (edited lines n)
unfolding hosts_body hosts_nodes hosts_added
edited-Lacks [] [] hs h = tt
edited-Lacks [] (node ∷ n) hs (g, h) = elim (Bool-cases node.seen) [
  | inl e ↦ rw e (edited-Lacks [] n tt h)
  | inr e ↦ rw e (g.one_line, edited-Lacks [] n tt h)
]
edited-Lacks (line ∷ lines) n (hl, hs) h = (
  marked-Lacks line n hl,
  edited-Lacks lines (hosts_mark line n).1 hs (hosts_mark-IsGood line n h),
)

-- The edit of a file without content: its only line stays or is tagged, and entries follow.
edited-Closed_blank : (n : List NodeInfo) → All IsGood n → Closed (edited ([] ∷ []) n)
unfolding hosts_body hosts_nodes marked
edited-Closed_blank n h =
    step (hosts_mark [] n).0 _ (hosts_mark-cases [] n)
      (hosts_added-Edit _ (hosts_mark-IsGood [] n h))
  where
    step :
        (m : Bytes) (ms : List Bytes)
        → (m ≡ []) ⊎ (m ≡ removed_tag)
        → Edit [] ms
        → Closed ((m ++ []) ∷ ms)
    step m [] (inl e) d = inl (rw e)
    step m [] (inr e) d = inr (rw e (λ z. unfold str in cc))
    step m (k ∷ ms) e d = inr (Ends-added k ms d)

edited-Closed :
    (lines : List Bytes) (n : List NodeInfo)
    → All Plain lines
    → All IsGood n
    → Closed lines
    → Closed (edited lines n)
edited-Closed lines n hs h (inl e) =
    subst (λ ls. Closed (edited ls n)) (sym e) (edited-Closed_blank n h)
edited-Closed lines n hs h (inr e) = inr (Edit-Ends (edited-Edit lines n hs h) e)

-- The lines of the updated file.
pub text_lines-update_hosts_info :
    (contents : Bytes) (n : List NodeInfo)
    → Clean contents
    → All IsGood n
    → text_lines (update_hosts_info contents n) ≡ edited (text_lines contents) n
text_lines-update_hosts_info contents n clean h = rw (update_hosts_info-edited contents n clean) (
    text_lines-unlines _ (edited-Lacks (text_lines contents) n (text_lines-Lacks contents) h)
      (edited-Closed (text_lines contents) n clean h (text_lines-Closed contents)))

-- For a file that has no tags, cleaning up after preparing gives the file back, with exactly one
-- newline at its end. The nodes' entries must be single lines that do not begin with the tag of
-- a replaced line.
pub revert_config_info-update_hosts_info :
    (contents : Bytes) (n : List NodeInfo)
    → Clean contents
    → All IsGood n
    → revert_config_info (update_hosts_info contents n) ≡ trim_right is_newline contents ++ 10 ∷ []
revert_config_info-update_hosts_info contents n clean h =
    let lines = text_lines contents in
    ap revert_config_info (update_hosts_info-edited contents n clean)
    ∙ revert-Edit (edited-Edit lines n clean h) (edited-Lacks lines n (text_lines-Lacks contents) h)
        (edited-Closed lines n clean h (text_lines-Closed contents))
    ∙ unlines-text_lines contents
