-- ===== src/EtcFiles/Hosts/Lists.antt =====
-- The lines that `UpdateHostsInfo` leaves for the nodes.
use lazyjack.Base.{
  ℕ, zero, suc, Bytes, List, [], ◌∷◌, ◌++◌, ◌≡◌, ◌↔◌, inl, inr, refl, sym, subst, true, false,
  Option, none, some, All, Bool-cases, str, has_prefix, contains,
}
use lazyjack.Base.Split.{text_lines}
use lazyjack.EtcFiles.Edit.{Clean}
use lazyjack.EtcFiles.Hosts.{
  NodeInfo, matching_node_index, node_at, set_seen, mark_entry, mark_node, hosts_mark,
  update_hosts_info,
}
use lazyjack.EtcFiles.Hosts.Entries.{
  Among, Among-All, IsKept, Listed, All-parts, some_eq, matching_node_index-contains,
}
use lazyjack.EtcFiles.Hosts.Restore.{
  IsGood, marked, hosts_body, hosts_nodes, hosts_added, edited, text_lines-update_hosts_info,
}

-- What depends on the names and addresses alone is not changed by a mark.
module _ (P : Bytes → Bytes → Type 0) where
  AllNodes : List NodeInfo → Type 0
  AllNodes n = All (λ node. P node.name node.ip) n

  set_seen-AllNodes : (n : List NodeInfo) (i : ℕ) → AllNodes (set_seen n i) ↔ AllNodes n
  unfolding AllNodes
  set_seen-AllNodes [] i = (λ h. h, λ h. h)
  set_seen-AllNodes (a ∷ n) zero = (λ (p, h). (p, h), λ (p, h). (p, h))
  set_seen-AllNodes (a ∷ n) (suc i) =
      let ih = set_seen-AllNodes n i in (λ (p, h). (p, ih.0 h), λ (p, h). (p, ih.1 h))

  mark_entry-AllNodes :
      (line : Bytes) (n : List NodeInfo) (i : ℕ) (o : Option NodeInfo)
      → AllNodes (mark_entry line n i o).1 ↔ AllNodes n
  unfolding mark_entry
  mark_entry-AllNodes line n i none = (λ h. h, λ h. h)
  mark_entry-AllNodes line n i (some node) = elim (Bool-cases (contains node.ip line)) [
    | inl e ↦ rw e (set_seen-AllNodes n i)
    | inr e ↦ rw e (λ h. h, λ h. h)
  ]

  hosts_mark-AllNodes :
      (line : Bytes) (n : List NodeInfo) → AllNodes (hosts_mark line n).1 ↔ AllNodes n
  unfolding hosts_mark mark_node
  hosts_mark-AllNodes line n = elim (Bool-cases (has_prefix (str "#") line)) [
    | inl e ↦ rw e (λ h. h, λ h. h)
    | inr e ↦ rw e (by_index (matching_node_index line n))
  ]
    where
      by_index : (i : Option ℕ) → AllNodes (mark_node line n i).1 ↔ AllNodes n
      by_index none = (λ h. h, λ h. h)
      by_index (some i) = mark_entry-AllNodes line n i (node_at n i)

  hosts_nodes-AllNodes :
      (lines : List Bytes) (n : List NodeInfo) → AllNodes (hosts_nodes lines n) ↔ AllNodes n
  unfolding hosts_nodes
  hosts_nodes-AllNodes [] n = (λ h. h, λ h. h)
  hosts_nodes-AllNodes (line ∷ lines) n =
      let here = hosts_mark-AllNodes line n in
      let rest = hosts_nodes-AllNodes lines (hosts_mark line n).1 in
      (λ h. here.0 (rest.0 h), λ h. rest.1 (here.1 h))

module _ (old new : List Bytes) where
  -- A node that is marked as seen has an entry that was kept.
  abbrev SeenKept : NodeInfo → Type 0
  SeenKept node = node.seen ≡ true → IsKept old new node.name node.ip

  unseen-SeenKept : (n : List NodeInfo) → All (λ node. node.seen ≡ false) n → All SeenKept n
  unseen-SeenKept [] h = tt
  unseen-SeenKept (node ∷ n) (e, h) = (λ t. absurd (cc (e, t)), unseen-SeenKept n h)

  set_seen-SeenKept :
      (n : List NodeInfo) (i : ℕ) (node : NodeInfo)
      → node_at n i ≡ some node
      → IsKept old new node.name node.ip
      → All SeenKept n
      → All SeenKept (set_seen n i)
  set_seen-SeenKept [] i node e l h = h
  set_seen-SeenKept (a ∷ n) zero node e l (p, h) =
      (λ _. subst (λ (b : NodeInfo). IsKept old new b.name b.ip) (sym (some_eq e)) l, h)
  set_seen-SeenKept (a ∷ n) (suc i) node e l (p, h) = (p, set_seen-SeenKept n i node e l h)

  hosts_mark-SeenKept :
      (line : Bytes) (n : List NodeInfo)
      → Among line old
      → Among (marked line n) new
      → All SeenKept n
      → All SeenKept (hosts_mark line n).1
  unfolding hosts_mark mark_node mark_entry marked
  hosts_mark-SeenKept line n was c h = elim (Bool-cases (has_prefix (str "#") line)) [
    | inl e ↦ rw e h
    | inr e ↦ rw e (by_index e (matching_node_index line n) refl (rw e at c))
  ]
    where
      by_node :
          has_prefix (str "#") line ≡ false
          → (i : ℕ) → matching_node_index line n ≡ some i
          → (o : Option NodeInfo) → node_at n i ≡ o
          → Among ((mark_entry line n i o).0 ++ line) new
          → All SeenKept (mark_entry line n i o).1
      by_node plain i e none f c = h
      by_node plain i e (some node) f c = elim (Bool-cases (contains node.ip line)) [
        | inl g ↦
            let kept : IsKept old new node.name node.ip = record {
              entry = line;
              was = was;
              stays = rw g at c;
              is_entry = record {
                has_name = matching_node_index-contains line n i node e f;
                has_ip = g;
                no_comment = plain;
              };
            } in
            rw g (set_seen-SeenKept n i node f kept h)
        | inr g ↦ rw g h
      ]

      by_index :
          has_prefix (str "#") line ≡ false
          → (i : Option ℕ) → matching_node_index line n ≡ i
          → Among ((mark_node line n i).0 ++ line) new
          → All SeenKept (mark_node line n i).1
      by_index plain none e c = h
      by_index plain (some i) e c = by_node plain i e (node_at n i) refl c

  hosts_nodes-SeenKept :
      (ls : List Bytes) (n : List NodeInfo)
      → All (λ l. Among l old) ls
      → All (λ l. Among l new) (hosts_body ls n)
      → All SeenKept n
      → All SeenKept (hosts_nodes ls n)
  unfolding hosts_body hosts_nodes
  hosts_nodes-SeenKept [] n b c h = h
  hosts_nodes-SeenKept (l ∷ ls) n (b, bs) (c, cs) h =
      hosts_nodes-SeenKept ls (hosts_mark l n).1 bs cs (hosts_mark-SeenKept l n b c h)

  hosts_added-Listed :
      (n : List NodeInfo)
      → All (λ l. Among l new) (hosts_added n)
      → All SeenKept n
      → All (λ node. Listed old new node.name node.ip) n
  unfolding hosts_added
  hosts_added-Listed [] c h = tt
  hosts_added-Listed (node ∷ n) c (s, h) = elim (Bool-cases node.seen) [
    | inl e ↦ (inr (s e), hosts_added-Listed n (rw e at c) h)
    | inr e ↦ let (a, as') = rw e at c in (inl a, hosts_added-Listed n as' h)
  ]

-- Behind the edit of an untagged hosts file, every node has the line with its address, its name and
-- the tag; or a line that is no comment, contains the texts of its name and its address, stood in
-- the file before, and still does. No node may be marked as seen before, and every node's entry must
-- be one line that does not begin with the tag of a replaced line.
pub update_hosts_info-Listed :
    (contents : Bytes) (n : List NodeInfo)
    → Clean contents
    → All (λ node. node.seen ≡ false) n
    → All IsGood n
    → All
        (λ node.
          Listed
            (text_lines contents)
            (text_lines (update_hosts_info contents n))
            node.name
            node.ip)
        n
unfolding AllNodes
update_hosts_info-Listed contents n clean unseen good =
    let ls = text_lines contents in
    let lines = edited ls n in
    let (body, added) =
      All-parts (λ l. Among l lines) (hosts_body ls n) (hosts_added (hosts_nodes ls n))
        (Among-All lines) in
    let seen =
      hosts_nodes-SeenKept ls lines ls n (Among-All ls) body (unseen-SeenKept ls lines n unseen) in
    let listed = hosts_added-Listed ls lines (hosts_nodes ls n) added seen in
    rw (text_lines-update_hosts_info contents n clean good)
      ((hosts_nodes-AllNodes (λ name ip. Listed ls lines name ip) ls n).0 listed)
