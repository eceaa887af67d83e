-- ===== src/Prepare/Etc/Listed.antt =====
-- /etc/hosts behind its preparation.
use lazyjack.Base.{
  Bytes, List, [], ◌∷◌, ◌≡◌, ◌≢◌, refl, false, All, Bool-cases, inl, inr, Option, some, map, lt_str,
  ok,
}
use lazyjack.Base.Split.{text_lines}
use lazyjack.World.{Os}
use lazyjack.World.Path.{join_path}
use lazyjack.Files.{get_file_contents}
use lazyjack.Files.Laws.{FileLaws}
use lazyjack.Files.Edited.{get_file_contents-content, edit_file-content}
use lazyjack.Config.{Config, Node, etc_hosts_file, etc_hosts_backup_file}
use lazyjack.EtcFiles.Edit.{Clean}
use lazyjack.EtcFiles.Hosts.{NodeInfo, update_hosts_info}
use lazyjack.EtcFiles.Hosts.Entries.{Listed}
use lazyjack.EtcFiles.Hosts.Restore.{IsGood}
use lazyjack.EtcFiles.Hosts.Lists.{update_hosts_info-Listed}
use lazyjack.Prepare.Etc.Unique.{sort_nodes-All}
use lazyjack.Prepare.Etc.{
  hosts_prefix, node_info, insert_node, sort_nodes, build_node_info, add_host_entries,
}

module _ (P : NodeInfo → Type 0) where
  insert_node-parts : (a : NodeInfo) (n : List NodeInfo) → All P (insert_node a n) → P a × All P n
  unfolding insert_node
  insert_node-parts a [] (p, _) = (p, tt)
  insert_node-parts a (b ∷ n) h = elim (Bool-cases (lt_str b.name a.name)) [
    | inl e ↦ let (q, r) = rw e at h in let (p, s) = insert_node-parts a n r in (p, (q, s))
    | inr e ↦ let (p, r) = rw e at h in (p, r)
  ]

  sort_nodes-parts : (n : List NodeInfo) → All P (sort_nodes n) → All P n
  unfolding sort_nodes
  sort_nodes-parts [] h = tt
  sort_nodes-parts (a ∷ n) h =
      let (p, r) = insert_node-parts a (sort_nodes n) h in (p, sort_nodes-parts n r)

  map-parts :
      {A : Type 0} (f : A → NodeInfo) (xs : List A) → All P (map f xs) → All (λ x. P (f x)) xs
  map-parts f [] h = tt
  map-parts f (x ∷ xs) (p, h) = (p, map-parts f xs h)

  map-whole :
      {A : Type 0} (f : A → NodeInfo) (xs : List A) → All (λ x. P (f x)) xs → All P (map f xs)
  map-whole f [] h = tt
  map-whole f (x ∷ xs) (p, h) = (p, map-whole f xs h)

All-unseen :
    (prefix : Bytes) (nodes : List (Bytes × Node))
    → All (λ x. (node_info prefix x).seen ≡ false) nodes
All-unseen prefix [] = tt
All-unseen prefix ((name, n) ∷ nodes) = (refl, All-unseen prefix nodes)

-- The entry of a node of the configuration.
abbrev pub host_of : Config → Bytes × Node → NodeInfo
host_of c x = node_info (hosts_prefix c) x

module _ (o : Os) (content : Bytes → o.World → Option Bytes) (L : FileLaws o content) where
  -- If preparing /etc/hosts succeeds, the file has afterwards for every node of the configuration the
  -- line with its address, its name and the tag; or a line that is no comment, contains the texts of its
  -- name and its address, stood in the file before, and still does. The file must have had no tags, every node's
  -- entry must be one line that does not begin with the tag of a replaced line, and the file and its backup must be two paths.
  pub add_host_entries-Listed :
      (c : Config) (old : Bytes) (w w1 : o.World)
      → join_path c.general.etc_area etc_hosts_file
        ≢ join_path c.general.etc_area etc_hosts_backup_file
      → content (join_path c.general.etc_area etc_hosts_file) w ≡ some old
      → Clean old
      → All (λ x. IsGood (host_of c x)) c.topology
      → add_host_entries o c w ≡ (ok tt, w1)
      → (new : Bytes) × (content (join_path c.general.etc_area etc_hosts_file) w1 ≡ some new)
        × All (λ x. Listed (text_lines old) (text_lines new) x.0 (host_of c x).ip) c.topology
  unfolding add_host_entries build_node_info
  add_host_entries-Listed c old w w1 ne e clean good h =
      let file = join_path c.general.etc_area etc_hosts_file in
      let backup = join_path c.general.etc_area etc_hosts_backup_file in
      let info = node_info (hosts_prefix c) in
      let nodes = build_node_info c in
      let new = update_hosts_info old nodes in
      let edit =
        edit_file-content o content L (get_file_contents o file) (λ d. update_hosts_info d nodes)
          file backup old w w1 ne (λ d. get_file_contents-content o content L file old d w e) h in
      let Unseen = λ (n : NodeInfo). n.seen ≡ false in
      let listed =
        update_hosts_info-Listed old nodes clean
          (sort_nodes-All Unseen (map info c.topology)
            (map-whole Unseen info c.topology (All-unseen (hosts_prefix c) c.topology)))
          (sort_nodes-All IsGood (map info c.topology) (map-whole IsGood info c.topology good)) in
      let Lists = λ (n : NodeInfo). Listed (text_lines old) (text_lines new) n.name n.ip in
      (
        new,
        edit,
        map-parts Lists info c.topology (sort_nodes-parts Lists (map info c.topology) listed),
      )
