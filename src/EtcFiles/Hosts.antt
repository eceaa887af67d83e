-- ===== src/EtcFiles/Hosts.antt =====
-- prepare.go: `MatchingNodeIndex` and `UpdateHostsInfo`, the edit of /etc/hosts.
pub mod Restore
pub mod Entries
pub mod Lists
use lazyjack.Base.{
  ℕ, zero, suc, Bytes, List, [], ◌∷◌, ◌++◌, Bool, true, false, Option, none, some, if◌then◌else◌,
  str, has_prefix, has_suffix, contains,
}
use lazyjack.Base.Split.{text_lines}
use lazyjack.EtcFiles.Edit.{added_tag, removed_tag}
use mathlib.Core.Option

pub record NodeInfo : Type 0 where
  pub name : Bytes
  pub ip : Bytes
  pub seen : Bool

-- The index of the first node whose name stands in the line; `none` is -1.
unfoldable pub matching_node_index : Bytes → List NodeInfo → Option ℕ
matching_node_index line [] = none
matching_node_index line (node ∷ n) =
    if contains node.name line then some zero else Option.map suc (matching_node_index line n)

abbrev pub node_at : List NodeInfo → ℕ → Option NodeInfo
node_at [] i = none
node_at (node ∷ n) zero = some node
node_at (node ∷ n) (suc i) = node_at n i

-- `n[i].Seen = true`
abbrev pub set_seen : List NodeInfo → ℕ → List NodeInfo
set_seen [] i = []
set_seen (node ∷ n) zero = record node { seen = true } ∷ n
set_seen (node ∷ n) (suc i) = node ∷ set_seen n i

-- What is written before a line that names the node at an index, and the nodes after it.
mark_entry : Bytes → List NodeInfo → ℕ → Option NodeInfo → Bytes × List NodeInfo
mark_entry line n i none = ([], n)
mark_entry line n i (some node) =
    if contains node.ip line then ([], set_seen n i) else (removed_tag, n)

mark_node : Bytes → List NodeInfo → Option ℕ → Bytes × List NodeInfo
unfolding mark_entry
mark_node line n none = ([], n)
mark_node line n (some i) = mark_entry line n i (node_at n i)

pub hosts_mark : Bytes → List NodeInfo → Bytes × List NodeInfo
hosts_mark line n =
    if has_prefix (str "#") line then ([], n) else mark_node line n (matching_node_index line n)

-- A round of the loop over the lines.
hosts_round : Bytes → Bytes × List NodeInfo → Bytes × List NodeInfo
hosts_round line (output, n) =
    let (mark, n') = hosts_mark line n in
    if has_suffix added_tag line then (output, n) else (output ++ (mark ++ line ++ 10 ∷ []), n')

hosts_loop : List Bytes → Bytes × List NodeInfo → Bytes × List NodeInfo
hosts_loop [] st = st
hosts_loop (line ∷ lines) st = hosts_loop lines (hosts_round line st)

abbrev pub added_host : NodeInfo → Bytes
added_host node = node.ip ++ str " " ++ node.name ++ added_tag

-- The loop that creates missing entries.
missing_hosts : List NodeInfo → Bytes → Bytes
missing_hosts [] output = output
missing_hosts (node ∷ n) output =
    missing_hosts n (if node.seen then output else output ++ (added_host node ++ 10 ∷ []))

unfoldable pub update_hosts_info : Bytes → List NodeInfo → Bytes
unfolding hosts_loop missing_hosts hosts_round hosts_mark mark_node
update_hosts_info contents n =
    let (output, n') = hosts_loop (text_lines contents) ([], n) in missing_hosts n' output
