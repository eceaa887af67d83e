-- ===== src/Validate/Topology.antt =====
-- `ValidateUniqueIDs`, `ValidateNodeOpModes` and `ValidateOpModesForAllNodes`.
pub mod Ids
pub mod Modes
pub mod Master
pub mod Roles
use lazyjack.Base.{
  ℕ, ◌+◌, Bytes, List, [], ◌∷◌, ◌++◌, Bool, true, false, not, ◌&&◌, ◌||◌, Option, none, some, ltb,
  if◌then◌else◌, ◌==◌, ℤ, eq_int, show_int, str, eq_str, equal_fold, quote, Result, ok, err, panic,
  Done, M, ◌>>=◌, ◌>>◌, pure, fail, lift, get, modify, when, zoom, follow,
}
use lazyjack.Base.Split.{split}
use lazyjack.Config.{Config, Node, ipv6_net_mode, put}

-- The map from IDs to the first node that has them.
abbrev pub IdMap : Type 0
IdMap = List (ℤ × Bytes)

unfoldable pub seen_id : ℤ → IdMap → Option Bytes
seen_id k [] = none
seen_id k ((j, name) ∷ ids) = if eq_int j k then some name else seen_id k ids

-- What follows the look-up of a node's ID; `more` is the rest of the loop.
ids_next : Bytes → Node → Option Bytes → Result Done → Result Done
ids_next name node none more = more
ids_next name node (some first) more = err (
    str "duplicate node ID "
    ++ show_int node.id
    ++ str " seen for node "
    ++ quote first
    ++ str " and "
    ++ quote name)

ids_loop : List (Bytes × Node) → IdMap → Result Done
unfolding seen_id ids_next
ids_loop [] ids = ok tt
ids_loop ((name, node) ∷ rest) ids =
    ids_next name node (seen_id node.id ids) (ids_loop rest ((node.id, name) ∷ ids))

unfoldable pub validate_unique_ids : Config → Result Done
unfolding ids_loop
validate_unique_ids c = ids_loop c.topology []

-- The flag that a valid mode sets.
set_mode : Bytes → Node → Node
set_mode m node =
    if eq_str m (str "master")
    then record node { is_master = true }
    else if eq_str m (str "dns64")
    then record node { is_dns64_server = true }
    else if eq_str m (str "nat64")
    then record node { is_nat64_server = true }
    else record node { is_minion = true }

-- The loop over the valid modes, with `found` and the node.
match_round : Bytes → Bytes → Bool × Node → Bool × Node
unfolding set_mode
match_round m op (found, node) = if equal_fold m op then (true, set_mode m node) else (found, node)

match_modes : List Bytes → Bytes → Bool × Node → Bool × Node
unfolding match_round
match_modes [] op st = st
match_modes (m ∷ ms) op st = match_modes ms op (match_round m op st)

abbrev pub valid_modes : Bytes → List Bytes
valid_modes net_mode =
    let base = str "master" ∷ str "minion" ∷ [] in
    if eq_str net_mode ipv6_net_mode then base ++ str "dns64" ∷ str "nat64" ∷ [] else base

-- The loop over the operating modes; the result is `anyModes`.
ops_loop : List Bytes → List Bytes → Bool → M Node Bool
unfolding match_modes
ops_loop modes [] any_modes node = (ok any_modes, node)
ops_loop modes ([] ∷ ops) any_modes node = ops_loop modes ops any_modes node
ops_loop modes ((b ∷ op) ∷ ops) any_modes node =
    let (found, node') = match_modes modes (b ∷ op) (false, node) in
    let rest = ops_loop modes ops true node' in
    if found then rest else (
      err (str "invalid operating mode " ++ quote (b ∷ op) ++ str " for " ++ quote node'.name),
      node',
    )

-- The checks behind the loop.
check_modes : Bool → Node → Result Done
check_modes any_modes node =
    if not any_modes
    then err (str "missing operating mode for " ++ quote node.name)
    else if node.is_master && node.is_minion
    then err (str "invalid combination of modes for " ++ quote node.name)
    else if node.is_dns64_server && not node.is_nat64_server
    then err (str "missing " ++ quote (str "nat64") ++ str " mode for " ++ quote node.name)
    else if not node.is_dns64_server && node.is_nat64_server
    then err (str "missing " ++ quote (str "dns64") ++ str " mode for " ++ quote node.name)
    else ok tt

unfoldable pub validate_node_op_modes : Bytes → M Node Done
unfolding ops_loop check_modes
validate_node_op_modes net_mode = do
  n ← get
  any_modes ← ops_loop (valid_modes net_mode) (split b' ' n.operating_modes) false
  node ← get
  lift (check_modes any_modes node)

abbrev too_many : Bytes
too_many = str "found multiple nodes with \"master\" operating mode"

abbrev pub store_node : Bytes → Node → Config → Config
store_node name node c = record c { topology = put name node c.topology }

-- A round of the loop over the map: what follows the check of the node. The count is `numMasters`.
masters_next : Bytes → Node → ℕ → Result Done → M Config ℕ
masters_next name node num (ok _) c =
    let num' = if node.is_master then num + 1 else num in
    if ltb 1 num' then (err too_many, c) else (ok num', store_node name node c)
masters_next name node num (err e) c = (err e, c)
masters_next name node num panic c = (panic, c)

masters_round : Bytes → Node → ℕ → M Config ℕ
unfolding masters_next
masters_round name node num c =
    let (r, node') = validate_node_op_modes c.general.mode (record node { name = name }) in
    masters_next name node' num r c

masters_loop : List (Bytes × Node) → ℕ → M Config ℕ
unfolding masters_round
masters_loop [] num = pure num
masters_loop ((name, node) ∷ rest) num = masters_round name node num >>= masters_loop rest

unfoldable pub validate_op_modes_for_all_nodes : M Config Done
unfolding masters_loop
validate_op_modes_for_all_nodes = do
  c ← get
  num ← masters_loop c.topology 0
  lift (if num == 0 then err (str "no master node configuration") else ok tt)
