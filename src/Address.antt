-- ===== src/Address.antt =====
-- networker.go and plugin.go: the addresses that are built from a prefix and a node's ID.
pub mod Hosts
pub mod Distinct
use lazyjack.Base.{
  ℕ, ◌%◌, Bytes, List, [], ◌∷◌, ◌++◌, not, ◌&&◌, if◌then◌else◌, ◌==◌, ℤ, lt_nat, mul_int, show_int,
  show_hex, show_nat, str, eq_str, has_suffix, Result, ok, panic,
}
use lazyjack.Base.Split.{split}
use lazyjack.Config.{NetInfo, ipv6_net_mode, ipv4_net_mode}

unfoldable pub build_node_cidr : NetInfo → ℤ → Bytes
build_node_cidr info node =
    if eq_str info.mode ipv6_net_mode
    then info.prefix ++ show_hex node ++ str "/" ++ show_nat info.size
    else info.prefix ++ show_int node ++ str "/" ++ show_nat info.size

unfoldable pub build_gw_ip : Bytes → ℤ → Bytes
build_gw_ip prefix intf_part = prefix ++ show_hex intf_part

-- `parts[0]` and `parts[1]` panic if there are fewer parts.
v4_subnet : ℤ → List Bytes → Result (Bytes × Bytes)
v4_subnet node_id (a ∷ b ∷ _) =
    ok (a ++ str "." ++ b ++ str "." ++ show_int node_id ++ str ".", str "0")
v4_subnet node_id _ = panic

v6_subnet : Bytes → ℕ → ℤ → Bytes
v6_subnet prefix net_size node_id =
    if not (net_size % 16 == 0)
    then prefix ++ show_hex (mul_int node_id 256) ++ str "::"
    else if not (has_suffix (str ":") prefix) && lt_nat node_id 0x10
    then prefix ++ str "0" ++ show_hex node_id ++ str "::"
    else prefix ++ show_hex node_id ++ str "::"

unfoldable pub build_pod_subnet_prefix : Bytes → Bytes → ℕ → ℤ → Result (Bytes × Bytes)
unfolding v4_subnet v6_subnet
build_pod_subnet_prefix mode prefix net_size node_id =
    if eq_str mode ipv4_net_mode
    then v4_subnet node_id (split b'.' prefix)
    else ok (v6_subnet prefix net_size node_id, [])
