-- ===== src/Plugin/Content.antt =====
-- The contents of the CNI configuration files. `ConfigWriter` (config.go) appends to a buffer
-- that never fails; the texts that it is given are what is written here.
use lazyjack.Base.{
  Bytes, [], ◌++◌, Bool, true, false, Option, none, some, if◌then◌else◌, show_nat, show_int, str,
  eq_str, quote, Result, ok, err, panic,
}
use lazyjack.Config.{
  Config, Node, CniPlugin, bridge_plugin, point_to_point_plugin, ipv6_net_mode, is_dual_stack,
}
use lazyjack.Address.{build_pod_subnet_prefix}

-- A result that further text follows.
abbrev after : Result Bytes → (Bytes → Result Bytes) → Result Bytes
after (ok s) k = k s
after (err e) k = err e
after panic k = panic

-- The comma behind the first of two entries.
comma_after : Bool → Config → Bytes
comma_after first c = if first then (if is_dual_stack c then str "," else []) else []

-- One IPAM range; the flag says that it is the entry 0.
write_range : Config → Node → Bool → Result Bytes
unfolding comma_after
write_range c node first =
    let info = if first then c.pod.info0 else c.pod.info1 in
    elim (build_pod_subnet_prefix info.mode info.prefix info.size node.id) [
      | ok (prefix, suffix) ↦ ok (
          str "      [\n        {\n"
          ++ str "          \"subnet\": \""
          ++ prefix
          ++ suffix
          ++ str "/"
          ++ show_nat info.size
          ++ str "\",\n"
          ++ str "          \"gateway\": \""
          ++ prefix
          ++ str "1\"\n"
          ++ str "        }\n      ]"
          ++ comma_after first c
          ++ str "\n")
      | err e ↦ err e
      | panic ↦ panic
    ]

unfoldable pub generate_default_route : Config → Bool → Bytes
unfolding comma_after
generate_default_route c first =
    let info = if first then c.pod.info0 else c.pod.info1 in
    let default_route = if eq_str info.mode ipv6_net_mode then str "::/0" else str "0.0.0.0/0" in
    str "      {\"dst\": " ++ quote default_route ++ str "}" ++ comma_after first c ++ str "\n"

unfoldable pub write_config_for_ipam : Config → Node → Result Bytes
unfolding write_range generate_default_route
write_config_for_ipam c node =
    let trailer = str "    ]\n  }\n" in
    let second = if is_dual_stack c then write_range c node false else ok [] in
    after (write_range c node true) λ range0. after second λ range1. ok (
      str "  \"ipam\": {\n    \"type\": \"host-local\",\n    \"ranges\": [\n"
      ++ range0
      ++ range1
      ++ str "    ],\n    \"routes\": [\n"
      ++ generate_default_route c true
      ++ (if is_dual_stack c then generate_default_route c false else [])
      ++ trailer)

-- `WriteConfigContents` of each plugin: its header, the MTU and what follows.
config_body : Bytes → Node → Config → Result Bytes
unfolding write_config_for_ipam
config_body header node c =
    after (write_config_for_ipam c node) λ ipam.
      ok (header ++ str "  \"mtu\": " ++ show_int c.pod.mtu ++ str ",\n" ++ ipam ++ str "}\n")

bridge_contents : Node → Config → Result Bytes
unfolding config_body
bridge_contents node c =
    config_body
      (str "{\n  \"cniVersion\": \"0.3.1\",\n  \"name\": \"bmbridge\",\n  \"type\": \"bridge\",\n"
        ++ str "  \"bridge\": \"br0\",\n  \"isDefaultGateway\": true,\n  \"ipMasq\": true,\n"
        ++ str "  \"hairpinMode\": true,\n")
      node c

ptp_contents : Node → Config → Result Bytes
unfolding config_body
ptp_contents node c =
    config_body
      (str "{\n  \"cniVersion\": \"0.3.1\",\n  \"name\": \"dindnet\",\n  \"type\": \"ptp\",\n"
        ++ str "  \"ipMasq\": true,\n")
      node c

unfoldable pub config_contents : Option CniPlugin → Node → Config → Result Bytes
unfolding bridge_contents ptp_contents
config_contents none node c = panic
config_contents (some bridge_plugin) node c = bridge_contents node c
config_contents (some point_to_point_plugin) node c = ptp_contents node c
