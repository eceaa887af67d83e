-- ===== src/Prepare/Servers.antt =====
-- prepare.go: the support network and the DNS64 and NAT64 containers.
pub mod Ensured
pub mod Running
pub mod Inet
use lazyjack.Base.{
  ℕ, Bytes, [], ◌∷◌, ◌++◌, Bool, true, false, not, if◌then◌else◌, str, eq_str, has_prefix, contains,
  Result, ok, err, panic, Done, M, ◌>>=◌, ◌>>◌, pure, fail, wrap, recover, tolerate,
}
use lazyjack.Net.{Net}
use lazyjack.World.{Os}
use lazyjack.World.Path.{join_path}
use lazyjack.Config.{
  Config, ResourceState, not_present, running, exists, support_net_name, dns64_name, dns64_volume,
  dns64_named_conf, nat64_name,
}
use lazyjack.Hypervisor.{Hypervisor}
use lazyjack.Docker.Args
use lazyjack.NetMgr.{add_route_using_support_net_interface}
use lazyjack.Prepare.Servers.Inet.{parse_ipv4_address}

unfoldable pub create_named_conf_contents : Config → Bytes
create_named_conf_contents c =
    str "options {\n    directory \"/var/bind\";\n    allow-query { any; };\n    forwarders {\n"
    ++ str "        "
    ++ c.dns64.cidr_prefix
    ++ c.dns64.remote_v4_server
    ++ str ";\n"
    ++ str "    };\n    auth-nxdomain no;    # conform to RFC1035\n    listen-on-v6 { any; };\n"
    ++ str "    dns64 "
    ++ c.dns64.cidr
    ++ str " {\n"
    ++ (if not c.dns64.allow_aaaa_use then str "        exclude { any; };\n" else [])
    ++ str "    };\n};\n"

abbrev pub is_skipping : Bytes → Bool
is_skipping e = has_prefix (str "skipping") e

module _ (o : Os) (h : Hypervisor (o.World)) where
  support_network_for : Config → ResourceState → M (o.World) Done
  support_network_for c exists = fail (str "skipping - support network already exists")
  support_network_for c not_present =
      h.create_network support_net_name c.support.cidr c.support.v4cidr c.support.info.prefix
  support_network_for c running =
      h.create_network support_net_name c.support.cidr c.support.v4cidr c.support.info.prefix

  unfoldable pub create_support_network : Config → M (o.World) Done
  unfolding support_network_for
  create_support_network c = h.resource_state support_net_name >>= support_network_for c

  unfoldable pub create_config_for_dns64 : Config → M (o.World) Done
  create_config_for_dns64 c = do
    wrap (h.delete_volume dns64_volume) (λ e. str "unable to remove existing volume: " ++ e)
    wrap (h.create_volume dns64_volume)
        (λ e. str "unable to create volume for DNS64 container use: " ++ e)
    mount_point ←
        wrap (h.get_volume_mount_point dns64_volume)
          (λ e. str "unable to determine mount point for volume: " ++ e)
    wrap (o.write_file (join_path mount_point dns64_named_conf) (create_named_conf_contents c))
        (λ e. str "unable to create named.conf for DNS64: " ++ e)

  start_dns64 : Config → M (o.World) Done
  start_dns64 c = do
    create_config_for_dns64 c
    h.run_container (str "DNS64 container") (Args.build_run_args_for_dns64 c)

  dns64_server_for : Config → ResourceState → M (o.World) Done
  unfolding start_dns64
  dns64_server_for c running =
      fail (str "skipping - DNS64 container (" ++ dns64_name ++ str ") already running")
  dns64_server_for c exists = do
    wrap (h.delete_container dns64_name)
        (λ e. str "unable to remove existing (non-running) DNS64 container: " ++ e)
    start_dns64 c
  dns64_server_for c not_present = start_dns64 c

  unfoldable pub ensure_dns64_server : Config → M (o.World) Done
  unfolding dns64_server_for
  ensure_dns64_server c = h.resource_state dns64_name >>= dns64_server_for c

  delete_found : Bytes → M (o.World) Done
  delete_found [] = fail (str "unable to find IPv4 address on eth0 of DNS64 container")
  delete_found (b ∷ addr) = h.delete_v4_address dns64_name (b ∷ addr)

  unfoldable pub remove_ipv4_address_on_dns64_server : M (o.World) Done
  unfolding delete_found
  remove_ipv4_address_on_dns64_server = do
    if_config ← h.get_interface_config dns64_name (str "eth0")
    delete_found (parse_ipv4_address if_config)

  unfoldable pub add_route_for_dns64_network : Config → M (o.World) Done
  add_route_for_dns64_network c =
      wrap (h.add_v6_route dns64_name c.dns64.cidr c.nat64.server_ip) (λ e.
        if contains (str "exit status 2") e
        then str "skipping - add route to "
          ++ c.dns64.cidr
          ++ str " via "
          ++ c.nat64.server_ip
          ++ str " as already exists"
        else e)

  unfoldable pub prepare_dns64_server : Config → M (o.World) Done
  unfolding remove_ipv4_address_on_dns64_server
  prepare_dns64_server c = do
    tolerate is_skipping (ensure_dns64_server c)
    tolerate (has_prefix (str "unable to find IPv4 address")) remove_ipv4_address_on_dns64_server
    tolerate is_skipping (add_route_for_dns64_network c)

  start_nat64 : Config → M (o.World) Done
  start_nat64 c = h.run_container (str "NAT64 container") (Args.build_run_args_for_nat64 c)

  nat64_server_for : Config → ResourceState → M (o.World) Done
  unfolding start_nat64
  nat64_server_for c running =
      fail (str "skipping - NAT64 container (" ++ nat64_name ++ str ") already running")
  nat64_server_for c exists = do
    wrap (h.delete_container nat64_name)
        (λ e. str "unable to remove existing (non-running) NAT64 container: " ++ e)
    start_nat64 c
  nat64_server_for c not_present = start_nat64 c

  unfoldable pub ensure_nat64_server : Config → M (o.World) Done
  unfolding nat64_server_for
  ensure_nat64_server c = h.resource_state nat64_name >>= nat64_server_for c

  unfoldable pub ensure_route_to_nat64 : Net → Config → M (o.World) Done
  ensure_route_to_nat64 net c =
      wrap
        (add_route_using_support_net_interface o net c.nat64.v4_mapping_cidr c.nat64.v4_mapping_ip
          c.support.v4cidr)
        (λ e.
          if eq_str e (str "file exists")
          then str "skipping - add route to "
            ++ c.nat64.v4_mapping_cidr
            ++ str " via "
            ++ c.nat64.v4_mapping_ip
            ++ str " as already exists"
          else e)

  unfoldable pub prepare_nat64_server : Net → Config → M (o.World) Done
  prepare_nat64_server net c = do
    tolerate is_skipping (ensure_nat64_server c)
    tolerate is_skipping (ensure_route_to_nat64 net c)
