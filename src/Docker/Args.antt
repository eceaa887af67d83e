-- ===== src/Docker/Args.antt =====
-- docker.go: the arguments of the docker commands.
use lazyjack.Base.{Bytes, List, [], ◌∷◌, ◌++◌, str}
use lazyjack.Config.{Config, dns64_name, dns64_volume, nat64_name, support_net_name}

unfoldable pub build_resource_state_args : Bytes → List Bytes
build_resource_state_args resource = str "inspect" ∷ resource ∷ []

unfoldable pub build_run_args_for_dns64 : Config → List Bytes
build_run_args_for_dns64 c =
    str "run"
    ∷ str "-d"
    ∷ str "--name"
    ∷ dns64_name
    ∷ str "--hostname"
    ∷ dns64_name
    ∷ str "--label"
    ∷ str "lazyjack"
    ∷ str "--privileged=true"
    ∷ str "--ip6"
    ∷ c.dns64.server_ip
    ∷ str "--dns"
    ∷ c.dns64.server_ip
    ∷ str "--sysctl"
    ∷ str "net.ipv6.conf.all.disable_ipv6=0"
    ∷ str "--sysctl"
    ∷ str "net.ipv6.conf.all.forwarding=1"
    ∷ str "-v"
    ∷ (dns64_volume ++ str ":/etc/bind/")
    ∷ str "--net"
    ∷ support_net_name
    ∷ str "diverdane/bind9:latest"
    ∷ []

unfoldable pub build_get_interface_args : Bytes → Bytes → List Bytes
build_get_interface_args container if_name =
    str "exec" ∷ container ∷ str "ip" ∷ str "addr" ∷ str "list" ∷ if_name ∷ []

unfoldable pub build_v4_addr_del_args : Bytes → Bytes → List Bytes
build_v4_addr_del_args container ip =
    str "exec" ∷ container ∷ str "ip" ∷ str "addr" ∷ str "del" ∷ ip ∷ str "dev" ∷ str "eth0" ∷ []

unfoldable pub build_add_route_args : Bytes → Bytes → Bytes → List Bytes
build_add_route_args container dest via =
    str "exec"
    ∷ container
    ∷ str "ip"
    ∷ str "-6"
    ∷ str "route"
    ∷ str "add"
    ∷ dest
    ∷ str "via"
    ∷ via
    ∷ []

unfoldable pub build_delete_container_args : Bytes → List Bytes
build_delete_container_args name = str "rm" ∷ str "-f" ∷ name ∷ []

unfoldable pub build_run_args_for_nat64 : Config → List Bytes
build_run_args_for_nat64 c =
    str "run"
    ∷ str "-d"
    ∷ str "--name"
    ∷ nat64_name
    ∷ str "--hostname"
    ∷ nat64_name
    ∷ str "--label"
    ∷ str "lazyjack"
    ∷ str "--privileged=true"
    ∷ str "--ip"
    ∷ c.nat64.v4_mapping_ip
    ∷ str "--ip6"
    ∷ c.nat64.server_ip
    ∷ str "--dns"
    ∷ c.dns64.remote_v4_server
    ∷ str "--dns"
    ∷ c.dns64.server_ip
    ∷ str "--sysctl"
    ∷ str "net.ipv6.conf.all.disable_ipv6=0"
    ∷ str "--sysctl"
    ∷ str "net.ipv6.conf.all.forwarding=1"
    ∷ str "-e"
    ∷ (str "TAYGA_CONF_PREFIX=" ++ c.dns64.cidr)
    ∷ str "-e"
    ∷ (str "TAYGA_CONF_IPV4_ADDR=" ++ c.nat64.v4_mapping_ip)
    ∷ str "-e"
    ∷ (str "TAYGA_CONF_DYNAMIC_POOL=" ++ c.nat64.v4_mapping_cidr)
    ∷ str "--net"
    ∷ support_net_name
    ∷ str "danehans/tayga:latest"
    ∷ []

unfoldable pub build_create_net_args_for : Bytes → Bytes → Bytes → Bytes → List Bytes
build_create_net_args_for name cidr v4cidr gw_prefix =
    str "network"
    ∷ str "create"
    ∷ str "--ipv6"
    ∷ (str "--subnet=\"" ++ cidr ++ str "\"")
    ∷ (str "--subnet=" ++ v4cidr)
    ∷ (str "--gateway=\"" ++ gw_prefix ++ str "1\"")
    ∷ name
    ∷ []

unfoldable pub build_delete_net_args_for : Bytes → List Bytes
build_delete_net_args_for name = str "network" ∷ str "rm" ∷ name ∷ []

unfoldable pub build_create_volume_args : Bytes → List Bytes
build_create_volume_args name = str "volume" ∷ str "create" ∷ name ∷ []

unfoldable pub build_delete_volume_args : Bytes → List Bytes
build_delete_volume_args name = str "volume" ∷ str "rm" ∷ str "-f" ∷ name ∷ []

unfoldable pub build_inspect_volume_args : Bytes → List Bytes
build_inspect_volume_args name =
    str "volume" ∷ str "inspect" ∷ str "-f" ∷ str "\"{{json .Mountpoint}}\"" ∷ name ∷ []
