-- ===== src/Validate/General.antt =====
-- `ValidateCIDR`, `ValidateNetworkMode`, `ValidatePlugin`, `ValidatePodFields`,
-- `ValidateDNS64Fields`, `ValidateNAT64Fields` and `SetupBaseAreas`.
use lazyjack.Base.{
  Bytes, [], ◌∷◌, ◌++◌, Bool, true, false, not, ◌||◌, Option, none, some, if◌then◌else◌, pos,
  eq_int, lt_nat, show_int, str, eq_str, to_lower, quote, Result, ok, err, Done, M,
}
use lazyjack.Net.{Net, IpNet}
use lazyjack.Config.{
  Config, GeneralSettings, bridge_plugin, point_to_point_plugin, default_net_mode, ipv4_net_mode,
  ipv6_net_mode, dual_stack_net_mode, default_plugin, default_pod_mtu, minimum_pod_mtu,
  is_ipv6_mode,
}

abbrev pub is_empty : Bytes → Bool
is_empty [] = true
is_empty (_ ∷ _) = false

abbrev pub put_general : GeneralSettings → Config → Config
put_general g c = record c { general = g }

unfoldable pub validate_cidr : Net → Bytes → Bytes → Result Done
validate_cidr net which cidr =
    if is_empty cidr
    then err (str "config missing " ++ which ++ str " CIDR")
    else elim (net.parse_cidr cidr) [
      | none ↦ err (str "unable to parse " ++ which ++ str " CIDR (" ++ cidr ++ str ")")
      | some _ ↦ ok tt
    ]

unfoldable pub validate_network_mode : M Config Done
validate_network_mode c =
    let mode = to_lower (if is_empty c.general.mode then default_net_mode else c.general.mode) in
    let c' = put_general (record (c.general) { mode = mode }) c in
    if eq_str mode dual_stack_net_mode || eq_str mode ipv4_net_mode || eq_str mode ipv6_net_mode
    then (ok tt, c')
    else (err (str "unsupported network mode " ++ quote mode ++ str " entered"), c')

-- The switch over the plugin's name.
select_plugin : Bytes → M Config Done
select_plugin plugin c =
    if eq_str plugin (str "bridge")
    then (ok tt, put_general (record (c.general) { cni_plugin = some bridge_plugin }) c)
    else if eq_str plugin (str "ptp")
    then (ok tt, put_general (record (c.general) { cni_plugin = some point_to_point_plugin }) c)
    else (err (str "plugin " ++ quote plugin ++ str " not supported"), c)

unfoldable pub validate_plugin : M Config Done
unfolding select_plugin
validate_plugin c =
    let legacy = c.plugin in
    let c' =
      if is_empty legacy then c else put_general (record (c.general) { plugin = legacy }) c in
    let plugin = if is_empty legacy then c.general.plugin else legacy in
    if is_empty plugin
    then (ok tt, put_general (record (c'.general) { plugin = default_plugin }) c')
    else select_plugin plugin c'

unfoldable pub validate_pod_fields : M Config Done
validate_pod_fields c =
    let mtu = if eq_int c.pod.mtu (pos 0) then pos default_pod_mtu else c.pod.mtu in
    let c' = record c { pod = record (c.pod) { mtu = mtu } } in
    if lt_nat mtu minimum_pod_mtu
    then (
      err (
          str "MTU ("
          ++ show_int mtu
          ++ str ") is less than minimum MTU for IPv6 ("
          ++ show_int (pos minimum_pod_mtu)
          ++ str ")"),
      c',
    )
    else (ok tt, c')

unfoldable pub validate_dns64_fields : M Config Done
validate_dns64_fields c =
    if c.dns64.allow_ipv6_use
    then (ok tt, record c { dns64 = record (c.dns64) { allow_aaaa_use = true } })
    else (ok tt, c)

-- The text of the `ParseError` that `net.ParseCIDR` returns.
abbrev pub parse_error : Bytes → Bytes
parse_error cidr = str "invalid CIDR address: " ++ cidr

module _ (net : Net) where
  -- The checks of the three values once each has been parsed.
  check_nat64 :
      Config → Option (Bytes × IpNet) → Option Bytes → Option (Bytes × IpNet) → Result Done
  check_nat64 c none mapping pool = err (
      str "v4 support network ("
      ++ c.support.v4cidr
      ++ str ") is invalid: "
      ++ parse_error c.support.v4cidr)
  check_nat64 c (some _) none pool =
      err (str "v4 mapping IP (" ++ c.nat64.v4_mapping_ip ++ str ") is invalid")
  check_nat64 c (some _) (some _) none = err (
      str "v4 mapping CIDR ("
      ++ c.nat64.v4_mapping_cidr
      ++ str ") is invalid: "
      ++ parse_error c.nat64.v4_mapping_cidr)
  check_nat64 c (some (_, support)) (some mapping) (some (pool, _)) =
      if not (net.net_contains support mapping)
      then err (
          str "V4 mapping IP ("
          ++ c.nat64.v4_mapping_ip
          ++ str ") is not within IPv4 support subnet ("
          ++ c.support.v4cidr
          ++ str ")")
      else if not (net.net_contains support pool)
      then err (
          str "V4 mapping CIDR ("
          ++ c.nat64.v4_mapping_cidr
          ++ str ") is not within IPv4 support subnet ("
          ++ c.support.v4cidr
          ++ str ")")
      else ok tt

  unfoldable pub validate_nat64_fields : Config → Result Done
  unfolding check_nat64
  validate_nat64_fields c =
      if not (is_ipv6_mode c)
      then ok tt
      else if is_empty c.support.v4cidr
      then err (str "missing IPv4 support network CIDR")
      else if is_empty c.nat64.v4_mapping_ip
      then err (str "missing IPv4 mapping IP")
      else if is_empty c.nat64.v4_mapping_cidr
      then err (str "missing IPv4 mapping CIDR")
      else check_nat64 c (net.parse_cidr c.support.v4cidr) (net.parse_ip c.nat64.v4_mapping_ip)
          (net.parse_cidr c.nat64.v4_mapping_cidr)

unfoldable pub setup_base_areas : Bytes → Bytes → Bytes → Bytes → Bytes → Config → Config
setup_base_areas work systemd etc cni cert c =
    put_general
      (record (c.general) {
        work_area = if is_empty c.general.work_area then work else c.general.work_area;
        systemd_area = systemd;
        etc_area = etc;
        cni_area = cni;
        k8s_cert_area = cert;
      })
      c
