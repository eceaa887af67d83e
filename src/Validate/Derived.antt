-- ===== src/Validate/Derived.antt =====
-- `CalculateDerivedFields`: prefixes, sizes and families of the networks.
pub mod Frame
pub mod Families
pub mod Networks
use lazyjack.Base.{
  ◌+◌, Bytes, [], ◌++◌, not, none, some, if◌then◌else◌, str, eq_str, ok, err, Done, M, ◌>>=◌, ◌>>◌,
  fail, get, modify, when, wrap, zoom,
}
use lazyjack.Net.{Net}
use lazyjack.Config.{Config, NetInfo, ipv4_net_mode, ipv6_net_mode, is_ipv6_mode, is_dual_stack}
use lazyjack.Validate.General.{is_empty, parse_error}
use lazyjack.Validate.Prefix.{
  check_mgmt_size, check_service_size, check_unlimited_size, check_pod_size, extract_net_info,
  get_net_and_mask, make_prefix_from_network,
}

-- `&c.Mgmt.Info[0]` and the other places that are filled in.
abbrev pub on_mgmt0 : {A : Type 0} → M NetInfo A → M Config A
on_mgmt0 = zoom (λ c. c.mgmt.info0) (λ i c. record c { mgmt = record (c.mgmt) { info0 = i } })

abbrev pub on_mgmt1 : {A : Type 0} → M NetInfo A → M Config A
on_mgmt1 = zoom (λ c. c.mgmt.info1) (λ i c. record c { mgmt = record (c.mgmt) { info1 = i } })

abbrev pub on_service : {A : Type 0} → M NetInfo A → M Config A
on_service =
    zoom (λ c. c.service.info) (λ i c. record c { service = record (c.service) { info = i } })

abbrev pub on_support : {A : Type 0} → M NetInfo A → M Config A
on_support =
    zoom (λ c. c.support.info) (λ i c. record c { support = record (c.support) { info = i } })

abbrev pub on_pod0 : {A : Type 0} → M NetInfo A → M Config A
on_pod0 = zoom (λ c. c.pod.info0) (λ i c. record c { pod = record (c.pod) { info0 = i } })

abbrev pub on_pod1 : {A : Type 0} → M NetInfo A → M Config A
on_pod1 = zoom (λ c. c.pod.info1) (λ i c. record c { pod = record (c.pod) { info1 = i } })

-- `otherMode`
abbrev pub other_mode : Bytes → Bytes
other_mode mode = if eq_str mode ipv4_net_mode then ipv6_net_mode else ipv4_net_mode

-- What a pod network's entry gets once its CIDR is read: an expanded prefix for IPv6, and eight
-- more bits, since each node gets a subnet from the network.
expand_pod : NetInfo → NetInfo
expand_pod i = record i {
  prefix =
      if eq_str i.mode ipv6_net_mode then make_prefix_from_network i.prefix i.size else i.prefix;
  size = i.size + 8;
}

module _ (net : Net) where
  -- The second management network of a dual-stack cluster; `other` is `otherMode`.
  pub second_mgmt : Config → Bytes → M Config Done
  second_mgmt c other = do
    when (is_empty c.mgmt.cidr2) (
        fail (
          str "dual-stack mode management network only has "
          ++ c.mgmt.info0.mode
          ++ str " CIDR, need "
          ++ other
          ++ str " CIDR"))
    wrap (on_mgmt1 (extract_net_info net c.mgmt.cidr2 check_mgmt_size))
        (λ e. str "invalid management network CIDR2: " ++ e)
    c ← get
    when (not (eq_str c.mgmt.info1.mode other)) (
        fail (
          str "for dual-stack both management networks specified are "
          ++ c.mgmt.info0.mode
          ++ str " mode - need "
          ++ other
          ++ str " info"))

  pub derive_mgmt : M Config Done
  unfolding second_mgmt
  derive_mgmt = do
    c ← get
    wrap (on_mgmt0 (extract_net_info net c.mgmt.cidr check_mgmt_size))
        (λ e. str "invalid management network: " ++ e)
    c ← get
    if is_dual_stack c
        then second_mgmt c (other_mode c.mgmt.info0.mode)
        else when (not (is_empty c.mgmt.cidr2)) (
            fail (
              str "see second management network CIDR ("
              ++ c.mgmt.cidr
              ++ str ", "
              ++ c.mgmt.cidr2
              ++ str "), when in "
              ++ c.general.mode
              ++ str " mode"))

  pub derive_service : M Config Done
  derive_service = do
    c ← get
    wrap (on_service (extract_net_info net c.service.cidr check_service_size))
        (λ e. str "invalid service network: " ++ e)

  pub derive_support : M Config Done
  derive_support = do
    c ← get
    if is_ipv6_mode c
        then wrap (on_support (extract_net_info net c.support.cidr check_unlimited_size))
            (λ e. str "invalid support network: " ++ e)
        else when (not (is_empty c.support.cidr)) (
            fail (
              str "support CIDR ("
              ++ c.support.cidr
              ++ str ") is unsupported in "
              ++ c.general.mode
              ++ str " mode"))

  pub second_pod : Config → Bytes → M Config Done
  unfolding expand_pod
  second_pod c other = do
    when (is_empty c.pod.cidr2) (
        fail (
          str "dual-stack mode pod network only has "
          ++ c.pod.info0.mode
          ++ str " CIDR, need "
          ++ other
          ++ str " CIDR"))
    wrap (on_pod1 (extract_net_info net c.pod.cidr2 check_pod_size))
        (λ e. str "invalid pod network CIDR2: " ++ e)
    on_pod1 (modify expand_pod)
    c ← get
    when (not (eq_str c.pod.info1.mode other)) (
        fail (
          str "for dual-stack both pod networks specified are "
          ++ c.pod.info0.mode
          ++ str " mode - need "
          ++ other
          ++ str " info"))

  -- The text of the error for a second pod network that is not wanted.
  unexpected_pod : Config → Bytes
  unexpected_pod c =
      str "see second pod network CIDR ("
      ++ c.pod.cidr
      ++ str ", "
      ++ c.pod.cidr2
      ++ str "), when in "
      ++ c.general.mode
      ++ str " mode"

  pub derive_pod : M Config Done
  unfolding second_pod unexpected_pod
  derive_pod = do
    c ← get
    wrap (on_pod0 (extract_net_info net c.pod.cidr check_pod_size))
        (λ e. str "invalid pod network: " ++ e)
    on_pod0 (modify expand_pod)
    c ← get
    if is_dual_stack c
        then second_pod c (other_mode c.pod.info0.mode)
        else when (not (is_empty c.pod.cidr2)) (fail (unexpected_pod c))

  abbrev put_cidr_prefix : Bytes → Config → Config
  put_cidr_prefix p c = record c { dns64 = record (c.dns64) { cidr_prefix = p } }

  pub derive_dns64 : M Config Done
  derive_dns64 c =
      if is_ipv6_mode c
      then elim (get_net_and_mask net c.dns64.cidr) [
        | none ↦
            (err (str "invalid DNS64 CIDR: " ++ parse_error c.dns64.cidr), put_cidr_prefix [] c)
        | some (prefix, _) ↦ (ok tt, put_cidr_prefix prefix c)
      ]
      else (ok tt, c)

  unfoldable pub calculate_derived_fields : M Config Done
  unfolding derive_mgmt derive_service derive_support derive_pod derive_dns64
  calculate_derived_fields = do
    derive_mgmt
    derive_service
    derive_support
    derive_pod
    derive_dns64
