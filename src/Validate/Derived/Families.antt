-- ===== src/Validate/Derived/Families.antt =====
-- The families and the sizes of the networks behind `CalculateDerivedFields`.
use lazyjack.Base.{
  Bytes, [], ◌≡◌, ◌≢◌, ◌⊎◌, not, if◌then◌else◌, arith, eq_str_iff, ok, ◌>>=◌, get, wrap, when, fail,
  modify,
}
use lazyjack.Base.Rules.{Ensures, Ensures->>, Ensures-wrap}
use lazyjack.Net.{Net}
use lazyjack.Config.{
  Config, ManagementNetwork, PodNetwork, dual_stack_net_mode, NetInfo, is_dual_stack,
}
use lazyjack.Validate.General.{is_empty}
use lazyjack.Validate.Prefix.{check_mgmt_size, check_pod_size, extract_net_info}
use lazyjack.Validate.Derived.Frame.{second_mgmt-kept, second_pod-kept}
use lazyjack.Validate.Prefix.Family.{IsNetwork, MgmtSize, PodSize, mgmt_info-ok, pod_info-ok}
use lazyjack.Validate.Derived.{
  second_mgmt, derive_mgmt, second_pod, derive_pod, unexpected_pod, expand_pod, on_pod0, other_mode,
}

-- The management networks: one, or two of different families.
abbrev pub MgmtNetworks : Bytes → ManagementNetwork → Type 0
MgmtNetworks mode m =
    IsNetwork MgmtSize m.info0
    × (((mode ≡ dual_stack_net_mode)
          × IsNetwork MgmtSize m.info1
          × (m.info1.mode ≡ other_mode m.info0.mode))
        ⊎ ((mode ≢ dual_stack_net_mode) × (m.cidr2 ≡ [])))

module _ (net : Net) where
  second_mgmt-ok :
      (c : Config) (other : Bytes)
      → (second_mgmt net c other c).0 ≡ ok tt
      → IsNetwork MgmtSize (second_mgmt net c other c).1.mgmt.info1
        × ((second_mgmt net c other c).1.mgmt.info1.mode ≡ other)
        × ((second_mgmt net c other c).1.mgmt.info0 ≡ c.mgmt.info0)
  unfolding second_mgmt
  second_mgmt-ok c other h = ground (
    arith,
    mgmt_info-ok net c.mgmt.cidr2 c.mgmt.info1,
    eq_str_iff (extract_net_info net c.mgmt.cidr2 check_mgmt_size c.mgmt.info1).1.mode other,
  )

  pub derive_mgmt-ok :
      (c : Config)
      → (derive_mgmt net c).0 ≡ ok tt
      → MgmtNetworks (derive_mgmt net c).1.general.mode (derive_mgmt net c).1.mgmt
  unfolding derive_mgmt
  derive_mgmt-ok c h =
      let i = (extract_net_info net c.mgmt.cidr check_mgmt_size c.mgmt.info0).1 in
      let c1 : Config = record c { mgmt = record (c.mgmt) { info0 = i } } in
      ground (
        arith,
        mgmt_info-ok net c.mgmt.cidr c.mgmt.info0,
        second_mgmt-ok c1 (other_mode i.mode),
        (second_mgmt-kept net c1 (other_mode i.mode)).kept_part c1,
        eq_str_iff c.general.mode dual_stack_net_mode,
      )

-- The pod networks, each for a family; a node's part of an IPv4 network has 24 bits.
abbrev pub IsPodNetwork : NetInfo → Type 0
IsPodNetwork = IsNetwork (λ n. n ≡ 24)

abbrev pub PodNetworks : Bytes → PodNetwork → Type 0
PodNetworks mode p =
    IsPodNetwork p.info0
    × (((mode ≡ dual_stack_net_mode)
          × IsPodNetwork p.info1
          × (p.info1.mode ≡ other_mode p.info0.mode))
        ⊎ ((mode ≢ dual_stack_net_mode) × (p.cidr2 ≡ [])))

expand_pod-ok : (i : NetInfo) → IsNetwork PodSize i → IsPodNetwork (expand_pod i)
unfolding expand_pod
expand_pod-ok i h = ground arith

module _ (net : Net) where
  second_pod-ok :
      (c : Config) (other : Bytes)
      → (second_pod net c other c).0 ≡ ok tt
      → IsPodNetwork (second_pod net c other c).1.pod.info1
        × ((second_pod net c other c).1.pod.info1.mode ≡ other)
        × ((second_pod net c other c).1.pod.info0 ≡ c.pod.info0)
  unfolding second_pod
  second_pod-ok c other h =
      let i = (extract_net_info net c.pod.cidr2 check_pod_size c.pod.info1).1 in
      ground (
        arith,
        pod_info-ok net c.pod.cidr2 c.pod.info1,
        expand_pod-ok i,
        eq_str_iff (expand_pod i).mode other,
      )

  pod_branch :
      (text : Bytes) (c : Config)
      → IsPodNetwork c.pod.info0
      → ((if is_dual_stack c
            then second_pod net c (other_mode c.pod.info0.mode)
            else when (not (is_empty c.pod.cidr2)) (fail text))
          c).0
        ≡ ok tt
      → let c' =
          ((if is_dual_stack c
              then second_pod net c (other_mode c.pod.info0.mode)
              else when (not (is_empty c.pod.cidr2)) (fail text))
            c).1 in
        PodNetworks c'.general.mode c'.pod
  pod_branch text c p e =
      let other = other_mode c.pod.info0.mode in
      ground (
        arith,
        second_pod-ok c other,
        (second_pod-kept net c other).kept_part c,
        eq_str_iff c.general.mode dual_stack_net_mode,
      )

  pod_tail :
      Ensures
        (get >>= λ c.
          if is_dual_stack c
          then second_pod net c (other_mode c.pod.info0.mode)
          else when (not (is_empty c.pod.cidr2)) (fail (unexpected_pod net c)))
        (λ t. IsPodNetwork t.pod.info0)
        (λ t. PodNetworks t.general.mode t.pod)
  pod_tail = record { ensured = λ c. pod_branch (unexpected_pod net c) c }

  pod_expanded :
      Ensures
        (on_pod0 (modify expand_pod))
        (λ t. IsNetwork PodSize t.pod.info0)
        (λ t. IsPodNetwork t.pod.info0)
  pod_expanded = record { ensured = λ s p e. expand_pod-ok s.pod.info0 p }

  pod_found :
      (cidr : Bytes) (text : Bytes → Bytes)
      → Ensures
          (wrap (on_pod0 (extract_net_info net cidr check_pod_size)) text)
          (λ t. Unit)
          (λ t. IsNetwork PodSize t.pod.info0)
  pod_found cidr text =
      Ensures-wrap text (record { ensured = λ s p e. pod_info-ok net cidr s.pod.info0 e })

  pub derive_pod-ok : Ensures (derive_pod net) (λ t. Unit) (λ t. PodNetworks t.general.mode t.pod)
  unfolding derive_pod
  derive_pod-ok = record {
    ensured = λ c p e.
        (Ensures->> (pod_found c.pod.cidr _) (Ensures->> pod_expanded pod_tail)).ensured c p e;
  }
