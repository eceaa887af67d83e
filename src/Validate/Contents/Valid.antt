-- ===== src/Validate/Contents/Valid.antt =====
-- What `ValidateConfigContents` guarantees of the configuration that it completes.
use lazyjack.Base.{
  ◌≤◌, Bytes, [], ◌≡◌, ◌⊎◌, refl, sym, ap, subst, Bool, true, false, ◌||◌, some, ℤ, pos, lt_nat,
  arith, eq_str_iff, Result, ok, err, panic, Done, M, lift, modify,
}
use lazyjack.Base.Rules.{Keeps, Keeps->>=, Ensures, Ensures->>, Ensures-add, Ensures-keep}
use lazyjack.Net.{Net}
use lazyjack.World.{Os}
use lazyjack.Config.{
  Config, GeneralSettings, dual_stack_net_mode, ipv4_net_mode, ipv6_net_mode, minimum_pod_mtu,
}
use lazyjack.Validate.General.{
  validate_plugin, validate_network_mode, validate_pod_fields, validate_dns64_fields,
  setup_base_areas, put_general,
}
use lazyjack.Validate.Topology.{validate_unique_ids, validate_op_modes_for_all_nodes}
use lazyjack.Validate.Topology.Ids.{UniqueIds, validate_unique_ids_iff}
use lazyjack.Validate.Topology.Roles.{
  AllNamed, Checked-AllNamed, Checked-UniqueIds, validate_op_modes_for_all_nodes-kept,
}
use lazyjack.Validate.Topology.Master.{
  Nodes, FreshNames, masters, validate_op_modes_for_all_nodes-Checked,
}
use lazyjack.Validate.Token.{validate_token, validate_token_cert_hash}
use lazyjack.Validate.Token.Shape.{
  IsToken, IsHash, validate_token_iff, validate_token_cert_hash_iff,
}
use lazyjack.Validate.Derived.{calculate_derived_fields}
use lazyjack.Validate.Derived.Networks.{view4, Derived4, calculate_derived_fields-ok}
use lazyjack.Validate.Contents.{
  State, inside, outside, checked, validate_software_versions, setup_handles, validate_loaded,
  completed, validate_config_contents,
}
use lazyjack.Validate.Derived.Frame.{settled, calculate_derived_fields-kept}

-- The mode is one of the three.
abbrev pub ModeFits : Bytes → Type 0
ModeFits mode = (mode ≡ dual_stack_net_mode) ⊎ ((mode ≡ ipv4_net_mode) ⊎ (mode ≡ ipv6_net_mode))

validate_plugin-topology : (c : Config) → (validate_plugin c).1.topology ≡ c.topology
unfolding validate_plugin
validate_plugin-topology c = ground arith

validate_network_mode-topology : (c : Config) → (validate_network_mode c).1.topology ≡ c.topology
unfolding validate_network_mode
validate_network_mode-topology c = ground arith

validate_network_mode-ok :
    (c : Config)
    → (validate_network_mode c).0 ≡ ok tt
    → ModeFits (validate_network_mode c).1.general.mode
unfolding validate_network_mode
validate_network_mode-ok c h =
    let mode = (validate_network_mode c).1.general.mode in
    ground (
      arith,
      eq_str_iff mode dual_stack_net_mode,
      eq_str_iff mode ipv4_net_mode,
      eq_str_iff mode ipv6_net_mode,
    )

validate_pod_fields-kept :
    (c : Config)
    → ((validate_pod_fields c).1.general ≡ c.general)
      × ((validate_pod_fields c).1.topology ≡ c.topology)
unfolding validate_pod_fields
validate_pod_fields-kept c = ground arith

-- The pods' MTU is not below the minimum.
abbrev pub MtuFits : ℤ → Type 0
MtuFits (pos n) = minimum_pod_mtu ≤ n
MtuFits _ = ⊥

lt_nat-MtuFits : (n : ℤ) → lt_nat n minimum_pod_mtu ≡ false → MtuFits n
lt_nat-MtuFits n h = ground arith

validate_pod_fields-ok :
    (c : Config) → (validate_pod_fields c).0 ≡ ok tt → MtuFits (validate_pod_fields c).1.pod.mtu
unfolding validate_pod_fields
validate_pod_fields-ok c h =
    lt_nat-MtuFits (validate_pod_fields c).1.pod.mtu (unfold validate_pod_fields in ground arith)

validate_dns64_fields-kept : Keeps settled validate_dns64_fields
validate_dns64_fields-kept = record {
  kept_part = λ c. unfold validate_dns64_fields in ground arith;
}

-- A token, and a hash, that may be missing if the flag says so or in insecure mode.
abbrev pub TokenFits : Bool → GeneralSettings → Type 0
TokenFits ignore g = ((g.token ≡ []) × (g.insecure || ignore ≡ true)) ⊎ IsToken g.token

abbrev pub HashFits : Bool → GeneralSettings → Type 0
HashFits ignore g =
    ((g.token_cert_hash ≡ []) × (g.insecure || ignore ≡ true)) ⊎ IsHash g.token_cert_hash

abbrev pub GeneralFits : Bool → GeneralSettings → Type 0
GeneralFits ignore g = ModeFits g.mode × TokenFits ignore g × HashFits ignore g

-- The nodes have different IDs, their names, consistent roles, and exactly one master.
abbrev pub TopologyFits : Nodes → Type 0
TopologyFits nodes = UniqueIds nodes × AllNamed nodes × (masters nodes ≡ 1)

abbrev Early : Bool → Config → Type 0
Early ignore c = FreshNames [] c.topology × ModeFits c.general.mode

op_modes-fits :
    (ignore : Bool)
    → Ensures validate_op_modes_for_all_nodes
        (λ c. (FreshNames [] c.topology × UniqueIds c.topology) × GeneralFits ignore c.general)
        (λ c. GeneralFits ignore c.general × TopologyFits c.topology)
op_modes-fits ignore = record {
  ensured = λ c ((fresh, unique), fits) e.
      let run = validate_op_modes_for_all_nodes c in
      let (all, one) =
        validate_op_modes_for_all_nodes-Checked c run.1 fresh (ap (λ r. (r, run.1)) e) in
      (
        subst (GeneralFits ignore) (sym (validate_op_modes_for_all_nodes-kept.kept_part c)) fits,
        (
          Checked-UniqueIds c.topology run.1.topology all unique,
          Checked-AllNamed c.topology run.1.topology all,
          one,
        ),
      );
}

-- The configuration but for what the last steps fill in.
core : Config → Config
core c = record c {
  general = record (c.general) {
    kube_adm_version = [];
    work_area = [];
    systemd_area = [];
    etc_area = [];
    cni_area = [];
    k8s_cert_area = [];
  };
}

abbrev Settled : Bool → GeneralSettings × Nodes × ℤ → Type 0
Settled ignore (g, nodes, mtu) = (GeneralFits ignore g × TopologyFits nodes) × MtuFits mtu

-- The settings, the nodes, the pods' MTU and the networks of a configuration are valid.
abbrev pub IsValid : Bool → Config → Type 0
IsValid ignore c = Settled ignore (settled c) × Derived4 (view4 c)

module _ (o : Os) where
  checked-ok :
      {P Q : Config → Type 0} (check : Config → Result Done)
      → ((c : Config) → P c → check c ≡ ok tt → Q c)
      → Ensures (checked o check) (λ s. P s.1) (λ s. Q s.1)
  checked-ok check h = record { ensured = λ s p e. h s.1 p e }

  inside-ok :
      {P Q : Config → Type 0} {m : M Config Done}
      → Ensures m P Q
      → Ensures (inside o m) (λ s. P s.1) (λ s. Q s.1)
  inside-ok h = record { ensured = λ s p e. h.ensured s.1 p e }

  outside-kept : {A : Type 0} (m : M (o.World) A) → Keeps (λ s. core s.1) (outside o m)
  outside-kept m = record { kept_part = λ s. refl }

  lift-kept : {A : Type 0} (r : Result A) → Keeps (λ (s : State o). core s.1) (lift r)
  lift-kept r = record { kept_part = λ s. refl }

  checked-kept : (check : Config → Result Done) → Keeps (λ s. core s.1) (checked o check)
  checked-kept check = record { kept_part = λ s. refl }

  inside-kept :
      (change : Config → Config)
      → ((c : Config) → core (change c) ≡ core c)
      → Keeps (λ s. core s.1) (inside o (modify change))
  inside-kept change h = record { kept_part = λ s. h s.1 }

  version-core :
      (v : Bytes) (c : Config)
      → core (put_general (record (c.general) { kube_adm_version = v }) c) ≡ core c
  unfolding core
  version-core v c = refl

  areas-core : (w s e n k : Bytes) (c : Config) → core (setup_base_areas w s e n k c) ≡ core c
  unfolding core setup_base_areas
  areas-core w s e n k c = refl

  validate_software_versions-kept : Keeps (λ s. core s.1) (validate_software_versions o)
  unfolding validate_software_versions
  validate_software_versions-kept =
      search (Keeps->>=, outside-kept, lift-kept, inside-kept, version-core, checked-kept) depth 8

  setup_handles-kept : Keeps (λ s. core s.1) (setup_handles o)
  unfolding setup_handles
  setup_handles-kept = outside-kept _

  still-IsValid :
      {m : M (State o) Done} (ignore : Bool)
      → Keeps (λ s. core s.1) m
      → Ensures m (λ s. IsValid ignore s.1) (λ s. IsValid ignore s.1)
  unfolding core
  still-IsValid ignore h = Ensures-keep (IsValid ignore) h

  module _ (net : Net) (ignore : Bool) where
    validate_loaded-ok :
        Ensures
          (validate_loaded o net ignore)
          (λ s. FreshNames [] s.1.topology)
          (λ s. IsValid ignore s.1)
    unfolding validate_loaded
    validate_loaded-ok = Ensures->> (inside-ok plugin) (
        Ensures->> (inside-ok mode) (
          Ensures->> (checked-ok _ token) (
            Ensures->> (checked-ok _ hash) (
              Ensures->> (checked-ok _ unique) (
                Ensures->> (inside-ok (op_modes-fits ignore)) (
                  Ensures->> (checked-ok _ (λ c p e. p)) (
                    Ensures->> (inside-ok pods) (
                      Ensures->> (inside-ok dns64) (
                        Ensures->> (checked-ok _ (λ c p e. p)) (
                          Ensures->> (inside-ok derived) (
                            Ensures->> (still-IsValid ignore validate_software_versions-kept) (
                              Ensures->> (still-IsValid ignore setup_handles-kept) (
                                still-IsValid ignore
                                  (inside-kept _ (areas-core _ _ _ _ _)))))))))))))))
      where
        plugin :
            Ensures validate_plugin (λ c. FreshNames [] c.topology) (λ c. FreshNames [] c.topology)
        plugin = Ensures-keep (FreshNames []) (record { kept_part = validate_plugin-topology })

        mode : Ensures validate_network_mode (λ c. FreshNames [] c.topology) (Early ignore)
        mode =
            Ensures-add (FreshNames []) (λ c. ModeFits c.general.mode)
              (record { kept_part = validate_network_mode-topology }) validate_network_mode-ok

        token :
            (c : Config)
            → Early ignore c
            → validate_token c.general.token (c.general.insecure || ignore) ≡ ok tt
            → Early ignore c × TokenFits ignore c.general
        token c p e = (p, (validate_token_iff c.general.token (c.general.insecure || ignore)).0 e)

        hash :
            (c : Config)
            → Early ignore c × TokenFits ignore c.general
            → validate_token_cert_hash c.general.token_cert_hash (c.general.insecure || ignore)
              ≡ ok tt
            → FreshNames [] c.topology × GeneralFits ignore c.general
        hash c ((f, m), t) e = (
          f,
          (
            m,
            t,
            (validate_token_cert_hash_iff c.general.token_cert_hash
                  (c.general.insecure || ignore)).0
                e,
          ),
        )

        unique :
            (c : Config)
            → FreshNames [] c.topology × GeneralFits ignore c.general
            → validate_unique_ids c ≡ ok tt
            → (FreshNames [] c.topology × UniqueIds c.topology) × GeneralFits ignore c.general
        unique c (f, g) e = ((f, (validate_unique_ids_iff c).0 e), g)

        pods :
            Ensures validate_pod_fields
              (λ c. GeneralFits ignore c.general × TopologyFits c.topology)
              (λ c. Settled ignore (settled c))
        pods = record {
          ensured = λ c (g, t) e.
              let (a, b) = validate_pod_fields-kept c in
              (
                (subst (GeneralFits ignore) (sym a) g, subst TopologyFits (sym b) t),
                validate_pod_fields-ok c e,
              );
        }

        dns64 :
            Ensures validate_dns64_fields
              (λ c. Settled ignore (settled c))
              (λ c. Settled ignore (settled c))
        dns64 = Ensures-keep (Settled ignore) validate_dns64_fields-kept

        derived :
            Ensures
              (calculate_derived_fields net)
              (λ c. Settled ignore (settled c))
              (IsValid ignore)
        derived =
            Ensures-add (Settled ignore) (λ c. Derived4 (view4 c))
              (calculate_derived_fields-kept net)
              (λ c. (calculate_derived_fields-ok net).ensured c tt)

  completed-ok :
      (r : Result Done × State o) (c : Config)
      → (completed o r).0 ≡ ok c
      → (r.0 ≡ ok tt) × (r.1.1 ≡ c)
  unfolding completed
  completed-ok (ok _, s) c h = (refl, cc)
  completed-ok (err e, s) c h = (cc, cc)
  completed-ok (panic, s) c h = (cc, cc)

  -- A configuration that passes validation, if no name occurs twice among its nodes, is valid when
  -- it is returned. Its mode is one of the three; its token and hash have their shapes, or are
  -- missing where that is allowed. The nodes have different IDs, carry their names and have
  -- consistent roles, and exactly one is master. The pods' MTU is at least 1280. The networks of
  -- management, pods and services are each IPv6, or IPv4 with a size allowed for it (24 bits for a
  -- node's pods); in dual-stack mode there is a second management and a second pod network of the
  -- other family, in another mode their CIDRs are empty; and outside IPv6 mode there is no support
  -- network. In IPv4 and IPv6 mode the families of the networks are not compared with the mode.
  pub validate_config_contents-IsValid :
      (net : Net) (ignore : Bool) (c c' : Config) (w : o.World)
      → FreshNames [] c.topology
      → (validate_config_contents o net (some c) ignore w).0 ≡ ok c'
      → IsValid ignore c'
  unfolding validate_config_contents
  validate_config_contents-IsValid net ignore c c' w fresh h =
      let (e, same) = completed-ok (validate_loaded o net ignore (w, c)) c' h in
      subst (IsValid ignore) same ((validate_loaded-ok net ignore).ensured (w, c) fresh e)
