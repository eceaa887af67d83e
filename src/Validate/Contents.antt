-- ===== src/Validate/Contents.antt =====
-- `ValidateSoftwareVersions`, `SetupHandles` and `ValidateConfigContents`. The state is what is
-- outside, with the configuration.
pub mod Valid
use lazyjack.Base.{
  [], ◌∷◌, ◌++◌, Bool, not, ◌||◌, Option, none, some, if◌then◌else◌, str, eq_str, quote, Result, ok,
  err, panic, Done, M, ◌>>=◌, ◌>>◌, lift, wrap, modify, zoom,
}
use lazyjack.Net.{Net}
use lazyjack.World.{Os}
use lazyjack.Files.{do_exec_command}
use lazyjack.Config.{
  Config, default_work_area, kubelet_systemd_area, default_etc_area, cni_conf_area,
  kubernetes_cert_area,
}
use lazyjack.Validate.General.{
  is_empty, put_general, validate_plugin, validate_network_mode, validate_cidr, validate_pod_fields,
  validate_dns64_fields, validate_nat64_fields, setup_base_areas,
}
use lazyjack.Validate.Token.{validate_token, validate_token_cert_hash}
use lazyjack.Validate.Topology.{validate_unique_ids, validate_op_modes_for_all_nodes}
use lazyjack.Validate.Derived.{calculate_derived_fields}
use lazyjack.Validate.Version.{parse_version}

-- The check of the version that the user asks for.
check_k8s_version : Config → Result Done
check_k8s_version c =
    if is_empty c.general.k8s_version || eq_str c.general.k8s_version (str "latest")
    then ok tt
    else elim (parse_version c.general.k8s_version) [
      | ok v ↦
          if not (eq_str v c.general.kube_adm_version)
          then err (
              str "specified Kubernetes verson ("
              ++ quote c.general.k8s_version
              ++ str ") does not match KubeAdm version ("
              ++ c.general.kube_adm_version
              ++ str ")")
          else ok tt
      | err e ↦ err (
          str "unable to parse Kubernetes version specified ("
          ++ quote c.general.k8s_version
          ++ str "): "
          ++ e)
      | panic ↦ panic
    ]

module _ (o : Os) where
  abbrev pub State : Type 0
  State = o.World × Config

  abbrev pub outside : {A : Type 0} → M (o.World) A → M State A
  outside = zoom (λ s. s.0) (λ w s. (w, s.1))

  abbrev pub inside : {A : Type 0} → M Config A → M State A
  inside = zoom (λ s. s.1) (λ c s. (s.0, c))

  -- A check that changes nothing.
  abbrev pub checked : (Config → Result Done) → M State Done
  checked check s = (check s.1, s)

  unfoldable pub validate_software_versions : M State Done
  unfolding check_k8s_version
  validate_software_versions = do
    output ← outside (
        wrap (do_exec_command o (str "kubeadm") (str "version" ∷ str "-o" ∷ str "short" ∷ []))
          (λ e. str "Unable to get version of KubeAdm: " ++ e))
    version ← lift (parse_version output)
    inside (modify λ c. put_general (record (c.general) { kube_adm_version = version }) c)
    checked check_k8s_version

  unfoldable pub setup_handles : M State Done
  setup_handles =
      outside (
        wrap (o.new_handle)
          (λ e. str "internal Error - unable to access networking package: " ++ e))

  -- `ValidateConfigContents` of a configuration that is there.
  validate_loaded : Net → Bool → M State Done
  validate_loaded net ignore_missing = do
    inside validate_plugin
    inside validate_network_mode
    checked (λ c. validate_token c.general.token (c.general.insecure || ignore_missing))
    checked (λ c.
        validate_token_cert_hash c.general.token_cert_hash (c.general.insecure || ignore_missing))
    checked validate_unique_ids
    inside validate_op_modes_for_all_nodes
    checked (λ c. validate_cidr net (str "service network") c.service.cidr)
    inside validate_pod_fields
    inside validate_dns64_fields
    checked (validate_nat64_fields net)
    inside (calculate_derived_fields net)
    validate_software_versions
    setup_handles
    inside (
        modify (
          setup_base_areas default_work_area kubelet_systemd_area default_etc_area cni_conf_area
            kubernetes_cert_area))

  -- With its result: the error, or the completed configuration.
  completed : Result Done × State → Result Config × o.World
  completed (ok _, s) = (ok s.1, s.0)
  completed (err e, s) = (err e, s.0)
  completed (panic, s) = (panic, s.0)

  unfoldable pub validate_config_contents : Net → Option Config → Bool → M (o.World) Config
  unfolding validate_loaded completed
  validate_config_contents net none ignore_missing w = (err (str "no configuration loaded"), w)
  validate_config_contents net (some c) ignore_missing w =
      completed (validate_loaded net ignore_missing (w, c))
