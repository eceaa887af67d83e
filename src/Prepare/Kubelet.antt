-- ===== src/Prepare/Kubelet.antt =====
-- prepare.go: the kubelet's drop-in file and the configuration of kubeadm.
pub mod Values
use lazyjack.Base.{
  ℕ, Bytes, List, [], ◌∷◌, ◌++◌, Bool, false, not, if◌then◌else◌, show_int, str, eq_str, Done, M,
  ◌>>◌, wrap,
}
use lazyjack.World.{Os}
use lazyjack.World.Path.{join_path}
use lazyjack.Files.{save_file_contents}
use lazyjack.Prepare.Templates.Engine.{KubeAdmConfigInfo, Piece, execute}
use lazyjack.Prepare.Templates.V1_10.{template_v1_10}
use lazyjack.Prepare.Templates.V1_11.{template_v1_11}
use lazyjack.Prepare.Templates.V1_12.{template_v1_12}
use lazyjack.Prepare.Templates.V1_13.{template_v1_13}
use lazyjack.Config.{
  Config, Node, ipv4_net_mode, kubelet_drop_in_file, default_token, kube_adm_conf_file,
}

unfoldable pub create_kubelet_drop_in_contents : Config → Bytes
create_kubelet_drop_in_contents c =
    let device_part = if eq_str c.service.info.mode (str "ipv4") then str "10" else str "a" in
    str "[Service]\n"
    ++ str "Environment=\"KUBELET_DNS_ARGS=--cluster-dns="
    ++ c.service.info.prefix
    ++ device_part
    ++ str " --cluster-domain=cluster.local\"\n"

unfoldable pub collect_kube_adm_config_info : Node → Config → KubeAdmConfigInfo
collect_kube_adm_config_info n c =
    let service_mode = c.service.info.mode in
    let prefix =
      if not (eq_str c.mgmt.info0.mode service_mode)
      then c.mgmt.info1.prefix
      else c.mgmt.info0.prefix in
    let is_v4 = eq_str service_mode ipv4_net_mode in
    record {
      advertise_address = prefix ++ show_int n.id;
      auth_token = if c.general.insecure then default_token else c.general.token;
      bind_address = if is_v4 then str "0.0.0.0" else str "::";
      bind_port = 8080;
      dns_service_ip = c.service.info.prefix ++ (if is_v4 then str "10" else str "a");
      k8s_version = (elim c.general.k8s_version [
        | [] ↦ str "# kubernetesVersion:"
        | d ∷ v ↦ str "kubernetesVersion: \"" ++ (d ∷ v) ++ str "\""
      ]);
      kube_master_name = n.name;
      pod_network_cidr =
          if not (eq_str c.pod.info0.mode service_mode) then c.pod.cidr2 else c.pod.cidr;
      service_subnet = c.service.cidr;
      use_core_dns = false;
      type_dns = str "CoreDNS";
    }

-- The template of a version; the newest one serves any other version.
unfoldable pub select_template : Bytes → List Piece
select_template version =
    if eq_str version (str "1.10")
    then template_v1_10
    else if eq_str version (str "1.11")
    then template_v1_11
    else if eq_str version (str "1.12")
    then template_v1_12
    else template_v1_13

unfoldable pub create_kube_adm_config_contents : Node → Config → Bytes
create_kube_adm_config_contents n c =
    execute (select_template c.general.kube_adm_version) (collect_kube_adm_config_info n c)

module _ (o : Os) where
  unfoldable pub create_kubelet_drop_in_file : Config → M (o.World) Done
  create_kubelet_drop_in_file c = do
    wrap (o.mkdir_all c.general.systemd_area)
        (λ e. str "unable to create area for kubelet drop-in file: " ++ e)
    o.write_file (join_path c.general.systemd_area kubelet_drop_in_file)
        (create_kubelet_drop_in_contents c)

  unfoldable pub create_kube_adm_config_file : Node → Config → M (o.World) Done
  create_kube_adm_config_file node c = do
    let file = join_path c.general.work_area kube_adm_conf_file
    save_file_contents o (create_kube_adm_config_contents node c) file (file ++ str ".bak")
