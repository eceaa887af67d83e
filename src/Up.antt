-- ===== src/Up.antt =====
-- up.go: the action "up", which brings the cluster up on a node.
pub mod NilPlugin
pub mod Copied
use lazyjack.Base.{
  Bytes, List, [], ◌∷◌, ◌++◌, Bool, true, false, ◌||◌, Option, none, some, if◌then◌else◌, show_int,
  str, quote, has_prefix, Result, ok, err, panic, Done, M, ◌>>=◌, ◌>>◌, pure, fail, crash, wrap,
  recover, when, tolerate, lift,
}
use lazyjack.Net.{Net}
use lazyjack.World.{Os}
use lazyjack.World.Path.{join_path}
use lazyjack.Files.{do_exec_command}
use lazyjack.Config.{
  Config, Node, cert_area, cni_conf_file, kube_adm_conf_file, default_token, node_of,
}
use lazyjack.Config.Writer.{new_config_writer, write_text, flush_last, flush}
use lazyjack.Plugin.{setup}
use lazyjack.Plugin.Content.{config_contents}

find_master : List (Bytes × Node) → Option Node
find_master [] = none
find_master ((_, node) ∷ rest) = if node.is_master then some node else find_master rest

unfoldable pub determine_master_node : Config → Option Node
unfolding find_master
determine_master_node c = find_master c.topology

unfoldable pub build_kube_adm_command : Node → Node → Config → List Bytes
build_kube_adm_command n master c =
    let file = join_path c.general.work_area kube_adm_conf_file in
    let token = if c.general.insecure then default_token else c.general.token in
    let check =
      if c.general.insecure
      then str "--discovery-token-unsafe-skip-ca-verification=true"
        ∷ str "--ignore-preflight-errors=all"
        ∷ []
      else str "--discovery-token-ca-cert-hash"
        ∷ (str "sha256:" ++ c.general.token_cert_hash)
        ∷ [] in
    if n.is_master
    then str "init" ∷ (str "--config=" ++ file) ∷ []
    else (str "join" ∷ str "--token" ∷ token ∷ [])
      ++ check
      ++ (str "[" ++ c.mgmt.info0.prefix ++ show_int master.id ++ str "]:6443") ∷ []

-- `args[0]`
abbrev first_arg : List Bytes → Bytes
first_arg [] = []
first_arg (a ∷ _) = a

module _ (o : Os) where
  unfoldable pub ensure_cni_area_exists : Bytes → M (o.World) Done
  ensure_cni_area_exists area = do o.remove_all area; o.mkdir_all area

  -- The contents are written; if that fails the file is closed, whatever that returns.
  write_cni_file : Bytes → Bytes → Result Bytes → M (o.World) Done
  write_cni_file filename plugin (ok contents) =
      recover (flush_last o (write_text contents (new_config_writer filename))) λ e.
        recover (o.close_file filename) (λ _. pure tt)
        >> fail (str "unable to create CNI config for " ++ plugin ++ str " plugin: " ++ e)
  write_cni_file filename plugin (err e) =
      recover (o.close_file filename) (λ _. pure tt)
      >> fail (str "unable to create CNI config for " ++ plugin ++ str " plugin: " ++ e)
  write_cni_file filename plugin panic = crash

  unfoldable pub create_cni_config_file : Node → Config → M (o.World) Done
  unfolding write_cni_file
  create_cni_config_file node c = do
    let filename = join_path c.general.cni_area cni_conf_file
    wrap (o.open_file filename) (λ e.
        str "unable to open CNI config file "
        ++ quote filename
        ++ str " for "
        ++ c.general.plugin
        ++ str " plugin: "
        ++ e)
    write_cni_file filename c.general.plugin (config_contents c.general.cni_plugin node c)
    wrap (o.close_file filename) (λ e.
        str "error closing CNI config file "
        ++ quote filename
        ++ str " for "
        ++ c.general.plugin
        ++ str " plugin: "
        ++ e)

  unfoldable pub restart_kubelet_service : M (o.World) Done
  restart_kubelet_service = do
    wrap (do_exec_command o (str "systemctl") (str "daemon-reload" ∷ []))
          (λ e. str "unable to reload daemons: " ++ e)
        >>= λ _. pure tt
    wrap (do_exec_command o (str "systemctl") (str "restart" ∷ str "kubelet" ∷ []))
          (λ e. str "unable to restart kubelet service: " ++ e)
        >>= λ _. pure tt

  -- The deferred `Close` of the destination: its error counts if there is no other.
  closed : Bytes → Bytes → Result Done × o.World → Result Done × o.World
  closed name path (ok _, w) =
      wrap (o.close_file path)
        (λ e. str "unable to close destination file " ++ quote name ++ str ": " ++ e) w
  closed name path (err e, w) = (recover (o.close_file path) (λ _. pure tt) >> fail e) w
  closed name path (panic, w) = (panic, w)

  copy_data : Bytes → Bytes → Bytes → M (o.World) Done
  copy_data name src dst = do
    wrap (o.copy_into (join_path dst name) (join_path src name)) (λ e.
        str "unable to copy "
        ++ quote name
        ++ str " from "
        ++ quote src
        ++ str " to "
        ++ quote dst
        ++ str ": "
        ++ e)
    wrap (o.sync_file (join_path dst name))
        (λ e. str "unable to flush data to destination file " ++ quote name ++ str ": " ++ e)

  -- The deferred `Close` of the source, whose error is dropped.
  behind_close : Result Done → Result Done × o.World → Result Done × o.World
  behind_close r (ok _, v) = (r, v)
  behind_close r (err e, v) = (r, v)
  behind_close r (panic, v) = (panic, v)

  source_closed : Bytes → Result Done × o.World → Result Done × o.World
  unfolding behind_close
  source_closed path (r, w) = behind_close r (o.close_file path w)

  -- What is done behind the opening of the source.
  copy_opened : Bytes → Bytes → Bytes → M (o.World) Done
  unfolding closed copy_data
  copy_opened name src dst = do
    wrap (o.create_file (join_path dst name))
        (λ e. str "unable to open destination file " ++ quote name ++ str ": " ++ e)
    λ w. closed name (join_path dst name) (copy_data name src dst w)

  unfoldable pub copy_file : Bytes → Bytes → Bytes → M (o.World) Done
  unfolding source_closed copy_opened
  copy_file name src dst = do
    wrap (o.open_source (join_path src name))
        (λ e. str "unable to open source file " ++ quote name ++ str ": " ++ e)
    λ w. source_closed (join_path src name) (copy_opened name src dst w)

  unfoldable pub place_certificate_and_key_for_ca : Bytes → Bytes → M (o.World) Done
  place_certificate_and_key_for_ca work_base dst = do
    let src = join_path work_base cert_area
    wrap (o.mkdir_all dst)
        (λ e. str "unable to create area for Kubernetes certificates (" ++ dst ++ str "): " ++ e)
    copy_file (str "ca.crt") src dst
    copy_file (str "ca.key") src dst

  kubeadm_start : Node → Config → Option Node → M (o.World) Done
  kubeadm_start n c none = fail (str "unable to determine master node")
  kubeadm_start n c (some master) =
      let args = build_kube_adm_command n master c in
      wrap (do_exec_command o (str "kubeadm") args)
        (λ e. str "unable to " ++ first_arg args ++ str " Kubernetes cluster: " ++ e)
      >>= λ _. pure tt

  unfoldable pub start_kubernetes : Node → Config → M (o.World) Done
  unfolding kubeadm_start
  start_kubernetes n c = kubeadm_start n c (determine_master_node c)

module _ (o : Os) (net : Net) where
  unfoldable pub setup_for_plugin : Node → Config → M (o.World) Done
  setup_for_plugin node c = do
    ensure_cni_area_exists o c.general.cni_area
    create_cni_config_file o node c
    setup o net c.general.cni_plugin node c

  -- `BringUp`; an error stands for the exit by `glog.Fatal`.
  unfoldable pub bring_up : Bytes → Config → M (o.World) Done
  bring_up name c =
      let node = node_of name c in
      when (node.is_master || node.is_minion) (do
        tolerate (has_prefix (str "skipping -")) (setup_for_plugin node c)
        restart_kubelet_service o
        when (node.is_master)
            (place_certificate_and_key_for_ca o c.general.work_area c.general.k8s_cert_area)
        start_kubernetes o node c)
