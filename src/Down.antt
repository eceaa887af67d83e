-- ===== src/Down.antt =====
-- down.go: the action "down". Its errors are logged and passed over.
pub mod Always
use lazyjack.Base.{Bytes, [], ◌∷◌, ◌++◌, ◌||◌, str, Done, M, ◌>>=◌, ◌>>◌, pure, wrap, recover, when}
use lazyjack.Net.{Net}
use lazyjack.World.{Os}
use lazyjack.Files.{do_exec_command}
use lazyjack.Config.{Config, Node, node_of}
use lazyjack.Plugin.{cleanup_plugin}

module _ (o : Os) where
  unfoldable pub stop_kubernetes : M (o.World) Done
  stop_kubernetes =
      wrap (do_exec_command o (str "kubeadm") (str "reset" ∷ str "-f" ∷ []))
        (λ e. str "unable to reset Kubernetes cluster: " ++ e)
      >>= λ _. pure tt

module _ (o : Os) (net : Net) where
  unfoldable pub cleanup_for_plugin : Node → Config → M (o.World) Done
  cleanup_for_plugin node c = do
    cleanup_plugin o net c.general.cni_plugin node c
    wrap (o.remove_all c.general.cni_area)
        (λ e. str "unable to remove CNI config file and area: " ++ e)

  unfoldable pub tear_down : Bytes → Config → M (o.World) Done
  tear_down name c =
      let node = node_of name c in
      when (node.is_master || node.is_minion) (
        recover (stop_kubernetes o) (λ _. pure tt)
        >> recover (cleanup_for_plugin node c) (λ _. pure tt))
