-- ===== src/Tests/Checks.antt =====
-- Validation, the network manager and the plugin, at concrete data.
use lazyjack.Base.{
  Bytes, [], ◌≡◌, ◌≢◌, ◌↔◌, ◌⊎◌, refl, true, none, str, eq_str, equal_fold, to_lower, ok, panic,
}
use lazyjack.Base.Split.{split}
use lazyjack.Config.{Config, Node, put}
use lazyjack.Validate.Topology.{
  validate_unique_ids, validate_op_modes_for_all_nodes, validate_node_op_modes,
}
use lazyjack.Validate.Topology.Ids.{UniqueIds, validate_unique_ids_iff}
use lazyjack.Validate.Topology.Modes.{IsConsistent, SameNode, validate_node_op_modes-IsConsistent}
use lazyjack.Validate.Topology.Master.{
  FreshNames, Checked, masters, validate_op_modes_for_all_nodes-Checked,
}
use lazyjack.Validate.Token.{validate_token, validate_token_cert_hash}
use lazyjack.Validate.Token.Shape.{
  IsToken, IsHash, validate_token_iff, validate_token_cert_hash_iff,
}
use lazyjack.Validate.General.{validate_plugin}
use lazyjack.NetMgr.{bring_link_down, delete_link, remove_bridge}
use lazyjack.NetMgr.Bridge.{remove_bridge_lem}
use lazyjack.Up.{setup_for_plugin}
use lazyjack.Up.NilPlugin.{setup_for_plugin_by_default}
use lazyjack.Tests.Memory.{Store, memory, no_addresses}
use lazyjack.Tests.Etc.{node, config}

validate_unique_ids_iff_example : (validate_unique_ids config ≡ ok tt) ↔ UniqueIds config.topology
validate_unique_ids_iff_example = validate_unique_ids_iff config

validate_unique_ids_run : validate_unique_ids config ≡ ok tt
unfolding validate_unique_ids
validate_unique_ids_run = refl

abbrev checked : Config
checked = (validate_op_modes_for_all_nodes config).1

fresh : FreshNames [] config.topology
unfolding str eq_str
fresh = (tt, ((refl, tt), tt))

validate_op_modes_run : validate_op_modes_for_all_nodes config ≡ (ok tt, checked)
unfolding validate_op_modes_for_all_nodes validate_node_op_modes str eq_str equal_fold to_lower
    split put
validate_op_modes_run = refl

validate_op_modes_for_all_nodes-Checked_example :
    Checked config.topology checked.topology × (masters checked.topology ≡ 1)
validate_op_modes_for_all_nodes-Checked_example =
    validate_op_modes_for_all_nodes-Checked config checked fresh validate_op_modes_run

abbrev worker : Node
worker = node (str "b") 2 (str "Minion")

validate_node_op_modes_run : (validate_node_op_modes (str "ipv4") worker).0 ≡ ok tt
unfolding validate_node_op_modes str eq_str equal_fold to_lower split
validate_node_op_modes_run = refl

validate_node_op_modes-IsConsistent_example :
    IsConsistent (validate_node_op_modes (str "ipv4") worker).1
    × SameNode worker (validate_node_op_modes (str "ipv4") worker).1
validate_node_op_modes-IsConsistent_example =
    validate_node_op_modes-IsConsistent (str "ipv4") worker validate_node_op_modes_run

abbrev token : Bytes
token = str "abcdef.0123456789abcdef"

validate_token_iff_example :
    (validate_token token true ≡ ok tt) ↔ ((token ≡ []) × (true ≡ true)) ⊎ IsToken token
validate_token_iff_example = validate_token_iff token true

validate_token_cert_hash_iff_example :
    (validate_token_cert_hash token true ≡ ok tt) ↔ ((token ≡ []) × (true ≡ true)) ⊎ IsHash token
validate_token_cert_hash_iff_example = validate_token_cert_hash_iff token true

abbrev no_files : Store
no_files f = none

down_no_panic : (bring_link_down memory no_addresses (str "br0") no_files).0 ≢ panic
unfolding bring_link_down
down_no_panic = λ e. cc

remove_bridge_lem_example :
    (((remove_bridge memory no_addresses (str "br0") no_files).0 ≡ ok tt) ↔ (
      ((bring_link_down memory no_addresses (str "br0") no_files).0 ≡ ok tt)
      × ((delete_link memory no_addresses
            (str "br0")
            (bring_link_down memory no_addresses (str "br0") no_files).1).0
          ≡ ok tt)))
    × ((remove_bridge memory no_addresses (str "br0") no_files).1
        ≡ (delete_link memory no_addresses
            (str "br0")
            (bring_link_down memory no_addresses (str "br0") no_files).1).1)
remove_bridge_lem_example = remove_bridge_lem memory no_addresses (str "br0") no_files down_no_panic

setup_for_plugin_by_default_example :
    ((validate_plugin config).0 ≡ ok tt)
    × ((setup_for_plugin memory no_addresses worker (validate_plugin config).1 no_files).0 ≢ ok tt)
setup_for_plugin_by_default_example =
    setup_for_plugin_by_default memory no_addresses worker config no_files refl refl refl
