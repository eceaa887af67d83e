-- ===== src/Hypervisor.antt =====
-- hypervisor.go: the operations of a hypervisor, on the states of a world.
pub mod Laws
use lazyjack.Base.{Bytes, List, Done, M}
use lazyjack.Config.{ResourceState}

pub record Hypervisor (World : Type 0) : Type 0 where
  pub resource_state : Bytes → M World ResourceState
  pub delete_container : Bytes → M World Done
  pub run_container : Bytes → List Bytes → M World Done
  pub create_network : Bytes → Bytes → Bytes → Bytes → M World Done
  pub delete_network : Bytes → M World Done
  pub get_interface_config : Bytes → Bytes → M World Bytes
  pub delete_v4_address : Bytes → Bytes → M World Done
  pub add_v6_route : Bytes → Bytes → Bytes → M World Done
  pub create_volume : Bytes → M World Done
  pub delete_volume : Bytes → M World Done
  pub get_volume_mount_point : Bytes → M World Bytes
