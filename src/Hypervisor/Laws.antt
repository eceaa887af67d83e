-- ===== src/Hypervisor/Laws.antt =====
-- What is assumed of a hypervisor, by the state of each container, network and volume.
use lazyjack.Base.{Bytes, List, ◌≡◌, false, str, has_prefix, ok, err}
use lazyjack.Base.Rules.{Keeps}
use lazyjack.Config.{
  Config, ResourceState, not_present, running, dns64_name, dns64_volume, nat64_name,
}
use lazyjack.Docker.Args.{build_run_args_for_dns64, build_run_args_for_nat64}
use lazyjack.Hypervisor.{Hypervisor}

-- The operations on the two containers and the volume. `Keeps (state r)` says that a resource is
-- left as it is.
pub record HypervisorLaws {World : Type 0} (h : Hypervisor World)
    (state : Bytes → World → ResourceState) : Type 0 where
  pub told : (r : Bytes) (w : World) → (h.resource_state r w).0 ≡ ok (state r w)
  pub asked_keeps : (r q : Bytes) → Keeps (state q) (h.resource_state r)
  -- A container that is run with success is running.
  pub run_dns64_starts :
      (what : Bytes) (c : Config) (w : World)
      → (h.run_container what (build_run_args_for_dns64 c) w).0 ≡ ok tt
      → state dns64_name (h.run_container what (build_run_args_for_dns64 c) w).1 ≡ running
  pub run_nat64_starts :
      (what : Bytes) (c : Config) (w : World)
      → (h.run_container what (build_run_args_for_nat64 c) w).0 ≡ ok tt
      → state nat64_name (h.run_container what (build_run_args_for_nat64 c) w).1 ≡ running
  pub run_nat64_keeps :
      (what : Bytes) (c : Config)
      → Keeps (state dns64_name) (h.run_container what (build_run_args_for_nat64 c))
  pub run_error :
      (what : Bytes) (args : List Bytes) (w : World) (e : Bytes)
      → (h.run_container what args w).0 ≡ err e
      → has_prefix (str "skipping") e ≡ false
  pub delete_dns64_gone :
      (w : World)
      → (h.delete_container dns64_name w).0 ≡ ok tt
      → state dns64_name (h.delete_container dns64_name w).1 ≡ not_present
  pub delete_nat64_keeps : Keeps (state dns64_name) (h.delete_container nat64_name)
  pub delete_volume_gone :
      (w : World)
      → (h.delete_volume dns64_volume w).0 ≡ ok tt
      → state dns64_volume (h.delete_volume dns64_volume w).1 ≡ not_present
  pub delete_volume_keeps : Keeps (state dns64_name) (h.delete_volume dns64_volume)
  -- What is done inside the DNS64 container.
  pub interface_keeps :
      (name : Bytes) → Keeps (state dns64_name) (h.get_interface_config dns64_name name)
  pub address_keeps : (ip : Bytes) → Keeps (state dns64_name) (h.delete_v4_address dns64_name ip)
  pub route_keeps :
      (dest via : Bytes) → Keeps (state dns64_name) (h.add_v6_route dns64_name dest via)
