-- ===== src/Docker.antt =====
-- docker.go: the operations of a hypervisor as docker commands.
pub mod Args
pub mod Laws
use lazyjack.Base.{
  Bytes, List, [], ◌∷◌, ◌++◌, Bool, true, false, ◌||◌, if◌then◌else◌, ◌==◌, str, contains, trim,
  quote, Result, ok, err, panic, Done, M, ◌>>=◌, ◌>>◌, pure,
}
use lazyjack.Config.{ResourceState, not_present, running, exists}
use lazyjack.Hypervisor.{Hypervisor}
use lazyjack.World.{Os, Ran, succeeded, failed}
use lazyjack.Docker.Args

abbrev pub default_docker_command : Bytes
default_docker_command = str "docker"

module _ (o : Os) where
  docker_result : Bytes → Bytes → Ran × o.World → Result Bytes × o.World
  docker_result cmd name (succeeded out, w) = (ok out, w)
  docker_result cmd name (failed e out, w) = (
    err (
        str "docker "
        ++ quote cmd
        ++ str " failed for "
        ++ quote name
        ++ str ": "
        ++ e
        ++ str " ("
        ++ out
        ++ str ")"),
    w,
  )

  -- `args[0]` panics if there is none.
  unfoldable pub do_command : Bytes → List Bytes → M (o.World) Bytes
  unfolding docker_result
  do_command name [] w = (panic, w)
  do_command name (cmd ∷ args) w =
      docker_result cmd name (o.output default_docker_command (cmd ∷ args) w)

  run : Bytes → List Bytes → M (o.World) Done
  unfolding do_command
  run name args = do_command name args >>= λ _. pure tt

  resource_state_of : Result Bytes × o.World → Result ResourceState × o.World
  resource_state_of (ok out, w) =
      (ok (if contains (str "\"Running\": true") out then running else exists), w)
  resource_state_of (err e, w) = (ok not_present, w)
  resource_state_of (panic, w) = (panic, w)

  unfoldable pub resource_state : Bytes → M (o.World) ResourceState
  unfolding resource_state_of
  resource_state r w =
      resource_state_of (do_command (str "Resource State") (Args.build_resource_state_args r) w)

  unfoldable pub get_interface_config : Bytes → Bytes → M (o.World) Bytes
  get_interface_config name if_name =
      do_command (str "Get I/F config") (Args.build_get_interface_args name if_name)

  unfoldable pub delete_v4_address : Bytes → Bytes → M (o.World) Done
  unfolding run
  delete_v4_address container ip =
      run (str "Delete IPv4 addr") (Args.build_v4_addr_del_args container ip)

  unfoldable pub add_v6_route : Bytes → Bytes → Bytes → M (o.World) Done
  unfolding run
  add_v6_route container dest via =
      run (str "Add IPv6 route") (Args.build_add_route_args container dest via)

  unfoldable pub delete_container : Bytes → M (o.World) Done
  unfolding run
  delete_container name = run (str "Delete container") (Args.build_delete_container_args name)

  unfoldable pub run_container : Bytes → List Bytes → M (o.World) Done
  unfolding run
  run_container name args = run (str "Run container") args

  unfoldable pub create_network : Bytes → Bytes → Bytes → Bytes → M (o.World) Done
  unfolding run
  create_network name cidr v4cidr gw =
      run (str "Create network") (Args.build_create_net_args_for name cidr v4cidr gw)

  unfoldable pub delete_network : Bytes → M (o.World) Done
  unfolding run
  delete_network name = run (str "Delete network") (Args.build_delete_net_args_for name)

  unfoldable pub create_volume : Bytes → M (o.World) Done
  unfolding run
  create_volume name = run (str "Volume create") (Args.build_create_volume_args name)

  unfoldable pub delete_volume : Bytes → M (o.World) Done
  unfolding run
  delete_volume name = run (str "Volume delete") (Args.build_delete_volume_args name)

  unfoldable pub get_volume_mount_point : Bytes → M (o.World) Bytes
  get_volume_mount_point name = do
    mount_point ← do_command (str "Volume inspect") (Args.build_inspect_volume_args name)
    pure (trim (λ c. c == b'"' || c == 10) mount_point)

-- `Docker` as a `Hypervisor`.
abbrev pub docker : (o : Os) → Hypervisor (o.World)
docker o = record {
  resource_state = resource_state o;
  delete_container = delete_container o;
  run_container = run_container o;
  create_network = create_network o;
  delete_network = delete_network o;
  get_interface_config = get_interface_config o;
  delete_v4_address = delete_v4_address o;
  add_v6_route = add_v6_route o;
  create_volume = create_volume o;
  delete_volume = delete_volume o;
  get_volume_mount_point = get_volume_mount_point o;
}
