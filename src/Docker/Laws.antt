-- ===== src/Docker/Laws.antt =====
-- `docker` keeps the laws of a hypervisor, if the docker command does what it documents.
use lazyjack.Base.{
  Bytes, List, [], ◌∷◌, ◌≡◌, refl, ◌∙◌, ap, subst, true, false, str, has_prefix, contains, Result,
  ok, err, Done, pure, follow,
}
use lazyjack.World.{Os, Ran, succeeded, failed}
use lazyjack.Config.{
  Config, ResourceState, not_present, running, exists, dns64_name, dns64_volume, nat64_name,
}
use lazyjack.Hypervisor.Laws.{HypervisorLaws}
use lazyjack.Docker.{
  default_docker_command, docker_result, do_command, run, resource_state_of, resource_state,
  get_interface_config, delete_v4_address, add_v6_route, delete_container, run_container,
  delete_volume, docker,
}
use lazyjack.Docker.Args

-- What a run of "docker inspect" says of a resource: it fails if there is none, and its output
-- holds the line of a running container exactly if the resource is one.
abbrev pub Inspected : Ran → ResourceState → Type 0
Inspected (succeeded out) running = contains (str "\"Running\": true") out ≡ true
Inspected (succeeded out) exists = contains (str "\"Running\": true") out ≡ false
Inspected (failed e out) not_present = Unit {0}
Inspected (succeeded out) not_present = ⊥
Inspected (failed e out) running = ⊥
Inspected (failed e out) exists = ⊥

-- The state that a command leaves.
abbrev pub after : (o : Os) → List Bytes → o.World → o.World
after o args w = (o.output default_docker_command args w).1

-- The command ended with success.
abbrev pub Succeeds : Ran → Type 0
Succeeds (succeeded out) = Unit {0}
Succeeds (failed e out) = ⊥

abbrev pub Ends : (o : Os) → List Bytes → o.World → Type 0
Ends o args w = Succeeds (o.output default_docker_command args w).0

-- The docker commands, with a daemon that answers, by the state of each container and volume.
pub record DockerLaws (o : Os) (state : Bytes → o.World → ResourceState) : Type 0 where
  pub inspect_tells :
      (r : Bytes) (w : o.World)
      → Inspected
          (o.output default_docker_command (Args.build_resource_state_args r) w).0
          (state r w)
  pub inspect_keeps :
      (r q : Bytes) (w : o.World)
      → state q (after o (Args.build_resource_state_args r) w) ≡ state q w
  -- "docker run -d" that succeeds has started the container.
  pub run_dns64 :
      (c : Config) (w : o.World)
      → Ends o (Args.build_run_args_for_dns64 c) w
      → state dns64_name (after o (Args.build_run_args_for_dns64 c) w) ≡ running
  pub run_nat64 :
      (c : Config) (w : o.World)
      → Ends o (Args.build_run_args_for_nat64 c) w
      → state nat64_name (after o (Args.build_run_args_for_nat64 c) w) ≡ running
  pub run_nat64_keeps :
      (c : Config) (w : o.World)
      → state dns64_name (after o (Args.build_run_args_for_nat64 c) w) ≡ state dns64_name w
  -- "docker rm -f" and "docker volume rm -f" that succeed have removed their argument.
  pub rm_dns64 :
      (w : o.World)
      → Ends o (Args.build_delete_container_args dns64_name) w
      → state dns64_name (after o (Args.build_delete_container_args dns64_name) w) ≡ not_present
  pub rm_nat64_keeps :
      (w : o.World)
      → state dns64_name (after o (Args.build_delete_container_args nat64_name) w)
        ≡ state dns64_name w
  pub volume_rm :
      (w : o.World)
      → Ends o (Args.build_delete_volume_args dns64_volume) w
      → state dns64_volume (after o (Args.build_delete_volume_args dns64_volume) w) ≡ not_present
  pub volume_rm_keeps :
      (w : o.World)
      → state dns64_name (after o (Args.build_delete_volume_args dns64_volume) w)
        ≡ state dns64_name w
  -- "docker exec" of ip in the container leaves the container as it is.
  pub exec_list_keeps :
      (name : Bytes) (w : o.World)
      → state dns64_name (after o (Args.build_get_interface_args dns64_name name) w)
        ≡ state dns64_name w
  pub exec_del_keeps :
      (ip : Bytes) (w : o.World)
      → state dns64_name (after o (Args.build_v4_addr_del_args dns64_name ip) w)
        ≡ state dns64_name w
  pub exec_route_keeps :
      (dest via : Bytes) (w : o.World)
      → state dns64_name (after o (Args.build_add_route_args dns64_name dest via) w)
        ≡ state dns64_name w

abbrev result_of : Bytes → Result Done
result_of e = err e

err_eq : {s t : Bytes} → result_of s ≡ result_of t → s ≡ t
err_eq e = cc

module _ (o : Os) where
  result-state : (cmd name : Bytes) (r : Ran × o.World) → (docker_result o cmd name r).1 ≡ r.1
  unfolding docker_result
  result-state cmd name (succeeded out, w) = refl
  result-state cmd name (failed e out, w) = refl

  ran-state :
      (cmd name : Bytes) (r : Ran × o.World)
      → (follow (λ _. pure tt) (docker_result o cmd name r)).1 ≡ r.1
  unfolding docker_result
  ran-state cmd name (succeeded out, w) = refl
  ran-state cmd name (failed e out, w) = refl

  ran-Succeeds :
      (cmd name : Bytes) (r : Ran × o.World)
      → (follow (λ _. pure {A = Done} tt) (docker_result o cmd name r)).0 ≡ ok tt
      → Succeeds r.0
  unfolding docker_result
  ran-Succeeds cmd name (succeeded out, w) e = tt
  ran-Succeeds cmd name (failed x out, w) e = cc

  ran-error :
      (cmd name : Bytes) (r : Ran × o.World) (e : Bytes)
      → (follow (λ _. pure {A = Done} tt) (docker_result o cmd name r)).0 ≡ err e
      → has_prefix (str "skipping") e ≡ false
  unfolding docker_result str has_prefix
  ran-error cmd name (succeeded out, w) e h = cc
  ran-error cmd name (failed x out, w) e h =
      subst (λ t. has_prefix (str "skipping") t ≡ false) (err_eq h) refl

  run_container-error :
      (what : Bytes) (args : List Bytes) (w : o.World) (e : Bytes)
      → (run_container o what args w).0 ≡ err e
      → has_prefix (str "skipping") e ≡ false
  unfolding run_container run do_command
  run_container-error what [] w e h = cc
  run_container-error what (cmd ∷ args) w e h =
      ran-error cmd (str "Run container") (o.output default_docker_command (cmd ∷ args) w) e h

  state_of-told :
      (r : Ran × o.World) (cmd name : Bytes) (x : ResourceState)
      → Inspected r.0 x
      → resource_state_of o (docker_result o cmd name r) ≡ (ok x, r.1)
  unfolding docker_result resource_state_of
  state_of-told (succeeded out, w) cmd name running h = rw h
  state_of-told (succeeded out, w) cmd name exists h = rw h
  state_of-told (succeeded out, w) cmd name not_present h = absurd h
  state_of-told (failed e out, w) cmd name running h = absurd h
  state_of-told (failed e out, w) cmd name exists h = absurd h
  state_of-told (failed e out, w) cmd name not_present h = refl

  -- The program's hypervisor, `Docker`, keeps the laws of a hypervisor, if the docker commands do
  -- what they document.
  pub docker-HypervisorLaws :
      (state : Bytes → o.World → ResourceState)
      → DockerLaws o state
      → HypervisorLaws (docker o) state
  unfolding resource_state get_interface_config delete_v4_address add_v6_route delete_container
      run_container delete_volume run do_command Args.build_resource_state_args
      Args.build_run_args_for_dns64 Args.build_run_args_for_nat64 Args.build_delete_container_args
      Args.build_delete_volume_args Args.build_get_interface_args Args.build_v4_addr_del_args
      Args.build_add_route_args
  docker-HypervisorLaws state L = record {
    told = λ r w. ap (λ x. x.0) (state_of-told _ _ _ _ (L.inspect_tells r w));
    asked_keeps = λ r q. record {
      kept_part = λ w.
          ap (λ x. state q x.1) (state_of-told _ _ _ _ (L.inspect_tells r w))
          ∙ L.inspect_keeps r q w;
    };
    run_dns64_starts = λ what c w e.
        ap (state dns64_name) (ran-state _ _ _) ∙ L.run_dns64 c w (ran-Succeeds _ _ _ e);
    run_nat64_starts = λ what c w e.
        ap (state nat64_name) (ran-state _ _ _) ∙ L.run_nat64 c w (ran-Succeeds _ _ _ e);
    run_nat64_keeps = λ what c. record {
      kept_part = λ w. ap (state dns64_name) (ran-state _ _ _) ∙ L.run_nat64_keeps c w;
    };
    run_error = run_container-error;
    delete_dns64_gone =
        λ w e. ap (state dns64_name) (ran-state _ _ _) ∙ L.rm_dns64 w (ran-Succeeds _ _ _ e);
    delete_nat64_keeps = record {
      kept_part = λ w. ap (state dns64_name) (ran-state _ _ _) ∙ L.rm_nat64_keeps w;
    };
    delete_volume_gone =
        λ w e. ap (state dns64_volume) (ran-state _ _ _) ∙ L.volume_rm w (ran-Succeeds _ _ _ e);
    delete_volume_keeps = record {
      kept_part = λ w. ap (state dns64_name) (ran-state _ _ _) ∙ L.volume_rm_keeps w;
    };
    interface_keeps = λ name. record {
      kept_part = λ w. ap (state dns64_name) (result-state _ _ _) ∙ L.exec_list_keeps name w;
    };
    address_keeps = λ ip. record {
      kept_part = λ w. ap (state dns64_name) (ran-state _ _ _) ∙ L.exec_del_keeps ip w;
    };
    route_keeps = λ dest via. record {
      kept_part = λ w. ap (state dns64_name) (ran-state _ _ _) ∙ L.exec_route_keeps dest via w;
    };
  }
