-- ===== src/Prepare/Servers/Ensured.antt =====
-- A container that is ensured runs, or its error is none that is passed over.
use lazyjack.Base.{
  Bytes, List, ◌++◌, ◌≡◌, ◌≢◌, refl, sym, ◌∙◌, ap, false, str, has_prefix, Result, ok, err, panic,
  Done, M, ◌>>=◌, follow,
}
use lazyjack.Base.Skip.{Settled, Stops, Stops-wrap, Stops->>=, Settled->>=}
use lazyjack.World.{Os}
use lazyjack.World.Path.{join_path}
use lazyjack.Hypervisor.{Hypervisor}
use lazyjack.Hypervisor.Laws.{HypervisorLaws}
use lazyjack.Config.{
  Config, ResourceState, running, exists, not_present, dns64_name, dns64_volume, dns64_named_conf,
  nat64_name,
}
use lazyjack.Prepare.Servers.{
  is_skipping, create_config_for_dns64, create_named_conf_contents, start_dns64, dns64_server_for,
  ensure_dns64_server, start_nat64, nat64_server_for, ensure_nat64_server,
}

state_or : Result ResourceState → ResourceState
state_or (ok x) = x
state_or (err e) = not_present
state_or panic = not_present

module _ (o : Os) (h : Hypervisor (o.World)) (state : Bytes → o.World → ResourceState)
    (L : HypervisorLaws h state) where
  -- A container is seen to run, or is started.
  ensure-Settled :
      (name : Bytes) (next : ResourceState → M (o.World) Done) (w : o.World)
      → ((v : o.World)
          → state name v ≡ running
          → Settled is_skipping (λ u. state name u ≡ running) (next running v))
      → ((x : ResourceState) (v : o.World)
          → x ≢ running
          → Settled is_skipping (λ u. state name u ≡ running) (next x v))
      → Settled is_skipping (λ u. state name u ≡ running) ((h.resource_state name >>= next) w)
  unfolding state_or
  ensure-Settled name next w seen start =
      step (h.resource_state name w) (L.told name w) ((L.asked_keeps name name).kept_part w)
    where
      step :
          (r : Result ResourceState × o.World)
          → r.0 ≡ ok (state name w)
          → state name r.1 ≡ state name w
          → Settled is_skipping (λ u. state name u ≡ running) (follow next r)
      step (ok running, v) told same = seen v (same ∙ sym (ap state_or told))
      step (ok exists, v) told same = start exists v (λ e. cc)
      step (ok not_present, v) told same = start not_present v (λ e. cc)
      step (err e, v) told same = cc
      step (panic, v) told same = cc

  -- A container that is started runs, and no error of it is passed over.
  run-Settled :
      (what name : Bytes) (args : List Bytes) (w : o.World)
      → ((h.run_container what args w).0 ≡ ok tt
          → state name (h.run_container what args w).1 ≡ running)
      → Settled is_skipping (λ u. state name u ≡ running) (h.run_container what args w)
  run-Settled what name args w starts =
      step (h.run_container what args w) starts (L.run_error what args w)
    where
      step :
          (r : Result Done × o.World)
          → (r.0 ≡ ok tt → state name r.1 ≡ running)
          → ((e : Bytes) → r.0 ≡ err e → is_skipping e ≡ false)
          → Settled is_skipping (λ u. state name u ≡ running) r
      step (ok _, v) s e = s refl
      step (err x, v) s e = λ t. absurd (cc (e x refl))
      step (panic, v) s e = tt

  create_config_for_dns64-Stops : (c : Config) → Stops is_skipping (create_config_for_dns64 o h c)
  unfolding create_config_for_dns64 str has_prefix
  create_config_for_dns64-Stops c =
      Stops->>= is_skipping
        (Stops-wrap is_skipping (h.delete_volume dns64_volume)
          (λ e. str "unable to remove existing volume: " ++ e) (λ x. refl))
        λ _.
          Stops->>= is_skipping
            (Stops-wrap is_skipping (h.create_volume dns64_volume)
              (λ e. str "unable to create volume for DNS64 container use: " ++ e) (λ x. refl))
            λ _.
              Stops->>= is_skipping
                (Stops-wrap is_skipping (h.get_volume_mount_point dns64_volume)
                  (λ e. str "unable to determine mount point for volume: " ++ e) (λ x. refl))
                λ mount_point.
                  Stops-wrap is_skipping
                    (o.write_file (join_path mount_point dns64_named_conf)
                      (create_named_conf_contents c))
                    (λ e. str "unable to create named.conf for DNS64: " ++ e) (λ x. refl)

  start_dns64-Settled :
      (c : Config) (w : o.World)
      → Settled is_skipping (λ u. state dns64_name u ≡ running) (start_dns64 o h c w)
  unfolding start_dns64
  start_dns64-Settled c w =
      Settled->>= is_skipping _ _ w (create_config_for_dns64-Stops c)
        (λ _ _. run-Settled _ dns64_name _ _ (L.run_dns64_starts _ c _))

  pub ensure_dns64_server-Settled :
      (c : Config) (w : o.World)
      → Settled is_skipping (λ u. state dns64_name u ≡ running) (ensure_dns64_server o h c w)
  unfolding ensure_dns64_server dns64_server_for str has_prefix
  ensure_dns64_server-Settled c w =
      ensure-Settled dns64_name (dns64_server_for o h c) w (λ v e t. e) start
    where
      start :
          (x : ResourceState) (v : o.World)
          → x ≢ running
          → Settled is_skipping (λ u. state dns64_name u ≡ running) (dns64_server_for o h c x v)
      start running v ne = absurd (ne refl)
      start exists v ne =
          Settled->>= is_skipping _ _ v
            (Stops-wrap is_skipping (h.delete_container dns64_name)
              (λ e. str "unable to remove existing (non-running) DNS64 container: " ++ e)
              (λ x. refl))
            (λ _ _. start_dns64-Settled c _)
      start not_present v ne = start_dns64-Settled c v

  pub ensure_nat64_server-Settled :
      (c : Config) (w : o.World)
      → Settled is_skipping (λ u. state nat64_name u ≡ running) (ensure_nat64_server o h c w)
  unfolding ensure_nat64_server nat64_server_for start_nat64 str has_prefix
  ensure_nat64_server-Settled c w =
      ensure-Settled nat64_name (nat64_server_for o h c) w (λ v e t. e) start
    where
      start :
          (x : ResourceState) (v : o.World)
          → x ≢ running
          → Settled is_skipping (λ u. state nat64_name u ≡ running) (nat64_server_for o h c x v)
      start running v ne = absurd (ne refl)
      start exists v ne =
          Settled->>= is_skipping _ _ v
            (Stops-wrap is_skipping (h.delete_container nat64_name)
              (λ e. str "unable to remove existing (non-running) NAT64 container: " ++ e)
              (λ x. refl))
            (λ _ _. run-Settled _ nat64_name _ _ (L.run_nat64_starts _ c _))
      start not_present v ne = run-Settled _ nat64_name _ v (L.run_nat64_starts _ c v)
