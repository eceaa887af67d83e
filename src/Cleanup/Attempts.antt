-- ===== src/Cleanup/Attempts.antt =====
-- "clean" makes all of its steps, whichever of them fail.
use lazyjack.Base.{
  Bytes, List, [], ◌∷◌, ◌++◌, ◌≡◌, ◌≢◌, ◌↔◌, refl, sym, ◌∙◌, ap, subst, Bool, true, false, not,
  ◌&&◌, ◌||◌, Bool-cases, inl, inr, Result, ok, err, panic, Done, M, ◌>>=◌, lift, follow, kept,
  collect,
}
use lazyjack.Base.Sequence.{made, AllSucceed, NonePanics}
use lazyjack.Net.{Net}
use lazyjack.World.{Os}
use lazyjack.Docker.{docker}
use lazyjack.Config.{
  Config, Node, node_of, is_ipv6_mode, etc_hosts_file, etc_hosts_backup_file, etc_resolv_conf_file,
  etc_resolv_conf_backup_file,
}
use lazyjack.Cleanup.{
  all_errors, collect_if, remove_drop_in_file, remove_management_ip, revert_etc_area_file,
  remove_route_for_dns64, remove_route_for_nat64, cleanup_cluster_node, cleanup_nat64_server,
  cleanup_dns64_server, cleanup_support_network, cleanup,
}

module _ {S : Type 0} where
  abbrev pub optional : Bool → M S Done → List (M S Done)
  optional true m = m ∷ []
  optional false m = []

  -- The result and the state of an operation that makes all of the steps and fails if one does.
  pub record MakesAll (ms : List (M S Done)) (run : M S Done) (s : S) : Type 0 where
    pub all_made : (run s).1 ≡ made ms s
    pub succeeds : ((run s).0 ≡ ok tt) ↔ AllSucceed ms s

  unfoldable pub attempts : List (M S Done) → List Bytes → M S Done
  attempts [] all = lift (all_errors all)
  attempts (m ∷ ms) all = collect all m >>= attempts ms

  attempts-made :
      (ms : List (M S Done)) (all : List Bytes) (s : S)
      → NonePanics ms s
      → (attempts ms all s).1 ≡ made ms s
  unfolding attempts made
  attempts-made [] all s h = refl
  attempts-made (m ∷ ms) all s (h, hs) = step (m s) h (λ more. attempts-made ms more (m s).1 hs)
    where
      step :
          (r : Result Done × S)
          → r.0 ≢ panic
          → ((more : List Bytes) → (attempts ms more r.1).1 ≡ made ms r.1)
          → (follow (attempts ms) (kept all r)).1 ≡ made ms r.1
      step (ok _, t) p ih = ih all
      step (err e, t) p ih = ih (all ++ e ∷ [])
      step (panic, t) p ih = absurd (p refl)

  attempts_failed :
      (ms : List (M S Done)) (e : Bytes) (all : List Bytes) (s : S)
      → (attempts ms (e ∷ all) s).0 ≢ ok tt
  unfolding attempts all_errors
  attempts_failed [] e all s h = cc
  attempts_failed (m ∷ ms) e all s h = step (m s) (λ more. attempts_failed ms e more (m s).1) h
    where
      step :
          (r : Result Done × S)
          → ((more : List Bytes) → (attempts ms (e ∷ more) r.1).0 ≢ ok tt)
          → (follow (attempts ms) (kept (e ∷ all) r)).0 ≡ ok tt
          → ⊥
      step (ok _, t) ih p = ih all p
      step (err f, t) ih p = ih (all ++ f ∷ []) p
      step (panic, t) ih p = cc

  attempts-succeed :
      (ms : List (M S Done)) (s : S) → ((attempts ms [] s).0 ≡ ok tt) ↔ AllSucceed ms s
  unfolding attempts all_errors
  attempts-succeed [] s = (λ h. tt, λ h. refl)
  attempts-succeed (m ∷ ms) s = step (m s) (attempts-succeed ms (m s).1)
    where
      step :
          (r : Result Done × S)
          → ((attempts ms [] r.1).0 ≡ ok tt) ↔ AllSucceed ms r.1
          → ((follow (attempts ms) (kept [] r)).0 ≡ ok tt) ↔ ((r.0 ≡ ok tt) × AllSucceed ms r.1)
      step (ok _, t) ih = (λ h. (refl, ih.0 h), λ (_, h). ih.1 h)
      step (err e, t) ih = (λ h. absurd (attempts_failed ms e [] t h), λ (h, _). cc)
      step (panic, t) ih = (λ h. cc, λ (h, _). cc)

  attempts-MakesAll :
      (ms : List (M S Done)) (s : S) → NonePanics ms s → MakesAll ms (attempts ms []) s
  attempts-MakesAll ms s h = record {
    all_made = attempts-made ms [] s h;
    succeeds = attempts-succeed ms s;
  }

  AllSucceed-NonePanics : (ms : List (M S Done)) (s : S) → AllSucceed ms s → NonePanics ms s
  AllSucceed-NonePanics [] s h = tt
  AllSucceed-NonePanics (m ∷ ms) s (e, h) = (λ p. cc, AllSucceed-NonePanics ms (m s).1 h)

  pub attempts_ok :
      (ms : List (M S Done)) (s : S)
      → (attempts ms [] s).0 ≡ ok tt
      → AllSucceed ms s × ((attempts ms [] s).1 ≡ made ms s)
  attempts_ok ms s e =
      let all = (attempts-succeed ms s).0 e in
      (all, attempts-made ms [] s (AllSucceed-NonePanics ms s all))

  -- A step under a condition is an optional one.
  optional-attempts :
      (b : Bool) (m : M S Done) (k : List Bytes → M S Done) (ms : List (M S Done))
      → ((all : List Bytes) (s : S) → k all s ≡ attempts ms all s)
      → (all : List Bytes) (s : S)
      → (collect_if b all m >>= k) s ≡ attempts (optional b m ++ ms) all s
  unfolding attempts
  optional-attempts true m k ms h all s = step (m s)
    where
      step : (r : Result Done × S) → follow k (kept all r) ≡ follow (attempts ms) (kept all r)
      step (ok _, t) = h all t
      step (err e, t) = h (all ++ e ∷ []) t
      step (panic, t) = refl
  optional-attempts false m k ms h all s = h all s

module _ (o : Os) (net : Net) where
  -- The steps of `CleanupClusterNode`.
  abbrev pub node_steps : Node → Config → List (M (o.World) Done)
  node_steps node c =
      remove_drop_in_file o c
      ∷ remove_management_ip o net node c
      ∷ revert_etc_area_file o c etc_hosts_file etc_hosts_backup_file
      ∷ revert_etc_area_file o c etc_resolv_conf_file etc_resolv_conf_backup_file
      ∷ (optional (is_ipv6_mode c) (remove_route_for_dns64 o net node c)
          ++ optional (is_ipv6_mode c && (not node.is_nat64_server && not node.is_dns64_server))
              (remove_route_for_nat64 o net node c))

  -- Cleaning up a node makes every step that its configuration asks for, in order, whichever of
  -- them fail, and succeeds exactly if all succeed; provided that none panics.
  pub cleanup_cluster_node-MakesAll :
      (node : Node) (c : Config) (w : o.World)
      → NonePanics (node_steps node c) w
      → MakesAll (node_steps node c) (cleanup_cluster_node o net node c) w
  unfolding cleanup_cluster_node attempts
  cleanup_cluster_node-MakesAll node c w h =
      let last = is_ipv6_mode c && (not node.is_nat64_server && not node.is_dns64_server) in
      elim (Bool-cases (is_ipv6_mode c)) [
        | inl a ↦ elim (Bool-cases (not node.is_nat64_server && not node.is_dns64_server)) [
          | inl b ↦ rw (a, b) (attempts-MakesAll _ w (rw (a, b) at h))
          | inr b ↦ rw (a, b) (attempts-MakesAll _ w (rw (a, b) at h))
        ]
        | inr a ↦ rw a (attempts-MakesAll _ w (rw a at h))
      ]

  -- The steps of `Cleanup` for a node.
  abbrev pub all_steps : Node → Config → List (M (o.World) Done)
  all_steps node c =
      optional (node.is_master || node.is_minion) (cleanup_cluster_node o net node c)
      ++ (optional (is_ipv6_mode c && node.is_dns64_server) (cleanup_dns64_server (docker o))
          ++ (optional (is_ipv6_mode c && node.is_nat64_server)
                (cleanup_nat64_server o net (docker o) c)
              ++ (optional (is_ipv6_mode c && (node.is_dns64_server || node.is_nat64_server))
                    (cleanup_support_network (docker o))
                  ++ [])))

  -- The same for the whole action, for the node of the given name.
  pub cleanup-MakesAll :
      (name : Bytes) (c : Config) (w : o.World)
      → NonePanics (all_steps (node_of name c) c) w
      → MakesAll (all_steps (node_of name c) c) (cleanup o net name c) w
  unfolding cleanup
  cleanup-MakesAll name c w h =
      let node = node_of name c in
      let v6 = is_ipv6_mode c in
      let same =
        optional-attempts (node.is_master || node.is_minion) (cleanup_cluster_node o net node c) _ _
          (optional-attempts (v6 && node.is_dns64_server) (cleanup_dns64_server (docker o)) _ _ (
            optional-attempts (v6 && node.is_nat64_server) (cleanup_nat64_server o net (docker o) c)
              _ _
              (optional-attempts (v6 && (node.is_dns64_server || node.is_nat64_server))
                (cleanup_support_network (docker o)) (λ all. lift (all_errors all)) []
                (λ all s. unfold attempts in refl))))
          [] w in
      let all = attempts-MakesAll (all_steps node c) w h in
      record {
        all_made = ap (λ r. r.1) same ∙ all.all_made;
        succeeds =
            subst (λ r. (r.0 ≡ ok tt) ↔ AllSucceed (all_steps node c) w) (sym same) all.succeeds;
      }
