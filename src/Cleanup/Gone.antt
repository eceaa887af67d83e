-- ===== src/Cleanup/Gone.antt =====
-- What "clean" removes of the DNS64 server.
use lazyjack.Base.{
  Bytes, [], ◌∷◌, ◌++◌, ◌≡◌, ◌∙◌, ap, str, quote, Result, ok, err, panic, Done, M, ◌>>=◌, wrap,
  follow,
}
use lazyjack.Base.Rules.{Keeps, Keeps->>=, Keeps-fail}
use lazyjack.Base.Sequence.{made}
use lazyjack.Base.Steps.{caught-eq-ok}
use lazyjack.Hypervisor.{Hypervisor}
use lazyjack.Hypervisor.Laws.{HypervisorLaws}
use lazyjack.Config.{ResourceState, running, exists, not_present, dns64_name, dns64_volume}
use lazyjack.Cleanup.{container_for, remove_container, volume_for, cleanup_dns64_server}
use lazyjack.Cleanup.Attempts.{attempts, attempts_ok}

module _ {World : Type 0} (h : Hypervisor World) (state : Bytes → World → ResourceState)
    (L : HypervisorLaws h state) where
  -- A resource that is asked for and then deleted.
  asked-gone :
      (r : Bytes) (next : ResourceState → M World Done) (w : World)
      → ((x : ResourceState) (v : World)
          → (next x v).0 ≡ ok tt
          → state r (next x v).1 ≡ not_present)
      → ((h.resource_state r >>= next) w).0 ≡ ok tt
      → state r ((h.resource_state r >>= next) w).1 ≡ not_present
  asked-gone r next w gone e = step (h.resource_state r w) e
    where
      step :
          (k : Result ResourceState × World)
          → (follow next k).0 ≡ ok tt
          → state r (follow next k).1 ≡ not_present
      step (ok x, v) e = gone x v e
      step (err x, v) e = cc
      step (panic, v) e = cc

  remove_container-gone :
      (w : World)
      → (remove_container h dns64_name w).0 ≡ ok tt
      → state dns64_name (remove_container h dns64_name w).1 ≡ not_present
  unfolding remove_container container_for
  remove_container-gone w e = asked-gone dns64_name (container_for h dns64_name) w by_state e
    where
      deleted :
          (v : World)
          → (wrap
              (h.delete_container dns64_name)
              (λ e. str "unable to remove " ++ quote dns64_name ++ str " container: " ++ e)
              v).0
            ≡ ok tt
          → state dns64_name
              (wrap
                (h.delete_container dns64_name)
                (λ e. str "unable to remove " ++ quote dns64_name ++ str " container: " ++ e)
                v).1
            ≡ not_present
      deleted v e =
          let (f, q) =
            caught-eq-ok
              (λ e. str "unable to remove " ++ quote dns64_name ++ str " container: " ++ e)
              (h.delete_container dns64_name v) tt e in
          ap (λ (r : Result Done × World). state dns64_name r.1) q ∙ L.delete_dns64_gone v f

      by_state :
          (x : ResourceState) (v : World)
          → (container_for h dns64_name x v).0 ≡ ok tt
          → state dns64_name (container_for h dns64_name x v).1 ≡ not_present
      by_state not_present v e = cc
      by_state running v e = deleted v e
      by_state exists v e = deleted v e

  volume-gone :
      (w : World)
      → ((h.resource_state dns64_volume >>= volume_for h) w).0 ≡ ok tt
      → state dns64_volume ((h.resource_state dns64_volume >>= volume_for h) w).1 ≡ not_present
  unfolding volume_for
  volume-gone w e = asked-gone dns64_volume (volume_for h) w by_state e
    where
      by_state :
          (x : ResourceState) (v : World)
          → (volume_for h x v).0 ≡ ok tt
          → state dns64_volume (volume_for h x v).1 ≡ not_present
      by_state not_present v e = cc
      by_state running v e = L.delete_volume_gone v e
      by_state exists v e = L.delete_volume_gone v e

  volume-Keeps : Keeps (state dns64_name) (h.resource_state dns64_volume >>= volume_for h)
  unfolding volume_for
  volume-Keeps = Keeps->>= (L.asked_keeps dns64_volume dns64_name) by_state
    where
      by_state : (x : ResourceState) → Keeps (state dns64_name) (volume_for h x)
      by_state not_present = Keeps-fail
      by_state running = L.delete_volume_keeps
      by_state exists = L.delete_volume_keeps

  -- If cleaning up the DNS64 server succeeds, neither its container nor its volume is there any more.
  pub cleanup_dns64_server-gone :
      (w : World)
      → (cleanup_dns64_server h w).0 ≡ ok tt
      → (state dns64_name (cleanup_dns64_server h w).1 ≡ not_present)
        × (state dns64_volume (cleanup_dns64_server h w).1 ≡ not_present)
  unfolding cleanup_dns64_server attempts made
  cleanup_dns64_server-gone w e =
      let volume = h.resource_state dns64_volume >>= volume_for h in
      let ((a, (b, _)), same) = attempts_ok (remove_container h dns64_name ∷ volume ∷ []) w e in
      let v = (remove_container h dns64_name w).1 in
      (
        ap (state dns64_name) same ∙ volume-Keeps.kept_part v ∙ remove_container-gone w a,
        ap (state dns64_volume) same ∙ volume-gone v b,
      )
