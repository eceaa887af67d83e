-- ===== src/NetMgr/Bridge.antt =====
-- `RemoveBridge` makes both of its steps.
use lazyjack.Base.{Bytes, ◌≡◌, ◌≢◌, ◌↔◌, refl, Result, ok, err, panic, Done}
use lazyjack.Net.{Net}
use lazyjack.World.{Os}
use lazyjack.NetMgr.{bring_link_down, delete_link, both_results, then_delete, remove_bridge}

module _ (o : Os) (net : Net) where
  both_results-fail :
      (e : Bytes) (r : Result Done × o.World)
      → ((both_results o net e r).0 ≢ ok tt) × ((both_results o net e r).1 ≡ r.1)
  unfolding both_results
  both_results-fail e (ok _, w) = (λ h. cc, refl)
  both_results-fail e (err f, w) = (λ h. cc, refl)
  both_results-fail e (panic, w) = (λ h. cc, refl)

  then_delete_lem :
      (name : Bytes) (r : Result Done × o.World)
      → r.0 ≢ panic
      → (((then_delete o net name r).0 ≡ ok tt)
          ↔ ((r.0 ≡ ok tt) × ((delete_link o net name r.1).0 ≡ ok tt)))
        × ((then_delete o net name r).1 ≡ (delete_link o net name r.1).1)
  unfolding then_delete
  then_delete_lem name (ok _, w) h = ((λ e. (refl, e), λ (_, e). e), refl)
  then_delete_lem name (err e, w) h =
      let (a, b) = both_results-fail e (delete_link o net name w) in
      ((λ f. absurd (a f), λ (f, _). cc), b)
  then_delete_lem name (panic, w) h = absurd (h refl)

  -- Removing a bridge succeeds exactly if the link is brought down and is deleted, with success;
  -- and the deletion is made in any case, after the first step, unless that one panics.
  pub remove_bridge_lem :
      (name : Bytes) (w : o.World)
      → (bring_link_down o net name w).0 ≢ panic
      → (((remove_bridge o net name w).0 ≡ ok tt) ↔ (
          ((bring_link_down o net name w).0 ≡ ok tt)
          × ((delete_link o net name (bring_link_down o net name w).1).0 ≡ ok tt)))
        × ((remove_bridge o net name w).1
            ≡ (delete_link o net name (bring_link_down o net name w).1).1)
  unfolding remove_bridge
  remove_bridge_lem name w h = then_delete_lem name (bring_link_down o net name w) h
