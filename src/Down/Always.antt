-- ===== src/Down/Always.antt =====
-- "down" makes both of its steps and succeeds, whatever they return.
use lazyjack.Base.{
  Bytes, List, [], ◌∷◌, ◌≡◌, ◌≢◌, refl, Bool, true, false, ◌||◌, Result, ok, err, panic, Done, M,
  pure, recover, caught, follow, when,
}
use lazyjack.Base.Sequence.{made, NonePanics, steps_if}
use lazyjack.Net.{Net}
use lazyjack.World.{Os}
use lazyjack.Config.{Config, Node, node_of}
use lazyjack.Down.{stop_kubernetes, cleanup_for_plugin, tear_down}

module _ {S : Type 0} where
  ignored : (r : Result Done × S) → r.0 ≢ panic → caught (λ _. pure tt) r ≡ (ok tt, r.1)
  ignored (ok _, s) h = refl
  ignored (err e, s) h = refl
  ignored (panic, s) h = absurd (h refl)

module _ (o : Os) (net : Net) where
  -- The steps of `TearDown`.
  abbrev pub down_steps : Node → Config → List (M (o.World) Done)
  down_steps node c =
      steps_if (node.is_master || node.is_minion)
        (stop_kubernetes o ∷ cleanup_for_plugin o net node c ∷ [])

  -- If neither step panics, "down" succeeds and makes both steps on a master or a minion, the plugin's
  -- cleanup also behind a reset that fails; on any other node it makes none.
  pub tear_down-made :
      (name : Bytes) (c : Config) (w : o.World)
      → NonePanics (down_steps (node_of name c) c) w
      → tear_down o net name c w ≡ (ok tt, made (down_steps (node_of name c) c) w)
  unfolding tear_down made
  tear_down-made name c w h = by_role ((node_of name c).is_master || (node_of name c).is_minion) h
    where
      by_role :
          (b : Bool)
          → NonePanics
              (steps_if b (stop_kubernetes o ∷ cleanup_for_plugin o net (node_of name c) c ∷ []))
              w
          → when b
              (λ w.
                follow
                  (λ _. recover (cleanup_for_plugin o net (node_of name c) c) (λ _. pure tt))
                  (recover (stop_kubernetes o) (λ _. pure tt) w))
              w
            ≡ (
              ok tt,
              made
                  (steps_if b
                    (stop_kubernetes o ∷ cleanup_for_plugin o net (node_of name c) c ∷ []))
                  w,
            )
      by_role false h = refl
      by_role true (h, (k, _)) =
          rw (ignored (stop_kubernetes o w) h)
            (ignored (cleanup_for_plugin o net (node_of name c) c (stop_kubernetes o w).1) k)
