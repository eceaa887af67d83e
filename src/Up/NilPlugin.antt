-- ===== src/Up/NilPlugin.antt =====
-- "up" with a configuration that names no plugin.
use lazyjack.Base.{[], ◌≡◌, ◌≢◌, sym, ◌∙◌, ap, none, arith, Result, ok, Done, M, follow}
use lazyjack.Base.Steps.{follow-eq-ok}
use lazyjack.Net.{Net}
use lazyjack.World.{Os}
use lazyjack.Config.{Config, Node}
use lazyjack.Validate.General.{validate_plugin}
use lazyjack.Plugin.{setup}
use lazyjack.Up.{ensure_cni_area_exists, create_cni_config_file, setup_for_plugin}

validate_plugin-nil :
    (c : Config)
    → c.plugin ≡ []
    → c.general.plugin ≡ []
    → (validate_plugin c).1.general.cni_plugin ≡ c.general.cni_plugin
unfolding validate_plugin
validate_plugin-nil c h k = ground arith

module _ (o : Os) (net : Net) where
  setup_for_plugin-nil :
      (node : Node) (c : Config) (w : o.World)
      → c.general.cni_plugin ≡ none
      → (setup_for_plugin o net node c w).0 ≢ ok tt
  unfolding setup_for_plugin setup
  setup_for_plugin-nil node c w h e =
      let rest : Done → M (o.World) Done = λ _ w1.
        follow (λ _. setup o net c.general.cni_plugin node c)
          (create_cni_config_file o node c w1) in
      let (_, _, q) = follow-eq-ok rest (ensure_cni_area_exists o c.general.cni_area w) tt e in
      let w1 = (ensure_cni_area_exists o c.general.cni_area w).1 in
      let last : Done → M (o.World) Done = λ _. setup o net c.general.cni_plugin node c in
      let (_, _, r) =
        follow-eq-ok last (create_cni_config_file o node c w1) tt
          (ap (λ (x : Result Done × o.World). x.0) (sym q) ∙ e) in
      cc (ap (λ (x : Result Done × o.World). x.0) (sym r ∙ sym q) ∙ e, h)

  -- A configuration that names no plugin passes the check of the plugin, which chooses the default
  -- one by name alone; setting the plugin up then never succeeds, whatever the system answers.
  pub setup_for_plugin_by_default :
      (node : Node) (c : Config) (w : o.World)
      → c.plugin ≡ []
      → c.general.plugin ≡ []
      → c.general.cni_plugin ≡ none
      → ((validate_plugin c).0 ≡ ok tt)
        × ((setup_for_plugin o net node (validate_plugin c).1 w).0 ≢ ok tt)
  setup_for_plugin_by_default node c w h k e = (
    unfold validate_plugin in ground arith,
    setup_for_plugin-nil node (validate_plugin c).1 w (validate_plugin-nil c h k ∙ e),
  )
