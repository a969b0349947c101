-- ===== src/Reconcile/Release/Identity.antt =====
-- resolveEffectiveSA and the impersonated clients of internal/reconcile.
use poc_controller.Prelude.{String, not, is_empty, Result, ok, err, if◌then◌else◌}
use poc_controller.Api.{Release}
use poc_controller.Apply.Ssa.{ResourceManager}
use poc_controller.Apply.Prune.{Client}
use poc_controller.Apply.Impersonate.{new_impersonated_client}
use poc_controller.Reconcile.World.{World}

-- resolveEffectiveSA: the name and its source
unfoldable pub resolve_effective_sa : String → String → String × String
resolve_effective_sa spec_sa default_sa =
    if not (is_empty spec_sa)
    then (spec_sa, "spec")
    else if not (is_empty default_sa)
    then (default_sa, "default")
    else ("", "")

module _ {C : Type 0} (w : World C) where
  -- apply.NewImpersonatedClient in the release's own namespace
  unfoldable pub impersonate : Release → String → Result (Client C)
  impersonate rel sa =
      new_impersonated_client w.read_service_account w.new_client rel.metadata.namespace sa

  -- buildReleaseApplyClient
  unfoldable pub build_release_apply_client : Release → Result (ResourceManager C × Client C)
  unfolding impersonate resolve_effective_sa
  build_release_apply_client rel =
      let (sa, _) = resolve_effective_sa rel.spec.service_account_name w.default_service_account in
      if is_empty sa
      then ok (w.resource_manager, w.client)
      else elim (impersonate rel sa) [ err e ↦ err e | ok c ↦ ok (w.new_resource_manager c, c) ]
