-- ===== src/Upstream/Build.antt =====
-- `build_state` and `build_model_router` of aggregator/upstream_config/builders.rs. What builds the
-- backend of a provider, the verifier and the digest of the configuration are parameters.
pub mod Models
pub mod Complete
use phala_llm_router.Base.{
  Bool, true, false, List, [], ◌∷◌, Option, none, some, Text, codes, if◌then◌else◌,
}
use phala_llm_router.Dict.{Dict}
use phala_llm_router.Upstream.{
  UpstreamConfig, Checked, valid, invalid, ◌>>=◌, ConfigError, routing, route_id_of,
  provider_is_tee, UpstreamProvider,
}
use phala_llm_router.Upstream.Router.{
  Backend, ModelRoute, ModelRouterBackend, Routed, routed, unrouted, new_route, with_path,
  with_is_tee, new_router, add_route,
}
use phala_llm_router.Upstream.Validation.{validate_config}

-- `.map_err(|e| UpstreamConfigError::InvalidConfig(e.to_string()))`
abbrev pub checked {ℓ} : {A : Type ℓ} → Text → Routed A → Checked A
checked what (routed a) = valid a
checked what (unrouted e) = invalid (routing what)

-- The route of a model of an upstream.
unfoldable pub configured_route : UpstreamConfig → Backend → Text → ModelRoute → ModelRoute
unfolding with_path provider_is_tee
configured_route u backend public_model r =
    with_is_tee (with_path r u.path) (some (provider_is_tee u.provider))

-- The loop over the models of an upstream.
unfoldable pub add_models :
    UpstreamConfig → Backend → Dict Text → ModelRouterBackend → Checked ModelRouterBackend
unfolding new_route configured_route add_route
add_models u backend [] router = valid router
add_models u backend ((public_model, upstream_model) ∷ models) router = do
  r ←
      checked public_model
        (new_route public_model upstream_model backend (route_id_of u.name public_model))
  router' ← checked public_model (add_route router (configured_route u backend public_model r))
  add_models u backend models router'

-- `config.iter().filter(|cfg| cfg.enabled)`
unfoldable pub enabled_of : List UpstreamConfig → List UpstreamConfig
enabled_of [] = []
enabled_of (u ∷ config) = let rest = enabled_of config in if u.enabled then u ∷ rest else rest

-- What requests are forwarded to: `EmptyUpstreamBackend` or the model router.
pub data ConfiguredBackend : Type 0 where
  no_upstreams : ConfiguredBackend
  model_router : ModelRouterBackend → ConfiguredBackend

module _ (build_provider_backend : UpstreamConfig → Checked Backend) where
  -- The loop over the upstreams.
  unfoldable pub add_upstreams :
      List UpstreamConfig → ModelRouterBackend → Checked ModelRouterBackend
  unfolding add_models
  add_upstreams [] router = valid router
  add_upstreams (u ∷ config) router =
      let rest = add_upstreams config router in
      if u.enabled
      then (do
        backend ← build_provider_backend u
        router' ← add_models u backend u.models router
        add_upstreams config router')
      else rest

  unfoldable pub build_model_router : List UpstreamConfig → Checked ModelRouterBackend
  unfolding add_upstreams new_router
  build_model_router config = add_upstreams config (new_router (codes "model-router"))

  -- The arms of `if active_config.is_empty()`.
  unfoldable pub backend_for : List UpstreamConfig → Checked ConfiguredBackend
  unfolding build_model_router
  backend_for [] = valid no_upstreams
  backend_for (u ∷ config) = do
    router ← build_model_router (u ∷ config)
    valid (model_router router)

-- `ConfiguredUpstreams`; the registry of provider sessions is left out.
pub record ConfiguredUpstreams (V : Type 0) : Type 0 where
  pub config : List UpstreamConfig
  pub config_digest : Text
  pub backend : ConfiguredBackend
  pub verifier : V

module _ {V : Type 0} (build_provider_backend : UpstreamConfig → Checked Backend)
    (build_verifier : List UpstreamConfig → Checked V)
    (config_digest : List UpstreamConfig → Checked Text) where
  unfoldable pub build_state : List UpstreamConfig → Checked (ConfiguredUpstreams V)
  unfolding validate_config enabled_of backend_for
  build_state config = do
    _ ← validate_config config
    backend ← backend_for build_provider_backend (enabled_of config)
    verifier ← build_verifier (enabled_of config)
    digest ← config_digest config
    valid
        (record { config = config; config_digest = digest; backend = backend; verifier = verifier })
