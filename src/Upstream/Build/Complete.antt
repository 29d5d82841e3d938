-- ===== src/Upstream/Build/Complete.antt =====
-- Validation and building agree: what is valid is routed in full.
use phala_llm_router.Upstream.Build.Models.{
  bind-valid, Seen, Keeps, RoutesAll, add_models-ok, check_models-Seen, RoutesAll-Keeps,
}
use phala_llm_router.Base.{
  if_true, if_false, true, false, List, [], ◌∷◌, Text, codes, ◌≡◌, ◌⊎◌, refl, sym, ap, ◌∙◌, subst,
  Bool-cases, inl, inr,
}
use phala_llm_router.Dict
use phala_llm_router.Dict.{Dict, contains, add, contains-add, get-insert}
use phala_llm_router.Upstream.{
  UpstreamConfig, ConfigError, Checked, valid, invalid, ◌>>=◌, refuse_if, is_blank,
}
use phala_llm_router.Upstream.Router.{Backend, ModelRouterBackend, new_router}
use phala_llm_router.Upstream.Validation.{
  validate_config, validate_from, check_models, check_fields,
}
use phala_llm_router.Upstream.Build.{
  ConfiguredUpstreams, ConfiguredBackend, no_upstreams, model_router, build_state, backend_for,
  add_models, add_upstreams, build_model_router, enabled_of,
}

enabled_of-on :
    (u : UpstreamConfig) (config : List UpstreamConfig)
    → u.enabled ≡ true
    → enabled_of (u ∷ config) ≡ (u ∷ enabled_of config)
unfolding enabled_of
enabled_of-on u config = if_true u.enabled _ _

enabled_of-off :
    (u : UpstreamConfig) (config : List UpstreamConfig)
    → u.enabled ≡ false
    → enabled_of (u ∷ config) ≡ enabled_of config
unfolding enabled_of
enabled_of-off u config = if_false u.enabled _ _

-- The upstream is one of the list.
abbrev pub IsUpstreamOf : List UpstreamConfig → UpstreamConfig → Type 0
IsUpstreamOf [] u = ⊥
IsUpstreamOf (x ∷ config) u = (x ≡ u) ⊎ IsUpstreamOf config u

Checked-cases :
    {A : Type 0} (m : Checked A) → ((a : A) × (m ≡ valid a)) ⊎ ((e : ConfigError) × (m ≡ invalid e))
Checked-cases (valid a) = inl (a, refl)
Checked-cases (invalid e) = inr (e, refl)

module _ (build : UpstreamConfig → Checked Backend) where
  -- Every model of every upstream of the list is routed to the backend that was built for it.
  abbrev pub RoutesConfig : List UpstreamConfig → ModelRouterBackend → Type 0
  RoutesConfig [] b = Unit {0}
  RoutesConfig (u ∷ config) b =
      ((k : Backend) × (build u ≡ valid k) × RoutesAll u k u.models b) × RoutesConfig config b

  -- The error is that of the backend of one of the upstreams.
  abbrev pub BackendFails : List UpstreamConfig → ConfigError → Type 0
  BackendFails config e = (u : UpstreamConfig) × IsUpstreamOf config u × (build u ≡ invalid e)

  abbrev Grown : List UpstreamConfig → ModelRouterBackend → Checked ModelRouterBackend → Type 0
  Grown config b (valid b') = RoutesConfig config b' × Keeps b b'
  Grown config b (invalid e) = BackendFails config e

  add_upstreams-failed :
      (u : UpstreamConfig) (config : List UpstreamConfig) (b : ModelRouterBackend) (e : ConfigError)
      → u.enabled ≡ true
      → build u ≡ invalid e
      → add_upstreams build (u ∷ config) b ≡ invalid e
  unfolding add_upstreams
  add_upstreams-failed u config b e on h =
      if_true u.enabled _ _ on
      ∙ ap (λ x. x >>= (λ k. add_models u k u.models b >>= (λ r. add_upstreams build config r))) h

  add_upstreams-one :
      (u : UpstreamConfig) (config : List UpstreamConfig) (k : Backend) (b b' : ModelRouterBackend)
      → u.enabled ≡ true
      → build u ≡ valid k
      → add_models u k u.models b ≡ valid b'
      → add_upstreams build (u ∷ config) b ≡ add_upstreams build config b'
  unfolding add_upstreams
  add_upstreams-one u config k b b' on built h =
      if_true u.enabled _ _ on
      ∙ ap (λ x. x >>= (λ k. add_models u k u.models b >>= (λ r. add_upstreams build config r)))
          built
      ∙ ap (λ x. x >>= (λ r. add_upstreams build config r)) h

  Grown-more :
      (u : UpstreamConfig) (config : List UpstreamConfig) (k : Backend) (b b1 : ModelRouterBackend)
      (r : Checked ModelRouterBackend)
      → build u ≡ valid k
      → RoutesAll u k u.models b1
      → Keeps b b1
      → Grown config b1 r
      → Grown (u ∷ config) b r
  Grown-more u config k b b1 (valid b') h g k1 (rest, k2) =
      (((k, h, RoutesAll-Keeps u k u.models b1 b' k2 g), rest), λ q x e. k2 q x (k1 q x e))
  Grown-more u config k b b1 (invalid e) h g k1 (v, i, f) = (v, inr i, f)

  add_upstreams-Grown :
      (config : List UpstreamConfig) (names ids : List Text) (x : Unit {0}) (b : ModelRouterBackend)
      → validate_from names ids config ≡ valid x
      → Seen ids b
      → Grown (enabled_of config) b (add_upstreams build (enabled_of config) b)
  unfolding validate_from
  add_upstreams-Grown [] names ids x b h s = unfold enabled_of add_upstreams in (tt, λ q r e. e)
  add_upstreams-Grown (u ∷ config) names ids x b h s =
      let (_, _, h1) = bind-valid (refuse_if (is_blank u.name) _) _ x h in
      let (_, _, h2) = bind-valid (refuse_if (contains u.name names) _) _ x h1 in
      let (_, _, h3) = bind-valid (check_fields u) _ x h2 in
      let (ids', p, h4) = bind-valid (check_models u.name ids u.models) _ x h3 in
      let seen = check_models-Seen u.name u.models ids ids' b p s in
      elim (Bool-cases u.enabled) [
        | inr off ↦
            subst (λ c. Grown c b (add_upstreams build c b)) (sym (enabled_of-off u config off))
              (add_upstreams-Grown config (add u.name names) ids' x b h4 seen)
        | inl on ↦
            subst (λ c. Grown c b (add_upstreams build c b)) (sym (enabled_of-on u config on))
              (elim (Checked-cases (build u)) [
                | inr (e, f) ↦
                    subst (Grown (u ∷ enabled_of config) b)
                      (sym (add_upstreams-failed u (enabled_of config) b e on f)) (u, inl refl, f)
                | inl (k, f) ↦
                    let (b1, e1, g1, k1, s1) = add_models-ok u k u.models ids ids' b p s in
                    subst (Grown (u ∷ enabled_of config) b)
                      (sym (add_upstreams-one u (enabled_of config) k b b1 on f e1))
                      (Grown-more u (enabled_of config) k b b1 _ f g1 k1
                        (add_upstreams-Grown config (add u.name names) ids' x b1 h4 s1))
              ])
      ]

  -- A backend serves the upstreams: a router has their routes, and there is none only for none.
  abbrev pub Serves : List UpstreamConfig → ConfiguredBackend → Type 0
  Serves config no_upstreams = config ≡ []
  Serves config (model_router b) = RoutesConfig config b

  abbrev Backed : List UpstreamConfig → Checked ConfiguredBackend → Type 0
  Backed config (valid k) = Serves config k
  Backed config (invalid e) = BackendFails config e

  routed-Backed :
      (config : List UpstreamConfig) (b : ModelRouterBackend) (r : Checked ModelRouterBackend)
      → Grown config b r
      → Backed config (r >>= (λ y. valid (model_router y)))
  routed-Backed config b (valid y) g = g.0
  routed-Backed config b (invalid e) g = g

  backend_for-Backed :
      (config : List UpstreamConfig)
      → Grown config
          (new_router (codes "model-router"))
          (add_upstreams build config (new_router (codes "model-router")))
      → Backed config (backend_for build config)
  unfolding backend_for build_model_router
  backend_for-Backed [] g = refl
  backend_for-Backed (u ∷ config) g =
      routed-Backed (u ∷ config) (new_router (codes "model-router")) _ g

module _ {V : Type 0} (build : UpstreamConfig → Checked Backend)
    (verify : List UpstreamConfig → Checked V) (digest : List UpstreamConfig → Checked Text) where
  -- What was built of a configuration: its backend serves the enabled upstreams.
  abbrev pub Complete : List UpstreamConfig → ConfiguredUpstreams V → Type 0
  Complete config k =
      (k.config ≡ config)
      × (verify (enabled_of config) ≡ valid k.verifier)
      × (digest config ≡ valid k.config_digest)
      × Serves build (enabled_of config) k.backend

  -- Who refuses a configuration: the validation, and if that does not, only the backend of one of the
  -- enabled upstreams, the verifier or the digest.
  abbrev pub RefusedBy : List UpstreamConfig → ConfigError → Type 0
  RefusedBy config e =
      (validate_config config ≡ invalid e)
      ⊎ ((validate_config config ≡ valid tt)
          × (BackendFails build (enabled_of config) e
              ⊎ ((verify (enabled_of config) ≡ invalid e) ⊎ (digest config ≡ invalid e))))

  abbrev pub Outcome : List UpstreamConfig → Checked (ConfiguredUpstreams V) → Type 0
  Outcome config (valid k) = (validate_config config ≡ valid tt) × Complete config k
  Outcome config (invalid e) = RefusedBy config e

  finished-Outcome :
      (config : List UpstreamConfig) (k : ConfiguredBackend) (v : Checked V) (d : Checked Text)
      → validate_config config ≡ valid tt
      → Serves build (enabled_of config) k
      → verify (enabled_of config) ≡ v
      → digest config ≡ d
      → Outcome config (do
        verifier ← v
        t ← d
        valid (record { config = config; config_digest = t; backend = k; verifier = verifier }))
  finished-Outcome config k (invalid e) d h s p q = inr (h, inr (inl p))
  finished-Outcome config k (valid v) (invalid e) h s p q = inr (h, inr (inr q))
  finished-Outcome config k (valid v) (valid t) h s p q = (h, (refl, p, q, s))

  backed-Outcome :
      (config : List UpstreamConfig) (o : Checked ConfiguredBackend)
      → validate_config config ≡ valid tt
      → Backed build (enabled_of config) o
      → Outcome config (do
        k ← o
        verifier ← verify (enabled_of config)
        t ← digest config
        valid (record { config = config; config_digest = t; backend = k; verifier = verifier }))
  backed-Outcome config (invalid e) h s = inr (h, inl s)
  backed-Outcome config (valid k) h s = finished-Outcome config k _ _ h s refl refl

  build_state-by :
      (config : List UpstreamConfig) (v : Checked (Unit {0}))
      → validate_config config ≡ v
      → Outcome config (build_state build verify digest config)
  unfolding build_state Dict.get new_router
  build_state-by config (invalid e) h = rw (h, build_state) (inl h)
  build_state-by config (valid u) h =
      rw (h, build_state)
        (backed-Outcome config (backend_for build (enabled_of config)) h (
          backend_for-Backed build (enabled_of config) (
            add_upstreams-Grown build config [] [] tt (new_router (codes "model-router"))
              (unfold validate_config in h) (λ q x. refl))))

  -- Whatever builds the backends of the providers, the verifier and the digest: what is built of a
  -- configuration is built of one that validation accepts, and has for every model of every enabled
  -- upstream the route `<upstream>:<model>` to the backend built for that upstream, with the model's
  -- upstream id and the trusted hardware class of the provider, so that no route of one upstream is
  -- lost to another. A configuration that validation accepts is refused only with the error of the
  -- backend of an enabled upstream, of the verifier or of the digest: the router has none of its own.
  pub build_state-Outcome :
      (config : List UpstreamConfig) → Outcome config (build_state build verify digest config)
  build_state-Outcome config = build_state-by config (validate_config config) refl
