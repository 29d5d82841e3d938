-- ===== src/Upstream/Router.antt =====
-- `ModelRouterBackend` of aci/upstream/router.rs: its routes and how one is added and found. A
-- backend is known by its name and its origin.
use phala_llm_router.Base.{
  ◌==◌, Bool, List, [], ◌∷◌, ◌++◌, Option, none, some, is_some, Text, if◌then◌else◌,
}
use phala_llm_router.Dict
use phala_llm_router.Dict.{Dict}
use phala_llm_router.Upstream.{is_blank}

pub record Backend : Type 0 where
  pub name : Text
  pub url_origin : Option Text

pub record ModelRoute : Type 0 where
  pub public_model_id : Text
  pub upstream_model_id : Text
  pub upstream : Backend
  pub route_id : Text
  pub path : Option Text
  pub is_tee : Option Bool

pub record ModelRouterBackend : Type 0 where
  pub name : Text
  pub routes : Dict ModelRoute
  pub default_routes : Dict Text
  pub order : List Text

-- What `UpstreamError::Routing` says.
pub data RoutingError : Type 0 where
  empty_public_model empty_upstream_model empty_route_id : RoutingError
  duplicate_route no_upstream_route unknown_target_route : Text → RoutingError
  missing_route_id no_model_field invalid_body not_an_object unserializable : RoutingError

pub data Routed {ℓ} (A : Type ℓ) : Type ℓ where
  routed : A → Routed A
  unrouted : RoutingError → Routed A

infixl 5 ◌>>=◌
abbrev pub ◌>>=◌ {ℓ κ} : {A : Type ℓ} {B : Type κ} → Routed A → (A → Routed B) → Routed B
routed a >>= f = f a
unrouted e >>= f = unrouted e

unfoldable pub new_route : Text → Text → Backend → Text → Routed ModelRoute
unfolding is_blank
new_route public_model_id upstream_model_id upstream route_id =
    if is_blank public_model_id
    then unrouted empty_public_model
    else if is_blank upstream_model_id
    then unrouted empty_upstream_model
    else if is_blank route_id
    then unrouted empty_route_id
    else routed (record {
      public_model_id = public_model_id;
      upstream_model_id = upstream_model_id;
      upstream = upstream;
      route_id = route_id;
      path = none;
      is_tee = none;
    })

abbrev with_slash : Text → Text
with_slash [] = 47 ∷ []
with_slash (c ∷ p) = if c == 47 then c ∷ p else 47 ∷ c ∷ p

abbrev slashed : Option Text → Option Text
slashed none = none
slashed (some p) = some (with_slash p)

unfoldable pub with_path : ModelRoute → Option Text → ModelRoute
with_path r path = record r { path = slashed path }

abbrev pub with_is_tee : ModelRoute → Option Bool → ModelRoute
with_is_tee r is_tee = record r { is_tee = is_tee }

unfoldable pub new_router : Text → ModelRouterBackend
new_router name = record { name = name; routes = []; default_routes = []; order = [] }

-- The first route of a public model is its default.
unfoldable pub enlist : ModelRouterBackend → ModelRoute → ModelRouterBackend
enlist b r = if is_some (Dict.get r.public_model_id b.default_routes) then b else record b {
  order = b.order ++ r.public_model_id ∷ [];
  default_routes = Dict.insert r.public_model_id r.route_id b.default_routes;
}

unfoldable pub add_route : ModelRouterBackend → ModelRoute → Routed ModelRouterBackend
unfolding enlist
add_route b r =
    if is_some (Dict.get r.route_id b.routes)
    then unrouted (duplicate_route r.route_id)
    else routed (record (enlist b r) { routes = Dict.insert r.route_id r b.routes })

abbrev pub or_unrouted {ℓ} : {A : Type ℓ} → Option A → RoutingError → Routed A
or_unrouted none e = unrouted e
or_unrouted (some a) e = routed a

unfoldable pub route_for_id : ModelRouterBackend → Text → Routed ModelRoute
route_for_id b route_id = or_unrouted (Dict.get route_id b.routes) (unknown_target_route route_id)

unfoldable pub route_for : ModelRouterBackend → Text → Routed ModelRoute
unfolding route_for_id
route_for b public_model_id = do
  route_id ←
      or_unrouted (Dict.get public_model_id b.default_routes) (no_upstream_route public_model_id)
  route_for_id b route_id

-- `filter_map(|route_id| self.routes.get(route_id))` over the default routes, in the order of the
-- public models.
unfoldable pub listed : ModelRouterBackend → List Text → List ModelRoute
listed b [] = []
listed b (m ∷ ms) =
    let rest = listed b ms in
    elim (Dict.get m b.default_routes) [
      | none ↦ rest
      | some route_id ↦ elim (Dict.get route_id b.routes) [ none ↦ rest | some r ↦ r ∷ rest ]
    ]

-- The routes that `models` lists.
unfoldable pub model_routes : ModelRouterBackend → List ModelRoute
unfolding listed
model_routes b = listed b b.order
