-- ===== src/Upstream/Prepare.antt =====
-- `ModelRouterBackend::prepare` and `forward` of aci/upstream/router.rs, with the rewriting of the
-- model field of aci/upstream/openai.rs. Parsing and printing JSON are parameters.
pub mod Same
use phala_llm_router.Base.{
  Bool, true, false, ◌||◌, List, [], ◌∷◌, Option, none, some, Text, codes, text_eq, or_default,
  if◌then◌else◌,
}
use phala_llm_router.Dict.{Dict}
use phala_llm_router.Json.{
  Value, null, bool, number, string, array, object, Fields, get_field, get_key, as_str,
  insert_field,
}
use phala_llm_router.Upstream.Router.{
  Backend, ModelRoute, ModelRouterBackend, Routed, routed, unrouted, ◌>>=◌, or_unrouted,
  route_for_id, route_for, missing_route_id, no_model_field, invalid_body, not_an_object,
  unserializable,
}

pub record UpstreamRequest : Type 0 where
  pub body : Text
  pub headers : Dict Text
  pub path : Option Text
  pub target_route_id : Option Text

pub record PreparedUpstreamRequest : Type 0 where
  pub request : UpstreamRequest
  pub upstream_name : Text
  pub url_origin : Option Text
  pub model_id : Text
  pub route_id : Option Text
  pub is_tee : Option Bool

-- `and_then`
abbrev pub and_then {ℓ κ} : {A : Type ℓ} {B : Type κ} → Option A → (A → Option B) → Option B
and_then none f = none
and_then (some a) f = f a

abbrev pub chat_path : Text
chat_path = codes "/v1/chat/completions"

unfoldable pub is_chat_surface : Option Text → Bool
unfolding text_eq
is_chat_surface none = true
is_chat_surface (some path) = text_eq path chat_path || text_eq path (codes "/v1/messages")

-- The arms of `match obj.get_mut("model")`.
abbrev set_model : Text → Fields → Option Value → Routed Value
set_model model obj (some (string s)) =
    routed (object (insert_field (codes "model") (string model) obj))
set_model model obj v = unrouted no_model_field

abbrev rewrite_model : Text → Value → Routed Value
rewrite_model model (object obj) = set_model model obj (get_field (codes "model") obj)
rewrite_model model v = unrouted not_an_object

-- The route of a request whose body names a model.
abbrev pub chosen_route : ModelRouterBackend → Text → Option Text → Routed ModelRoute
chosen_route b body_model_id (some route_id) = route_for_id b route_id
chosen_route b body_model_id none = route_for b body_model_id

-- The path of the forwarded request.
abbrev pub resolved_path : ModelRoute → Option Text → Option Text
resolved_path r path = if is_chat_surface path then some (or_default r.path chat_path) else path

abbrev pub prepared_request : ModelRoute → UpstreamRequest → Text → PreparedUpstreamRequest
prepared_request r req body = record {
  request = record req { body = body; path = resolved_path r req.path };
  upstream_name = r.upstream.name;
  url_origin = r.upstream.url_origin;
  model_id = r.upstream_model_id;
  route_id = some r.route_id;
  is_tee = r.is_tee;
}

module _ (from_slice : Text → Option Value) (to_vec : Value → Option Text) where
  unfoldable pub request_model_id : Text → Option Text
  unfolding get_key as_str
  request_model_id [] = none
  request_model_id (c ∷ body) =
      and_then (and_then (from_slice (c ∷ body)) (get_key (codes "model"))) as_str

  unfoldable pub rewrite_request_model : Text → Text → Routed Text
  unfolding insert_field get_field
  rewrite_request_model body upstream_model_id = do
    parsed ← or_unrouted (from_slice body) invalid_body
    rewritten ← rewrite_model upstream_model_id parsed
    or_unrouted (to_vec rewritten) unserializable

  unfoldable pub prepare : ModelRouterBackend → UpstreamRequest → Routed PreparedUpstreamRequest
  unfolding request_model_id rewrite_request_model is_chat_surface route_for_id route_for
  prepare b req = do
    body_model_id ← or_unrouted (request_model_id req.body) no_model_field
    r ← chosen_route b body_model_id req.target_route_id
    body ← rewrite_request_model req.body r.upstream_model_id
    routed (prepared_request r req body)

  unfoldable pub route_from_prepared :
      ModelRouterBackend → PreparedUpstreamRequest → Routed ModelRoute
  unfolding route_for_id
  route_from_prepared b req = do
    route_id ← or_unrouted req.route_id missing_route_id
    route_for_id b route_id

  -- Of `forward`: the backend that is called, and the request that it is called with.
  unfoldable pub forward : ModelRouterBackend → UpstreamRequest → Routed (Backend × UpstreamRequest)
  unfolding prepare route_from_prepared
  forward b req = do
    prepared ← prepare b req
    r ← route_from_prepared b prepared
    routed (r.upstream, prepared.request)
