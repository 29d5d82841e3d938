-- ===== src/Tests/Upstream.antt =====
-- Two upstreams of one model, and a request for it.
use phala_llm_router.Json.Alike.{Alike}
use phala_llm_router.Upstream.Build.{build_state}
use phala_llm_router.Tests.Data.{Value-discrete}
use phala_llm_router.Base.{
  ℕ, length, List, Text, if_pos, if_neg, Bool, true, false, List, [], ◌∷◌, Option, none, some, Text,
  codes, text_eq, text_discrete, ℕ_discrete, ite, ◌≡◌, ◌<◌, ◌≤◌, refl, sym, subst, arith,
}
use phala_llm_router.Dict
use phala_llm_router.Json.{
  number, float, Value, string, object, end, field, get_field, get_key, as_str, insert_field,
}
use phala_llm_router.Upstream.{Checked, UpstreamConfig, UpstreamProvider, valid}
use phala_llm_router.Upstream.Build.Complete.{Outcome, build_state-Outcome}
use phala_llm_router.Upstream.Prepare.{
  UpstreamRequest, PreparedUpstreamRequest, prepare, request_model_id, chosen_route,
  rewrite_request_model, is_chat_surface,
}
use phala_llm_router.Upstream.Prepare.Same.{
  ReadsBack, add_route-IsKeyed, IsKeyed, PreparedFor, prepare-route_from_prepared,
}
use phala_llm_router.Upstream.Router.{
  add_route, enlist, new_router, Backend, ModelRoute, ModelRouterBackend, routed, route_for,
  route_for_id,
}
use phala_llm_router.Upstream.Targets.{verification_refresh_seconds, UpstreamRuntimeOptions}
use phala_llm_router.Upstream.Targets.Distinct.{
  SetOf, all_targets, verification_targets-SetOf, verification_refresh_seconds-bounds,
}
use phala_llm_router.Upstream.Targets.{verification_targets, keep_configs}

abbrev upstream : Text → Bool → UpstreamConfig
upstream name enabled = record {
  name = name;
  enabled = enabled;
  provider = UpstreamProvider.tinfoil;
  base_url = codes "https://t/";
  path = none;
  models = (codes "m", codes "n") ∷ (codes "o", codes "n") ∷ [];
  bearer_token = none;
  accepted_workload_ids = none;
  accepted_image_digests = none;
  accepted_dstack_kms_root_public_keys = none;
  pccs_url = none;
  verifier_cache_seconds = some 90;
  connect_timeout_seconds = none;
  read_timeout_seconds = none;
  verifier_request_timeout_seconds = none;
  verification_refresh_seconds = none;
  session_refresh_seconds = none;
  chutes_e2ee_api_base = none;
  chutes_chute_ids = none;
  chutes_e2ee_discovery_rounds = none;
  chutes_e2ee_discovery_interval_seconds = none;
}

abbrev config : List UpstreamConfig
config = upstream (codes "a") true ∷ upstream (codes "b") false ∷ upstream (codes "c") true ∷ []

abbrev backend_of : UpstreamConfig → Backend
backend_of u = record { name = u.name; url_origin = some u.base_url }

abbrev built_of : UpstreamConfig → Checked Backend
built_of u = valid (backend_of u)

-- The verifier is built as the number of upstreams.
abbrev verifier_of : List UpstreamConfig → Checked ℕ
verifier_of us = valid (length us)

abbrev digest_of : List UpstreamConfig → Checked Text
digest_of us = valid (codes "d")

build_state-Outcome_example :
    Outcome built_of verifier_of digest_of config
      (build_state built_of verifier_of digest_of config)
build_state-Outcome_example = build_state-Outcome built_of verifier_of digest_of config

verification_targets-SetOf_example :
    SetOf (verification_targets config) (all_targets (keep_configs (λ cfg. cfg.enabled) config))
verification_targets-SetOf_example = verification_targets-SetOf config

abbrev options : UpstreamRuntimeOptions
options = record { verifier_cache_seconds = 300 }

verification_refresh_seconds-bounds_example : (1 ≤ 30) × (30 < 90)
unfolding verification_refresh_seconds
verification_refresh_seconds-bounds_example =
    verification_refresh_seconds-bounds (upstream (codes "a") true) options 30 refl (omega arith)
      refl

abbrev route : ModelRoute
route = record {
  public_model_id = codes "m";
  upstream_model_id = codes "n";
  upstream = record { name = codes "a"; url_origin = none };
  route_id = codes "a:m";
  path = none;
  is_tee = some true;
}

abbrev router : ModelRouterBackend
router = record {
  name = codes "model-router";
  routes = (codes "a:m", route) ∷ [];
  default_routes = (codes "m", codes "a:m") ∷ [];
  order = codes "m" ∷ [];
}

-- A body of a model and a temperature.
abbrev body_of : Text → Text → Value
body_of model temperature = object (
    field (codes "model") (string model)
      (field (codes "temperature") (number (float temperature)) end))

-- A library that knows two texts, and rounds the float of the second.
abbrev from_slice : Text → Option Value
from_slice s =
    ite (text_discrete s (codes "{m}")) (some (body_of (codes "m") (codes "0.7")))
      (ite (text_discrete s (codes "{n}")) (some (body_of (codes "n") (codes "0.70001"))) none)

abbrev request : UpstreamRequest
request = record { body = codes "{m}"; headers = []; path = none; target_route_id = none }

abbrev to_vec : Value → Option Text
to_vec v = ite (Value-discrete v (body_of (codes "n") (codes "0.7"))) (some (codes "{n}")) none

to_vec-reads : ReadsBack from_slice to_vec
unfolding text_discrete ℕ_discrete Alike
to_vec-reads body body' k x obj read h =
    let v = object (insert_field k (string x) obj) in
    elim (Value-discrete v (body_of (codes "n") (codes "0.7"))) [
      | no p ↦ absurd (cc (rw (if_neg _ p) at h))
      | yes p ↦
          let e : codes "{n}" ≡ body' = cc (rw (if_pos _ p) at h) in
          (
            body_of (codes "n") (codes "0.70001"),
            subst (λ t. from_slice t ≡ some (body_of (codes "n") (codes "0.70001"))) e refl,
            subst (λ w. Alike w (body_of (codes "n") (codes "0.70001"))) (sym p)
                ((refl, refl, (refl, tt, tt))),
          )
    ]

router-IsKeyed : IsKeyed router
unfolding add_route enlist Dict.get Dict.insert text_discrete ℕ_discrete
router-IsKeyed =
    add_route-IsKeyed (new_router (codes "model-router")) router route
      (unfold new_router in λ q r h. absurd (cc h)) (unfold new_router in refl)

abbrev prepared : PreparedUpstreamRequest
prepared = record {
  request = record request { body = codes "{n}"; path = some (codes "/v1/chat/completions") };
  upstream_name = codes "a";
  url_origin = none;
  model_id = codes "n";
  route_id = some (codes "a:m");
  is_tee = some true;
}

request_prepared : prepare from_slice to_vec router request ≡ routed prepared
unfolding prepare request_model_id rewrite_request_model is_chat_surface route_for route_for_id
    Dict.get get_key get_field as_str insert_field text_eq text_discrete ℕ_discrete
request_prepared =
    rw
      (if_pos
        (Value-discrete (body_of (codes "n") (codes "0.7")) (body_of (codes "n") (codes "0.7")))
        refl (some (codes "{n}")) none)
      refl

prepare-route_from_prepared_example :
    (model : Text) × (r : ModelRoute) × (request_model_id from_slice to_vec request.body
      ≡ some model)
    × (chosen_route router model none ≡ routed r)
    × PreparedFor from_slice to_vec router request r prepared
prepare-route_from_prepared_example =
    prepare-route_from_prepared from_slice to_vec to_vec-reads router request prepared
      router-IsKeyed request_prepared
