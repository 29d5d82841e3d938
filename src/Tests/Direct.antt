-- ===== src/Tests/Direct.antt =====
-- A request without a middleware whose response is answered, at concrete inputs.
use phala_llm_router.Base.{
  ℕ, true, [], ◌∷◌, ◌++◌, none, some, codes, text_eq, text_discrete, ℕ_discrete, ◌≡◌, refl,
}
use phala_llm_router.Canonical.{utf16_compare, sha256_hex}
use phala_llm_router.ErrorResponse.Images.{image_input_error_parts, classify_image_input_error}
use phala_llm_router.Receipts.Builder.{
  add_body, append, reserved_key, add_route_selected, add_transparency_event, add_upstream_verified,
  set_upstream_verified_model_id, set_model_id, add_response_returned, add_response_returned_hashes,
  finalize, find_key, has_event, canonical_bytes_for_signing,
}
use phala_llm_router.Receipts.Types.{upstream_verified, response_returned, event_fields}
use phala_llm_router.Service.Direct.{DirectRequest, DirectState, ForwardResult, Signing, receipted}
use phala_llm_router.Service.Direct.Receipted.{receipted-types, begun_types}
use phala_llm_router.Service.Errors.{Served, served, failing}
use phala_llm_router.Service.Failover.{UpstreamResponse}
use phala_llm_router.Service.Failover.Order.{types}
use phala_llm_router.Service.Failover.Prefix.{
  extract_chat_id, accepted_response_model, opens_object,
}
use phala_llm_router.Service.Finalize.Disclosed.{change}
use phala_llm_router.Service.Sessions.{
  append_upstream_verified, record_attested_upstream_session, seal_bindings, cite_served_session,
}
use phala_llm_router.Session.Index
use phala_llm_router.Session.Index.{SessionIndex}
use phala_llm_router.Session.Log.{is_space}
use phala_llm_router.Tests.Builder.{keys, receipt}
use phala_llm_router.Tests.Gateway.{service, req, commit, event}
use phala_llm_router.Upstream.Prepare.{PreparedUpstreamRequest}
use phala_llm_router.Json.{insert_field}

abbrev signing : Signing
signing = record { keys = keys; default_receipt_key_id = codes "1"; hex = λ b. b; to_vec = λ v. [] }

-- The response is encrypted by a byte in front of it.
abbrev direct : DirectRequest
direct = record {
  target_route_id = some (codes "a");
  forwarded_body = none;
  requester = none;
  e2ee = some (λ b. served (1 ∷ b));
}

abbrev prepared : PreparedUpstreamRequest
prepared = record {
  request = record {
    body = codes "{ }";
    headers = [];
    path = none;
    target_route_id = some (codes "a");
  };
  upstream_name = codes "up";
  url_origin = none;
  model_id = codes "m";
  route_id = some (codes "a");
  is_tee = some true;
}

abbrev r : UpstreamResponse
r = record { status_code = 200; body = codes "y"; headers = []; served_instance_id = none }

abbrev state : DirectState ℕ SessionIndex
state = record {
  world = 0;
  sessions = Index.empty;
  receipts = record { by_receipt = []; by_chat = []; by_expiry = [] };
}

-- A result, of a receipt that is another's where there is none.
abbrev result_of : Served ForwardResult → ForwardResult
result_of (served f) = f
result_of (failing e) = record {
  receipt = receipt;
  upstream_status = 0;
  upstream_body = [];
  upstream_headers = [];
}

abbrev f : ForwardResult
f = result_of (receipted service signing req direct commit prepared event r state).1

answered : (receipted service signing req direct commit prepared event r state).1 ≡ served f
unfolding receipted image_input_error_parts classify_image_input_error add_body append reserved_key
    add_route_selected add_transparency_event append_upstream_verified add_upstream_verified
    event_fields set_upstream_verified_model_id set_model_id add_response_returned
    add_response_returned_hashes finalize find_key has_event canonical_bytes_for_signing
    extract_chat_id accepted_response_model opens_object is_space record_attested_upstream_session
    seal_bindings cite_served_session text_eq text_discrete ℕ_discrete utf16_compare insert_field
    sha256_hex
answered = refl

receipted-types_example :
    types f.receipt.event_log
    ≡ ((begun_types (some (codes "a")) (text_eq (codes "{}") (codes "{ }"))
          ++ upstream_verified ∷ [])
        ++ change (text_eq (codes "y") f.upstream_body))
      ++ response_returned ∷ []
receipted-types_example =
    receipted-types service signing req direct commit prepared event r state f answered
