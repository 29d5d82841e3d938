-- ===== src/Service/Direct.antt =====
-- A request that has no middleware: `forward_chat_completion_request` of
-- aggregator/service/forward.rs. The encryption of a response and the printing of JSON are parameters.
pub mod Receipted
use phala_llm_router.Base.{
  ℕ, Bool, true, false, List, [], ◌∷◌, Option, none, some, is_some, or_default, Text, codes,
  text_eq, if◌then◌else◌,
}
use phala_llm_router.Canonical.{Bytes}
use phala_llm_router.Dict
use phala_llm_router.Dict.{Dict}
use phala_llm_router.ErrorResponse.{Surface, openai, anthropic}
use phala_llm_router.ErrorResponse.Images.{image_input_error_parts}
use phala_llm_router.Json.{Value}
use phala_llm_router.Receipts.{Receipt, ReceiptOwner, ReceiptStore}
use phala_llm_router.Receipts.Builder.{
  ReceiptBuilder, add_body, add_route_selected, add_transparency_event, response_modified,
  set_upstream_verified_model_id, add_response_returned, finalize,
}
use phala_llm_router.Receipts.Types.{
  Built, done, refused, ◌>>=◌, UpstreamVerifiedEvent, KeyProvider, request_received,
  middleware_forwarded, request_forwarded,
}
use phala_llm_router.Service.Errors
use phala_llm_router.Service.Errors.{UpstreamError, upstream, Served, served, failing, of_built}
use phala_llm_router.Service.Failover.{UpstreamResponse, ChatCompletionRequest, AciService, Commit}
use phala_llm_router.Service.Failover.Prefix.{extract_chat_id, accepted_response_model, modified}
use phala_llm_router.Service.Finalize.{store_receipt}
use phala_llm_router.Service.Forward.{
  Attempt, response, not_forwarded, forwarded, refresh_failed, failed, Left,
  upstream_required_for_prepared, recorded_upstream_event, forward_with_binding_reverify,
}
use phala_llm_router.Service.Sessions.{
  SealedSession, record_attested_upstream_session, cite_served_session, append_upstream_verified,
}
use phala_llm_router.Session.{SessionClaims}
use phala_llm_router.Upstream.Prepare.{UpstreamRequest, PreparedUpstreamRequest}

-- The fields of the request that only this handler reads, and how the response is encrypted.
pub record DirectRequest : Type 0 where
  pub target_route_id : Option Text
  pub forwarded_body : Option Text
  pub requester : Option ReceiptOwner
  pub e2ee : Option (Bytes → Served Bytes)

pub record ForwardResult : Type 0 where
  pub receipt : Receipt
  pub upstream_status : ℕ
  pub upstream_body : Bytes
  pub upstream_headers : Dict Text

-- What a request changes: the world, the session store and the receipt store.
pub record DirectState (W S : Type 0) : Type 0 where
  pub world : W
  pub sessions : S
  pub receipts : ReceiptStore

-- The signing of receipts, and the printing of JSON.
pub record Signing : Type 0 where
  pub keys : KeyProvider
  pub default_receipt_key_id : Text
  pub hex : Bytes → Text
  pub to_vec : Value → Bytes

unfoldable pub surface_for_path : Text → Surface
unfolding text_eq
surface_for_path path = if text_eq path (codes "/v1/messages") then anthropic else openai

-- The client's status, body and headers: those of the upstream, unless an image could not be fetched.
pub record ClientResponse : Type 0 where
  pub status : ℕ
  pub body : Bytes
  pub headers : Dict Text

abbrev pub remapped : (Value → Bytes) → UpstreamResponse → Option (ℕ × Value) → ClientResponse
remapped to_vec r none = record { status = r.status_code; body = r.body; headers = r.headers }
remapped to_vec r (some (status, body)) = record {
  status = status;
  body = to_vec body;
  headers = Dict.insert (codes "content-type") (codes "application/json") r.headers;
}

abbrev pub encrypted : Option (Bytes → Served Bytes) → Bytes → Served Bytes
encrypted none body = served body
encrypted (some encrypt) body = encrypt body

-- Whether what the client gets is what the upstream sent.
abbrev pub response_same : ReceiptBuilder → Bool → Built ReceiptBuilder
response_same b true = done b
response_same b false = add_transparency_event b response_modified

module _ {W S : Type 0} (service : AciService W S) (signing : Signing) (req : ChatCompletionRequest)
    (direct : DirectRequest) (commit : Commit) where
  abbrev pub backend_input_body : Text
  backend_input_body = or_default direct.forwarded_body req.received_body

  abbrev pub client_response : UpstreamResponse → ClientResponse
  client_response r = remapped signing.to_vec r (
      image_input_error_parts service.from_slice service.from_utf8 service.from_str
        (surface_for_path req.endpoint_path) req.received_body r.status_code r.body none)

  abbrev pub new_receipt : Bytes → ReceiptBuilder
  new_receipt client_body = record {
    receipt_id = commit.receipt_id;
    chat_id = extract_chat_id service.from_slice client_body;
    model = req.user_model;
    workload_id = service.workload_id;
    workload_keyset_digest = service.workload_keyset_digest;
    endpoint = req.endpoint_path;
    method = codes "POST";
    served_at = commit.served_at;
    events = [];
    next_seq = 0;
  }

  -- The middleware's body and the route, of a request that names its route.
  abbrev pub targeted : Option Text → ReceiptBuilder → Built ReceiptBuilder
  targeted none b = done b
  targeted (some route_id) b = do
    (b', _) ← add_body service.sha256 middleware_forwarded b backend_input_body
    add_route_selected b' route_id

  -- The receipt up to the request that is forwarded.
  abbrev pub begun : Bytes → Bytes → Built ReceiptBuilder
  begun client_body forwarded_body = do
    (b1, _) ← add_body service.sha256 request_received (new_receipt client_body) req.received_body
    b2 ← targeted direct.target_route_id b1
    (b3, _) ← add_body service.sha256 request_forwarded b2 forwarded_body
    modified b3 (text_eq req.received_body forwarded_body)

  -- The receipt from the verified upstream to its signature.
  abbrev pub ended :
      ReceiptBuilder
      → UpstreamVerifiedEvent
      → Option (Text × SessionClaims)
      → UpstreamResponse
      → Bytes
      → Bytes
      → Built Receipt
  ended b event recorded r client_body wire = do
    b1 ← append_upstream_verified service.bindings_value service.claims_value b event recorded
    b2 ←
        response_same
          (set_upstream_verified_model_id b1
            (accepted_response_model service.from_slice r.status_code r.body))
          (text_eq r.body wire)
    (b3, _) ← add_response_returned service.sha256 b2 client_body wire
    finalize signing.hex b3 signing.keys signing.default_receipt_key_id

  -- The receipt is stored and answered.
  abbrev pub answered_with :
      ClientResponse
      → Bytes
      → DirectState W S
      → Built Receipt
      → DirectState W S × Served ForwardResult
  answered_with client wire st (refused e) = (st, failing (Errors.receipt e))
  answered_with client wire st (done receipt) = (
    record st {
      receipts =
          store_receipt service.from_slice service.sha256 signing.hex signing.keys
            signing.default_receipt_key_id service.receipt_ttl_seconds st.receipts commit.now
            receipt direct.requester;
    },
    served (record {
      receipt = receipt;
      upstream_status = client.status;
      upstream_body = wire;
      upstream_headers = client.headers;
    }),
  )

  abbrev pub with_sealed :
      ReceiptBuilder
      → UpstreamVerifiedEvent
      → UpstreamResponse
      → Bytes
      → DirectState W S
      → Served (List SealedSession)
      → DirectState W S × Served ForwardResult
  with_sealed b event r wire st (failing e) = (st, failing e)
  with_sealed b event r wire st (served sealed) = answered_with (client_response r) wire st (
      ended b event (cite_served_session sealed r.served_instance_id) r (client_response r).body
        wire)

  abbrev pub with_begun :
      UpstreamVerifiedEvent
      → UpstreamResponse
      → Bytes
      → DirectState W S
      → Built ReceiptBuilder
      → DirectState W S × Served ForwardResult
  with_begun event r wire st (refused e) = (st, failing (Errors.receipt e))
  with_begun event r wire st (done b) =
      let (sessions, sealed) =
        record_attested_upstream_session service.sessions service.codecs commit.now
          service.receipt_ttl_seconds event st.sessions in
      with_sealed b event r wire (record st { sessions = sessions }) sealed

  abbrev pub with_wire :
      PreparedUpstreamRequest
      → UpstreamVerifiedEvent
      → UpstreamResponse
      → DirectState W S
      → Served Bytes
      → DirectState W S × Served ForwardResult
  with_wire prepared event r st (failing e) = (st, failing e)
  with_wire prepared event r st (served wire) =
      with_begun event r wire st (begun (client_response r).body prepared.request.body)

  -- What is made of the upstream's response.
  unfoldable pub receipted :
      PreparedUpstreamRequest
      → UpstreamVerifiedEvent
      → UpstreamResponse
      → DirectState W S
      → DirectState W S × Served ForwardResult
  unfolding image_input_error_parts surface_for_path add_body add_route_selected
      add_transparency_event append_upstream_verified set_upstream_verified_model_id
      accepted_response_model add_response_returned finalize store_receipt extract_chat_id
      cite_served_session record_attested_upstream_session text_eq
  receipted prepared event r st =
      with_wire prepared event r st (encrypted direct.e2ee (client_response r).body)

  abbrev pub direct_forwarded :
      PreparedUpstreamRequest
      → DirectState W S
      → Left W UpstreamResponse
      → DirectState W S × Served ForwardResult
  direct_forwarded prepared st (w, refresh_failed e, event) = (record st { world = w }, failing e)
  direct_forwarded prepared st (w, failed e, event) =
      (record st { world = w }, failing (upstream e))
  direct_forwarded prepared st (w, forwarded r, event) =
      receipted prepared event r (record st { world = w })

  abbrev pub direct_verified :
      PreparedUpstreamRequest
      → DirectState W S
      → W × Served UpstreamVerifiedEvent
      → DirectState W S × Served ForwardResult
  direct_verified prepared st (w, failing e) = (record st { world = w }, failing e)
  direct_verified prepared st (w, served event) = direct_forwarded prepared st (
      forward_with_binding_reverify service.sha256 service.upstream_verifier
        service.upstream_required_default service.backend.forward_verified_prepared prepared
        (upstream_required_for_prepared prepared req.upstream_required)
        (is_some req.upstream_verification_event) false event w)

  abbrev pub direct_prepared :
      DirectState W S → Attempt PreparedUpstreamRequest → DirectState W S × Served ForwardResult
  direct_prepared st (not_forwarded e) = (st, failing (upstream e))
  direct_prepared st (response prepared) = direct_verified prepared st (
      recorded_upstream_event service.sha256 service.upstream_verifier
        service.upstream_required_default st.world prepared
        (upstream_required_for_prepared prepared req.upstream_required)
        req.upstream_verification_event)

  unfoldable pub forward_chat_completion_request :
      DirectState W S → DirectState W S × Served ForwardResult
  unfolding receipted forward_with_binding_reverify recorded_upstream_event
      upstream_required_for_prepared
  forward_chat_completion_request st = direct_prepared st (
      service.backend.prepare (record {
        body = backend_input_body;
        headers = [];
        path = some req.endpoint_path;
        target_route_id = direct.target_route_id;
      }))
