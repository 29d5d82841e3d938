-- ===== src/Service/Failover/Answer.antt =====
-- What commits a candidate: the parts of `forward_chat_completion_for_middleware`, of
-- aggregator/service/middleware.rs, that record its sessions, begin its receipt and answer.
use phala_llm_router.Base.{ℕ, Bool, ◌&&◌, not, List, Option, none, some, is_some, Text}
use phala_llm_router.Canonical.{Bytes}
use phala_llm_router.ErrorResponse.Images.{classify_image_input_error}
use phala_llm_router.Receipts.Builder.{
  ReceiptBuilder, set_upstream_verified_model_id, add_response_received,
}
use phala_llm_router.Receipts.Types.{UpstreamVerifiedEvent}
use phala_llm_router.Service.Errors.{Served, served, failing, ◌>>=◌, of_built}
use phala_llm_router.Service.Failover.{
  Outcome, UpstreamResponse, UpstreamStreamResponse, ForwardCandidate, ChatCompletionRequest,
  buffered, forwarded_buffered, forwarded_stream, MiddlewareForwardResult, committed,
  is_retryable_provider_status, AciService, Gateway, Commit, Tried, answered, stopped, tried,
  session_of,
}
use phala_llm_router.Service.Failover.Prefix.{
  build_middleware_receipt_prefix, extract_chat_id, accepted_response_model,
}
use phala_llm_router.Service.Sessions.{
  SealedSession, record_attested_upstream_session, cite_served_session,
}
use phala_llm_router.Session.{SessionClaims}
use phala_llm_router.Upstream.Prepare.{PreparedUpstreamRequest}

module _ {W S : Type 0} (service : AciService W S) (req : ChatCompletionRequest)
    (commit : Commit) where
  unfoldable pub should_fail_over : ℕ → Bytes → Bool
  unfolding is_retryable_provider_status classify_image_input_error
  should_fail_over status upstream_body =
      is_retryable_provider_status status
      && not (
          is_some (
            classify_image_input_error service.from_slice service.from_utf8 service.from_str
              req.received_body status upstream_body))

  -- Of a commit, the builder and the session's id: the sessions of the event are recorded, the one that
  -- served is cited, and the receipt begins.
  abbrev pub receipt_prefix :
      ForwardCandidate
      → PreparedUpstreamRequest
      → UpstreamVerifiedEvent
      → Option Text
      → Option (Text × SessionClaims)
      → Served ReceiptBuilder
  receipt_prefix candidate prepared event chat_id recorded = of_built (
      build_middleware_receipt_prefix service.sha256 service.bindings_value service.claims_value
        service.workload_id service.workload_keyset_digest
        (record {
          receipt_id = commit.receipt_id;
          chat_id = chat_id;
          model = req.user_model;
          served_at = commit.served_at;
          endpoint_path = req.endpoint_path;
          received_body = req.received_body;
          middleware_forwarded_body = candidate.body;
          selected_route_id = candidate.route_id;
          forwarded_body = prepared.request.body;
          recorded_event = event;
          recorded = recorded;
        }))

  abbrev pub recorded_sessions : UpstreamVerifiedEvent → S → S × Served (List SealedSession)
  recorded_sessions event =
      record_attested_upstream_session service.sessions service.codecs commit.now
        service.receipt_ttl_seconds event

  -- The end of a buffered commit: the response is received, and its draft answered.
  abbrev pub received :
      UpstreamResponse
      → Option (Text × SessionClaims)
      → ReceiptBuilder
      → Served (ReceiptBuilder × Text)
  received r recorded builder = of_built (
      add_response_received service.sha256
        (set_upstream_verified_model_id builder
          (accepted_response_model service.from_slice r.status_code r.body))
        r.body)

  abbrev pub buffered_outcome :
      UpstreamResponse → Option (Text × SessionClaims) → ReceiptBuilder × Text → Outcome
  buffered_outcome r recorded (builder, hash) =
      forwarded_buffered
        (record {
          receipt_id = commit.receipt_id;
          builder = builder;
          provider_response_hash = hash;
          endpoint_path = req.endpoint_path;
          request_mode = buffered;
          response_model = accepted_response_model service.from_slice r.status_code r.body;
        })
        r.body (session_of recorded)

  abbrev pub commit_buffered :
      ForwardCandidate
      → PreparedUpstreamRequest
      → UpstreamVerifiedEvent
      → UpstreamResponse
      → List (Text × ℕ)
      → List SealedSession
      → Served MiddlewareForwardResult
  commit_buffered candidate prepared event r failed_attempts sealed = do
    let recorded = cite_served_session sealed r.served_instance_id
    builder ←
        receipt_prefix candidate prepared event (extract_chat_id service.from_slice r.body) recorded
    drafted ← received r recorded builder
    served (
        committed (buffered_outcome r recorded drafted) r.status_code r.headers candidate.route_id
          failed_attempts)

  abbrev pub stream_outcome :
      UpstreamStreamResponse → Option (Text × SessionClaims) → ReceiptBuilder → Outcome
  stream_outcome r recorded builder =
      forwarded_stream
        (record {
          inner = r.body;
          builder = builder;
          receipt_id = commit.receipt_id;
          endpoint_path = req.endpoint_path;
          status = r.status_code;
        })
        (session_of recorded)

  abbrev pub commit_stream :
      ForwardCandidate
      → PreparedUpstreamRequest
      → UpstreamVerifiedEvent
      → UpstreamStreamResponse
      → List (Text × ℕ)
      → List SealedSession
      → Served MiddlewareForwardResult
  commit_stream candidate prepared event r failed_attempts sealed = do
    let recorded = cite_served_session sealed r.served_instance_id
    builder ← receipt_prefix candidate prepared event none recorded
    served (
        committed (stream_outcome r recorded builder) r.status_code r.headers candidate.route_id
          failed_attempts)

  -- The sessions of the event, and then the answer.
  abbrev pub with_sessions :
      UpstreamVerifiedEvent
      → (List SealedSession → Served MiddlewareForwardResult)
      → Gateway W S
      → Gateway W S × Served MiddlewareForwardResult
  with_sessions event f g =
      let (store, sealed) = recorded_sessions event g.store in
      (record g { store = store }, (do s ← sealed; f s))

  -- The journal has the receipt's id once the receipt has begun.
  abbrev pub reserving : Gateway W S × Served MiddlewareForwardResult → Gateway W S × Tried
  reserving (g, served r) = (record g { reserved = some commit.receipt_id }, answered r)
  reserving (g, failing e) = (g, stopped e)

  abbrev pub without_reserving : Gateway W S × Served MiddlewareForwardResult → Gateway W S × Tried
  without_reserving (g, r) = (g, tried r)
