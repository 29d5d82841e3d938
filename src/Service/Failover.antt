-- ===== src/Service/Failover.antt =====
-- The ordered candidates of a request: `forward_chat_completion_for_middleware` and what it calls, of
-- aggregator/service/middleware.rs, with the types of aggregator/service/wire.rs. Metrics are left out.
pub mod Prefix
pub mod Order
pub mod Answer
pub mod Loop
pub mod Bounded
pub mod Own
pub mod Attempts
use phala_llm_router.Base.{
  ℕ, ◌==◌, leb, ltb, Bool, true, false, ◌&&◌, ◌||◌, not, List, [], ◌∷◌, ◌++◌, Option, none, some,
  is_some, or_default, length, Text, codes, text_eq, if◌then◌else◌,
}
use phala_llm_router.Canonical.{Bytes}
use phala_llm_router.Dict.{Dict}
use phala_llm_router.ErrorResponse.Images.{classify_image_input_error}
use phala_llm_router.Json.{Value, get_key, as_str}
use phala_llm_router.Receipts.Builder.{
  ReceiptBuilder, set_upstream_verified_model_id, add_response_received,
}
use phala_llm_router.Receipts.Types.{UpstreamVerifiedEvent}
use phala_llm_router.Service.Errors.{
  ServiceError, UpstreamError, routing, transport, channel_binding_mismatch, rejected, upstream,
  upstream_verification, Served, served, failing, ◌>>=◌, of_built,
}
use phala_llm_router.Service.Failover.Prefix.{
  MiddlewareReceiptInputs, build_middleware_receipt_prefix, extract_chat_id,
  accepted_response_model,
}
use phala_llm_router.Service.Forward.{
  UpstreamVerifier, Attempt, response, not_forwarded, ReverifyOutcome, forwarded, refresh_failed,
  failed, Left, upstream_required_for_prepared, recorded_upstream_event,
  forward_with_binding_reverify,
}
use phala_llm_router.Service.Sessions.{
  SessionStore, SealedSession, record_attested_upstream_session, cite_served_session,
}
use phala_llm_router.Session.{ChannelBinding, Codecs, SessionClaims}
use phala_llm_router.Upstream.Prepare.{UpstreamRequest, PreparedUpstreamRequest}

pub data RequestMode : Type 0 where
  buffered streaming : RequestMode

pub record UpstreamResponse : Type 0 where
  pub status_code : ℕ
  pub body : Bytes
  pub headers : Dict Text
  pub served_instance_id : Option Text

-- The body is the chunks that it will give.
pub record UpstreamStreamResponse : Type 0 where
  pub status_code : ℕ
  pub headers : Dict Text
  pub body : List (Attempt Bytes)
  pub served_instance_id : Option Text

-- Of the trait `UpstreamBackend`, what the service calls.
pub record UpstreamBackend (W : Type 0) : Type 0 where
  pub prepare : UpstreamRequest → Attempt PreparedUpstreamRequest
  pub forward_verified_prepared :
      W → PreparedUpstreamRequest → UpstreamVerifiedEvent → W × Attempt UpstreamResponse
  pub forward_stream_verified_prepared :
      W → PreparedUpstreamRequest → UpstreamVerifiedEvent → W × Attempt UpstreamStreamResponse

pub record ForwardCandidate : Type 0 where
  pub route_id : Text
  pub body : Text

pub record ChatCompletionRequest : Type 0 where
  pub user_model : Option Text
  pub user_tier : Option Text
  pub endpoint_path : Text
  pub received_body : Text
  pub upstream_required : Option Bool
  pub upstream_verification_event : Option UpstreamVerifiedEvent

pub record MiddlewareReceiptDraft : Type 0 where
  pub receipt_id : Text
  pub builder : ReceiptBuilder
  pub provider_response_hash : Text
  pub endpoint_path : Text
  pub request_mode : RequestMode
  pub response_model : Option Text

-- What `MiddlewareProviderResponseDraftingStream` starts from.
pub record DraftingStream : Type 0 where
  pub inner : List (Attempt Bytes)
  pub builder : ReceiptBuilder
  pub receipt_id : Text
  pub endpoint_path : Text
  pub status : ℕ

pub data Outcome : Type 0 where
  -- the draft, the body, the session's id
  forwarded_buffered : MiddlewareReceiptDraft → Bytes → Option Text → Outcome
  forwarded_stream : DraftingStream → Option Text → Outcome
  -- the collected body
  upstream_error : Bytes → Outcome

-- `Forwarded`, `Stream` and `UpstreamError` have the upstream's status and headers, the selected route
-- and the attempts before it.
pub data MiddlewareForwardResult : Type 0 where
  committed : Outcome → ℕ → Dict Text → Text → List (Text × ℕ) → MiddlewareForwardResult
  all_failed : List (Text × ℕ) → ServiceError → MiddlewareForwardResult

unfoldable pub is_retryable_provider_status : ℕ → Bool
is_retryable_provider_status status =
    leb 401 status && leb status 403
    || status == 429
    || status == 500
    || (leb 502 status && leb status 504)

-- `slot` keeps the error of the highest priority, and of those the last.
unfoldable pub upgrade_err :
    Option (ℕ × ServiceError) → ℕ → ServiceError → Option (ℕ × ServiceError)
upgrade_err none priority err = some (priority, err)
upgrade_err (some (p, e)) priority err =
    if leb p priority then some (priority, err) else some (p, e)

unfoldable pub collect_upstream_body : List (Attempt Bytes) → Option Bytes
collect_upstream_body [] = some []
collect_upstream_body (not_forwarded e ∷ chunks) = none
collect_upstream_body (response chunk ∷ chunks) =
    let rest = collect_upstream_body chunks in
    elim rest [ none ↦ none | some out ↦ some (chunk ++ out) ]

-- The parts of `AciService` that forward, with the parsers and serializers that they use.
pub record AciService (W S : Type 0) : Type 0 where
  pub sha256 : Bytes → Text
  pub from_slice : Bytes → Option Value
  pub from_utf8 : Bytes → Option Text
  pub from_str : Text → Option Value
  pub bindings_value : List ChannelBinding → Value
  pub claims_value : SessionClaims → Option Value
  pub codecs : Codecs
  pub backend : UpstreamBackend W
  pub upstream_verifier : Option (UpstreamVerifier W)
  pub upstream_required_default : Bool
  pub sessions : SessionStore S
  pub receipt_ttl_seconds : ℕ
  pub workload_id : Text
  pub workload_keyset_digest : Text

-- What a request changes: the world, the session store, and the journal's receipt id.
pub record Gateway (W S : Type 0) : Type 0 where
  pub world : W
  pub store : S
  pub reserved : Option Text

-- What a commit takes: a new receipt id, and the clock for the receipt and for the session.
pub record Commit : Type 0 where
  pub receipt_id : Text
  pub served_at : ℕ
  pub now : ℕ

-- What an attempt comes to: the next candidate, with the status recorded for this one and the error
-- that it had; the answer; or an error of the service itself.
pub data Tried : Type 0 where
  abandoned : ℕ → Option (ℕ × ServiceError) → Tried
  answered : MiddlewareForwardResult → Tried
  stopped : ServiceError → Tried

abbrev pub tried : Served MiddlewareForwardResult → Tried
tried (served r) = answered r
tried (failing e) = stopped e

abbrev pub refresh_priority : ServiceError → ℕ
refresh_priority (upstream_verification e) = 3
refresh_priority e = 2

-- The error of `prepare` and its priority.
abbrev pub prepare_failed : UpstreamError → ℕ × ServiceError
prepare_failed (routing m) = (1, upstream (routing m))
prepare_failed e = (2, upstream e)

abbrev pub session_of : Option (Text × SessionClaims) → Option Text
session_of none = none
session_of (some (id, claims)) = some id

abbrev pub upstream_headers : Option Text → Dict Text
upstream_headers none = []
upstream_headers (some tier) = (codes "x-user-tier", tier) ∷ []
