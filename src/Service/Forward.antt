-- ===== src/Service/Forward.antt =====
-- A request and one upstream: the recorded verification and the forward that verifies again when the
-- channel is not the one verified, of aggregator/service/forward.rs. The verifier and the upstream are
-- operations on a world, which is a parameter.
pub mod Gated
use phala_llm_router.Base.{
  ℕ, zero, suc, Bool, true, false, ◌&&◌, ◌||◌, not, List, [], Option, none, some, Text, codes,
  or_default, if◌then◌else◌,
}
use phala_llm_router.Canonical.{Bytes, sha256_hex}
use phala_llm_router.Dict.{Dict}
use phala_llm_router.Receipts.Types.{UpstreamVerifiedEvent, VerificationResult, verified}
use phala_llm_router.Service.Errors.{
  ServiceError, UpstreamError, routing, transport, channel_binding_mismatch, rejected,
  upstream_verification, no_verifier_result, verifier_failed, Served, served, failing,
}
use phala_llm_router.Upstream.Prepare.{PreparedUpstreamRequest}

pub record UpstreamVerificationRequest : Type 0 where
  pub upstream_name : Text
  pub url_origin : Option Text
  pub model_id : Text
  pub forwarded_body_hash : Text
  pub required : Bool

-- The trait of the upstream verifiers.
pub record UpstreamVerifier (W : Type 0) : Type 0 where
  pub verify : W → UpstreamVerificationRequest → W × UpstreamVerifiedEvent
  pub invalidate : W → UpstreamVerificationRequest → W

-- `Result` with an `UpstreamError`
pub data Attempt (R : Type 0) : Type 0 where
  response : R → Attempt R
  not_forwarded : UpstreamError → Attempt R

pub data ReverifyOutcome (R : Type 0) : Type 0 where
  forwarded : R → ReverifyOutcome R
  refresh_failed : ServiceError → ReverifyOutcome R
  failed : UpstreamError → ReverifyOutcome R

abbrev pub channel_binding_reverify_attempts : ℕ
channel_binding_reverify_attempts = 2

abbrev pub is_non_tee : Option Bool → Bool
is_non_tee (some false) = true
is_non_tee o = false

unfoldable pub upstream_required_for_prepared : PreparedUpstreamRequest → Option Bool → Option Bool
upstream_required_for_prepared prepared requested =
    if is_non_tee prepared.is_tee then some false else requested

-- The failed event of a service without a verifier.
abbrev pub unverified_event : PreparedUpstreamRequest → Bool → UpstreamVerifiedEvent
unverified_event prepared required = record {
  upstream_name = prepared.upstream_name;
  provider_type = none;
  model_id = prepared.model_id;
  url_origin = prepared.url_origin;
  verifier_id = codes "none";
  result = VerificationResult.failed;
  required = required;
  reason = some (codes "no upstream verifier configured");
  evidence = none;
  channel_bindings = [];
  provider_claims = none;
}

abbrev pub if_verified : VerificationResult → UpstreamVerifiedEvent → Served UpstreamVerifiedEvent
if_verified verified event = served event
if_verified VerificationResult.failed event = failing (
    upstream_verification
      (verifier_failed (or_default event.reason (codes "upstream verification failed"))))

-- The fail-closed gate: `required`, then `missing_verifier_result`.
abbrev pub gate : Bool → Bool → UpstreamVerifiedEvent → Served UpstreamVerifiedEvent
gate false missing event = served event
gate true true event = failing (upstream_verification no_verifier_result)
gate true false event = if_verified event.result event

-- The client's mode is recorded in the event.
abbrev pub with_mode : Bool → UpstreamVerifiedEvent → UpstreamVerifiedEvent
with_mode required event = record event { required = required }

-- What the loop leaves: the world, its outcome and the recorded event.
abbrev pub Left : Type 0 → Type 0 → Type 0
Left W R = W × ReverifyOutcome R × UpstreamVerifiedEvent

module _ {W : Type 0} (sha256 : Bytes → Text) (upstream_verifier : Option (UpstreamVerifier W))
    (upstream_required_default : Bool) where
  abbrev pub upstream_verification_request :
      PreparedUpstreamRequest → Bool → UpstreamVerificationRequest
  upstream_verification_request prepared required = record {
    upstream_name = prepared.upstream_name;
    url_origin = prepared.url_origin;
    model_id = prepared.model_id;
    forwarded_body_hash = sha256_hex sha256 prepared.request.body;
    required = required;
  }

  abbrev pub verified_by :
      Option (UpstreamVerifier W)
      → W
      → PreparedUpstreamRequest
      → Bool
      → W × Served UpstreamVerifiedEvent
  verified_by none w prepared required =
      (w, gate required true (unverified_event prepared required))
  verified_by (some v) w prepared required =
      let (w', event) = v.verify w (upstream_verification_request prepared required) in
      (w', gate required false (with_mode required event))

  abbrev pub event_or_verified :
      W
      → PreparedUpstreamRequest
      → Bool
      → Option UpstreamVerifiedEvent
      → W × Served UpstreamVerifiedEvent
  event_or_verified w prepared required (some event) =
      (w, gate required false (with_mode required event))
  event_or_verified w prepared required none = verified_by upstream_verifier w prepared required

  unfoldable pub recorded_upstream_event :
      W
      → PreparedUpstreamRequest
      → Option Bool
      → Option UpstreamVerifiedEvent
      → W × Served UpstreamVerifiedEvent
  recorded_upstream_event w prepared upstream_required event =
      event_or_verified w prepared (or_default upstream_required upstream_required_default) event

  abbrev pub invalidated_by : Option (UpstreamVerifier W) → W → PreparedUpstreamRequest → Bool → W
  invalidated_by none w prepared required = w
  invalidated_by (some v) w prepared required =
      v.invalidate w (upstream_verification_request prepared required)

  unfoldable pub invalidate_upstream_event : W → PreparedUpstreamRequest → Option Bool → W
  invalidate_upstream_event w prepared upstream_required =
      invalidated_by upstream_verifier w prepared
        (or_default upstream_required upstream_required_default)

  unfoldable pub refresh_upstream_event :
      W → PreparedUpstreamRequest → Option Bool → W × Served UpstreamVerifiedEvent
  unfolding invalidate_upstream_event recorded_upstream_event
  refresh_upstream_event w prepared upstream_required =
      let required = or_default upstream_required upstream_required_default in
      recorded_upstream_event (invalidate_upstream_event w prepared (some required)) prepared
        (some required) none

  module _ {R : Type 0}
      (forward : W → PreparedUpstreamRequest → UpstreamVerifiedEvent → W × Attempt R)
      (prepared : PreparedUpstreamRequest) (upstream_required : Option Bool)
      (caller_supplied_event always_invalidate_on_mismatch : Bool) where
    abbrev pub flushed : W → W
    flushed w =
        if always_invalidate_on_mismatch || not caller_supplied_event
        then invalidate_upstream_event w prepared upstream_required
        else w

    -- The arms of the loop's `match`, with the round that follows a mismatch, if one is left.
    abbrev pub settled : Option (W → Left W R) → UpstreamVerifiedEvent → W × Attempt R → Left W R
    settled again event (w, response r) = (w, forwarded r, event)
    settled (some again) event (w, not_forwarded (channel_binding_mismatch m)) = again w
    settled none event (w, not_forwarded (channel_binding_mismatch m)) =
        (flushed w, failed (channel_binding_mismatch m), event)
    settled again event (w, not_forwarded (routing m)) = (w, failed (routing m), event)
    settled again event (w, not_forwarded (transport m)) = (w, failed (transport m), event)
    settled again event (w, not_forwarded (rejected status body)) =
        (w, failed (rejected status body), event)

    abbrev pub refreshed :
        (UpstreamVerifiedEvent → W → Left W R)
        → UpstreamVerifiedEvent
        → W × Served UpstreamVerifiedEvent
        → Left W R
    refreshed next event (w, served event') = next event' w
    refreshed next event (w, failing e) = (w, refresh_failed e, event)

    -- The loop, with the number of rounds that are left.
    unfoldable pub reverify_loop : ℕ → UpstreamVerifiedEvent → W → Left W R
    unfolding refresh_upstream_event
    reverify_loop zero event w = settled none event (forward w prepared event)
    reverify_loop (suc left) event w =
        let next = reverify_loop left in
        settled
          (if caller_supplied_event
            then none
            else some
                (λ w'. refreshed next event (refresh_upstream_event w' prepared upstream_required)))
          event (forward w prepared event)

    unfoldable pub forward_with_binding_reverify : UpstreamVerifiedEvent → W → Left W R
    unfolding reverify_loop
    forward_with_binding_reverify event w = reverify_loop channel_binding_reverify_attempts event w
