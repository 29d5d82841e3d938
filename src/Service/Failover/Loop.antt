-- ===== src/Service/Failover/Loop.antt =====
-- The loop over the candidates: `forward_chat_completion_for_middleware` of
-- aggregator/service/middleware.rs.
use phala_llm_router.Base.{
  ℕ, ◌==◌, Bool, true, false, ◌&&◌, not, List, [], ◌∷◌, ◌++◌, Option, none, some, is_some,
  or_default, Text, codes, if◌then◌else◌,
}
use phala_llm_router.Canonical.{Bytes}
use phala_llm_router.Receipts.Builder.{set_upstream_verified_model_id, add_response_received}
use phala_llm_router.Receipts.Types.{UpstreamVerifiedEvent}
use phala_llm_router.Service.Errors.{
  ServiceError, routing, upstream, upstream_verification, Served, served, failing,
}
use phala_llm_router.Service.Failover.{
  UpstreamResponse, UpstreamStreamResponse, ForwardCandidate, ChatCompletionRequest, upstream_error,
  MiddlewareForwardResult, committed, all_failed, upgrade_err, collect_upstream_body, AciService,
  Gateway, Commit, Tried, abandoned, answered, stopped, refresh_priority, prepare_failed,
  upstream_headers,
}
use phala_llm_router.Service.Failover.Prefix.{
  build_middleware_receipt_prefix, extract_chat_id, accepted_response_model,
}
use phala_llm_router.Service.Forward.{
  Attempt, response, not_forwarded, forwarded, refresh_failed, failed, Left,
  upstream_required_for_prepared, recorded_upstream_event, forward_with_binding_reverify,
}
use phala_llm_router.Service.Sessions.{record_attested_upstream_session, cite_served_session}
use phala_llm_router.Upstream.Prepare.{PreparedUpstreamRequest}
use phala_llm_router.Service.Failover.Answer.{
  should_fail_over, with_sessions, commit_buffered, commit_stream, reserving, without_reserving,
}

-- The attempted route ids, with commas.
abbrev joined : List ForwardCandidate → Text
joined [] = []
joined (c ∷ []) = c.route_id
joined (c ∷ d ∷ cs) = c.route_id ++ codes ", " ++ joined (d ∷ cs)

abbrev pub upgraded :
    Option (ℕ × ServiceError) → Option (ℕ × ServiceError) → Option (ℕ × ServiceError)
upgraded slot none = slot
upgraded slot (some (priority, err)) = upgrade_err slot priority err

abbrev final_error : List ForwardCandidate → Option (ℕ × ServiceError) → ServiceError
final_error candidates (some (priority, err)) = err
final_error candidates none =
    upstream (
      routing (codes "all upstream routes failed (attempted: " ++ (joined candidates ++ codes ")")))

abbrev pub is_empty {ℓ} : {A : Type ℓ} → List A → Bool
is_empty [] = true
is_empty (x ∷ xs) = false

module _ {W S : Type 0} (service : AciService W S) (req : ChatCompletionRequest)
    (commit : Commit) where
  module _ (is_last : Bool) (candidate : ForwardCandidate) (failed_attempts : List (Text × ℕ))
      (g : Gateway W S) (prepared : PreparedUpstreamRequest) where
    abbrev pub in_world : W → Gateway W S
    in_world w = record g { world = w }

    -- The ends of `match self.forward_with_binding_reverify(…)`, buffered and streaming.
    abbrev pub buffered_tried : Left W UpstreamResponse → Gateway W S × Tried
    buffered_tried (w, forwarded r, event) =
        if not is_last && should_fail_over service req commit r.status_code r.body
        then (in_world w, abandoned r.status_code none)
        else without_reserving service req commit (
            with_sessions service req commit event
              (commit_buffered service req commit candidate prepared event r failed_attempts)
              (in_world w))
    buffered_tried (w, refresh_failed err, event) =
        (in_world w, abandoned 502 (some (refresh_priority err, err)))
    buffered_tried (w, failed err, event) = (in_world w, abandoned 502 (some (2, upstream err)))

    abbrev pub error_body : UpstreamStreamResponse → Bytes
    error_body r = or_default (collect_upstream_body r.body) []

    abbrev pub stream_tried : Left W UpstreamStreamResponse → Gateway W S × Tried
    stream_tried (w, forwarded r, event) =
        if r.status_code == 200
        then reserving service req commit (
            with_sessions service req commit event
              (commit_stream service req commit candidate prepared event r failed_attempts)
              (in_world w))
        else if not is_last && should_fail_over service req commit r.status_code (error_body r)
        then (in_world w, abandoned r.status_code none)
        else (
          in_world w,
          answered (
              committed (upstream_error (error_body r)) r.status_code r.headers candidate.route_id
                failed_attempts),
        )
    stream_tried (w, refresh_failed err, event) =
        (in_world w, abandoned 502 (some (refresh_priority err, err)))
    stream_tried (w, failed err, event) = (in_world w, abandoned 502 (some (2, upstream err)))

  module _ (stream caller_supplied_upstream_event : Bool)
      (single_caller_event : Option UpstreamVerifiedEvent) where
    -- A prepared candidate, on the result of its verification.
    abbrev pub forwarded_tried :
        Bool
        → ForwardCandidate
        → List (Text × ℕ)
        → Gateway W S
        → PreparedUpstreamRequest
        → UpstreamVerifiedEvent
        → W
        → Gateway W S × Tried
    forwarded_tried is_last candidate failed_attempts g prepared event w =
        let required = upstream_required_for_prepared prepared req.upstream_required in
        if stream
        then stream_tried is_last candidate failed_attempts g prepared (
            forward_with_binding_reverify service.sha256 service.upstream_verifier
              service.upstream_required_default service.backend.forward_stream_verified_prepared
              prepared required caller_supplied_upstream_event true event w)
        else buffered_tried is_last candidate failed_attempts g prepared (
            forward_with_binding_reverify service.sha256 service.upstream_verifier
              service.upstream_required_default service.backend.forward_verified_prepared prepared
              required caller_supplied_upstream_event true event w)

    abbrev pub verified_tried :
        Bool
        → ForwardCandidate
        → List (Text × ℕ)
        → Gateway W S
        → PreparedUpstreamRequest
        → W × Served UpstreamVerifiedEvent
        → Gateway W S × Tried
    verified_tried is_last candidate failed_attempts g prepared (w, served event) =
        forwarded_tried is_last candidate failed_attempts g prepared event w
    verified_tried is_last candidate failed_attempts g prepared
          (w, failing (upstream_verification uv)) =
        (record g { world = w }, abandoned 502 (some (3, upstream_verification uv)))
    verified_tried is_last candidate failed_attempts g prepared (w, failing e) =
        (record g { world = w }, stopped e)

    abbrev pub prepared_tried :
        Bool
        → ForwardCandidate
        → List (Text × ℕ)
        → Gateway W S
        → Attempt PreparedUpstreamRequest
        → Gateway W S × Tried
    prepared_tried is_last candidate failed_attempts g (not_forwarded e) =
        (g, abandoned 502 (some (prepare_failed e)))
    prepared_tried is_last candidate failed_attempts g (response prepared) =
        verified_tried is_last candidate failed_attempts g prepared (
          recorded_upstream_event service.sha256 service.upstream_verifier
            service.upstream_required_default g.world prepared
            (upstream_required_for_prepared prepared req.upstream_required) single_caller_event)

    -- One round of the loop.
    unfoldable pub try_candidate :
        Bool → ForwardCandidate → List (Text × ℕ) → Gateway W S → Gateway W S × Tried
    unfolding should_fail_over forward_with_binding_reverify recorded_upstream_event
        upstream_required_for_prepared build_middleware_receipt_prefix
        record_attested_upstream_session cite_served_session extract_chat_id accepted_response_model
        add_response_received set_upstream_verified_model_id collect_upstream_body
    try_candidate is_last candidate failed_attempts g =
        prepared_tried is_last candidate failed_attempts g (
          service.backend.prepare (record {
            body = candidate.body;
            headers = upstream_headers req.user_tier;
            path = some req.endpoint_path;
            target_route_id = some candidate.route_id;
          }))

    abbrev pub continued :
        (ℕ → Option (ℕ × ServiceError) → Gateway W S → Gateway W S × Served MiddlewareForwardResult)
        → Gateway W S × Tried
        → Gateway W S × Served MiddlewareForwardResult
    continued next (g, abandoned status err) = next status err g
    continued next (g, answered r) = (g, served r)
    continued next (g, stopped e) = (g, failing e)

    -- The loop, over the candidates that are left; `all` are all of them.
    unfoldable pub try_candidates :
        List ForwardCandidate
        → List ForwardCandidate
        → Option (ℕ × ServiceError)
        → List (Text × ℕ)
        → Gateway W S
        → Gateway W S × Served MiddlewareForwardResult
    unfolding try_candidate upgrade_err
    try_candidates all [] aggregated_err failed_attempts g =
        (g, served (all_failed failed_attempts (final_error all aggregated_err)))
    try_candidates all (candidate ∷ candidates) aggregated_err failed_attempts g =
        continued
          (λ status err g'.
            try_candidates all candidates (upgraded aggregated_err err)
              (failed_attempts ++ (candidate.route_id, status) ∷ []) g')
          (try_candidate (is_empty candidates) candidate failed_attempts g)

  -- The event of the caller, for a single candidate.
  abbrev pub single_event : List ForwardCandidate → Option UpstreamVerifiedEvent
  single_event (candidate ∷ []) = req.upstream_verification_event
  single_event candidates = none

  unfoldable pub forward_chat_completion_for_middleware :
      List ForwardCandidate → Bool → Gateway W S → Gateway W S × Served MiddlewareForwardResult
  unfolding try_candidates
  forward_chat_completion_for_middleware [] stream g =
      (g, failing (upstream (routing (codes "no candidate routes supplied"))))
  forward_chat_completion_for_middleware (c ∷ cs) stream g =
      try_candidates stream (is_some (single_event (c ∷ cs))) (single_event (c ∷ cs)) (c ∷ cs)
        (c ∷ cs) none [] g
