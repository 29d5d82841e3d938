-- ===== src/Service/Failover/Bounded.antt =====
-- How often a request reaches its upstreams, and on what events.
use phala_llm_router.Base.{
  some, ℕ, ◌+◌, ◌*◌, ◌≤◌, ◌==◌, Bool, true, false, ◌&&◌, not, List, [], ◌∷◌, ◌++◌, Option, none,
  or_default, is_some, length, Text, ◌≡◌, refl, sym, subst, inl, inr, arith, Bool-cases, if_true,
  if_false, if◌then◌else◌,
}
use phala_llm_router.Receipts.Types.{UpstreamVerifiedEvent}
use phala_llm_router.Service.Errors.{ServiceError, upstream_verification, Served, served, failing}
use phala_llm_router.Service.Failover.{
  UpstreamResponse, UpstreamStreamResponse, ForwardCandidate, ChatCompletionRequest,
  MiddlewareForwardResult, AciService, Gateway, Commit, Tried, abandoned, answered, stopped,
}
use phala_llm_router.Service.Failover.Answer.{
  should_fail_over, with_sessions, reserving, commit_stream,
}
use phala_llm_router.Service.Failover.Loop.{
  in_world, buffered_tried, stream_tried, forwarded_tried, verified_tried, prepared_tried,
  try_candidate, continued, try_candidates, forward_chat_completion_for_middleware, error_body,
  is_empty, upgraded, single_event,
}
use phala_llm_router.Service.Forward.{
  is_non_tee, Attempt, response, not_forwarded, forwarded, refresh_failed, failed, Left,
  upstream_required_for_prepared, forward_with_binding_reverify,
}
use phala_llm_router.Service.Forward.Gated.{
  Permitted, Counts, AtMost, recorded_upstream_event-Inv, recorded_upstream_event-Permitted,
  forward_with_binding_reverify-AtMost,
}
use phala_llm_router.Upstream.Prepare.{PreparedUpstreamRequest}

-- Whether a verification is required: not on a route that is said to be no TEE; on others as the
-- request says, or else as the service is configured.
abbrev pub required_mode : Option Bool → Option Bool → Bool → Bool
required_mode (some false) requested default = false
required_mode (some true) requested default = or_default requested default
required_mode none requested default = or_default requested default

abbrev pub required_of :
    {W S : Type 0} → AciService W S → ChatCompletionRequest → PreparedUpstreamRequest → Bool
required_of service req prepared =
    required_mode prepared.is_tee req.upstream_required service.upstream_required_default

-- The code's mode, its default filled in, is that one.
mode_of_route :
    (is_tee requested : Option Bool) (default : Bool)
    → or_default (if is_non_tee is_tee then some false else requested) default
      ≡ required_mode is_tee requested default
mode_of_route (some false) requested default = refl
mode_of_route (some true) requested default = refl
mode_of_route none requested default = refl

mode_of :
    {W S : Type 0} (service : AciService W S) (req : ChatCompletionRequest)
    (prepared : PreparedUpstreamRequest)
    → or_default
        (upstream_required_for_prepared prepared req.upstream_required)
        service.upstream_required_default
      ≡ required_of service req prepared
unfolding upstream_required_for_prepared
mode_of service req prepared =
    mode_of_route prepared.is_tee req.upstream_required service.upstream_required_default

-- A property of the world that counts the calls of both kinds.
pub record CountsBoth (W S : Type 0) (service : AciService W S) (req : ChatCompletionRequest)
    (Inv : ℕ → W → Type 0) : Type 0 where
  pub buffered :
      Counts W UpstreamResponse Inv service.upstream_verifier
        service.backend.forward_verified_prepared
        (required_of service req)
  pub streamed :
      Counts W UpstreamStreamResponse Inv service.upstream_verifier
        service.backend.forward_stream_verified_prepared
        (required_of service req)

module _ {W S : Type 0} (service : AciService W S) (req : ChatCompletionRequest) (commit : Commit)
    (Inv : ℕ → W → Type 0) where
  if-AtMost :
      (k : ℕ) (b : Bool) (x y : Gateway W S × Tried)
      → AtMost Inv k x.0.world
      → AtMost Inv k y.0.world
      → AtMost Inv k (if b then x else y).0.world
  if-AtMost k true x y h h' = h
  if-AtMost k false x y h h' = h'

  buffered_tried-AtMost :
      (k : ℕ) (is_last : Bool) (c : ForwardCandidate) (attempts : List (Text × ℕ)) (g : Gateway W S)
      (prepared : PreparedUpstreamRequest) (l : Left W UpstreamResponse)
      → AtMost Inv k l.0
      → AtMost Inv k (buffered_tried service req commit is_last c attempts g prepared l).0.world
  buffered_tried-AtMost k is_last c attempts g prepared (w, forwarded r, event) h =
      elim (Bool-cases (not is_last && should_fail_over service req commit r.status_code r.body)) [
        | inl e ↦
            subst (λ (p : Gateway W S × Tried). AtMost Inv k p.0.world) (sym (if_true _ _ _ e)) h
        | inr e ↦
            subst (λ (p : Gateway W S × Tried). AtMost Inv k p.0.world) (sym (if_false _ _ _ e)) h
      ]
  buffered_tried-AtMost k is_last c attempts g prepared (w, refresh_failed x, event) h = h
  buffered_tried-AtMost k is_last c attempts g prepared (w, failed x, event) h = h

  reserving-AtMost :
      (k : ℕ) (p : Gateway W S × Served MiddlewareForwardResult)
      → AtMost Inv k p.0.world
      → AtMost Inv k (reserving service req commit p).0.world
  reserving-AtMost k (g, served r) h = h
  reserving-AtMost k (g, failing e) h = h

  stream_tried-AtMost :
      (k : ℕ) (is_last : Bool) (c : ForwardCandidate) (attempts : List (Text × ℕ)) (g : Gateway W S)
      (prepared : PreparedUpstreamRequest) (l : Left W UpstreamStreamResponse)
      → AtMost Inv k l.0
      → AtMost Inv k (stream_tried service req commit is_last c attempts g prepared l).0.world
  stream_tried-AtMost k is_last c attempts g prepared (w, forwarded r, event) h =
      elim (Bool-cases (r.status_code == 200)) [
        | inl e ↦
            subst (λ (p : Gateway W S × Tried). AtMost Inv k p.0.world) (sym (if_true _ _ _ e))
              (reserving-AtMost k
                (with_sessions service req commit event
                  (commit_stream service req commit c prepared event r attempts)
                  (in_world service req commit is_last c attempts g prepared w))
                h)
        | inr e ↦
            subst (λ (p : Gateway W S × Tried). AtMost Inv k p.0.world) (sym (if_false _ _ _ e))
              (elim (Bool-cases (
                not is_last
                && should_fail_over service req commit r.status_code
                    (error_body service req commit is_last c attempts g prepared r))) [
                      | inl f ↦
                          subst (λ (p : Gateway W S × Tried). AtMost Inv k p.0.world)
                            (sym (if_true _ _ _ f)) h
                      | inr f ↦
                          subst (λ (p : Gateway W S × Tried). AtMost Inv k p.0.world)
                            (sym (if_false _ _ _ f)) h
                    ])
      ]
  stream_tried-AtMost k is_last c attempts g prepared (w, refresh_failed x, event) h = h
  stream_tried-AtMost k is_last c attempts g prepared (w, failed x, event) h = h

  module _ (counts : CountsBoth W S service req Inv) (stream caller : Bool)
      (event : Option UpstreamVerifiedEvent) where
    forwarded_tried-AtMost :
        (n : ℕ) (is_last : Bool) (c : ForwardCandidate) (attempts : List (Text × ℕ))
        (g : Gateway W S) (prepared : PreparedUpstreamRequest) (e : UpstreamVerifiedEvent) (w : W)
        → Permitted (required_of service req prepared) e
        → Inv n w
        → AtMost Inv
            (n + 3)
            (forwarded_tried service req commit stream caller event is_last c attempts g prepared e
              w).0.world
    forwarded_tried-AtMost n is_last c attempts g prepared e w p i =
        let ur = upstream_required_for_prepared prepared req.upstream_required in
        let ls =
          forward_with_binding_reverify service.sha256 service.upstream_verifier
            service.upstream_required_default service.backend.forward_stream_verified_prepared
            prepared ur caller true e w in
        let lb =
          forward_with_binding_reverify service.sha256 service.upstream_verifier
            service.upstream_required_default service.backend.forward_verified_prepared prepared ur
            caller true e w in
        if-AtMost (n + 3) stream (stream_tried service req commit is_last c attempts g prepared ls)
          (buffered_tried service req commit is_last c attempts g prepared lb)
          (stream_tried-AtMost (n + 3) is_last c attempts g prepared ls (
            forward_with_binding_reverify-AtMost service.sha256 service.upstream_verifier
              service.upstream_required_default Inv service.backend.forward_stream_verified_prepared
              (required_of service req) counts.streamed prepared ur (mode_of service req prepared)
              caller true n e w p i))
          (buffered_tried-AtMost (n + 3) is_last c attempts g prepared lb (
            forward_with_binding_reverify-AtMost service.sha256 service.upstream_verifier
              service.upstream_required_default Inv service.backend.forward_verified_prepared
              (required_of service req) counts.buffered prepared ur (mode_of service req prepared)
              caller true n e w p i))

    verified_tried-AtMost :
        (n : ℕ) (is_last : Bool) (c : ForwardCandidate) (attempts : List (Text × ℕ))
        (g : Gateway W S) (prepared : PreparedUpstreamRequest)
        (p : W × Served UpstreamVerifiedEvent)
        → ((e : UpstreamVerifiedEvent)
            → p.1 ≡ served e
            → Permitted (required_of service req prepared) e)
        → Inv n p.0
        → AtMost Inv
            (n + 3)
            (verified_tried service req commit stream caller event is_last c attempts g prepared
              p).0.world
    verified_tried-AtMost n is_last c attempts g prepared (w, served e) h i =
        forwarded_tried-AtMost n is_last c attempts g prepared e w (h e refl) i
    verified_tried-AtMost n is_last c attempts g prepared (w, failing (upstream_verification x)) h
          i =
        (n, omega arith, i)
    verified_tried-AtMost n is_last c attempts g prepared (w, failing e) h i = (n, omega arith, i)

    prepared_tried-AtMost :
        (n : ℕ) (is_last : Bool) (c : ForwardCandidate) (attempts : List (Text × ℕ))
        (g : Gateway W S) (a : Attempt PreparedUpstreamRequest)
        → Inv n g.world
        → AtMost Inv
            (n + 3)
            (prepared_tried service req commit stream caller event is_last c attempts g a).0.world
    prepared_tried-AtMost n is_last c attempts g (not_forwarded e) i = (n, omega arith, i)
    prepared_tried-AtMost n is_last c attempts g (response prepared) i =
        let ur = upstream_required_for_prepared prepared req.upstream_required in
        verified_tried-AtMost n is_last c attempts g prepared _
          (λ e h.
            subst (λ b. Permitted b e) (mode_of service req prepared)
              (recorded_upstream_event-Permitted service.sha256 service.upstream_verifier
                service.upstream_required_default Inv service.backend.forward_verified_prepared
                (required_of service req) counts.buffered g.world prepared ur event e h))
          (recorded_upstream_event-Inv service.sha256 service.upstream_verifier
            service.upstream_required_default Inv service.backend.forward_verified_prepared
            (required_of service req) counts.buffered n g.world prepared ur event i)

    try_candidate-AtMost :
        (n : ℕ) (is_last : Bool) (c : ForwardCandidate) (attempts : List (Text × ℕ))
        (g : Gateway W S)
        → Inv n g.world
        → AtMost Inv
            (n + 3)
            (try_candidate service req commit stream caller event is_last c attempts g).0.world
    unfolding try_candidate
    try_candidate-AtMost n is_last c attempts g i = prepared_tried-AtMost n is_last c attempts g _ i

    continued-AtMost :
        (k : ℕ)
        (next : ℕ
          → Option (ℕ × ServiceError)
          → Gateway W S
          → Gateway W S × Served MiddlewareForwardResult)
        (p : Gateway W S × Tried)
        → AtMost Inv k p.0.world
        → ((status : ℕ) (err : Option (ℕ × ServiceError))
            → AtMost Inv k (next status err p.0).0.world)
        → AtMost Inv k (continued service req commit stream caller event next p).0.world
    continued-AtMost k next (g, abandoned status err) i h = h status err
    continued-AtMost k next (g, answered r) i h = i
    continued-AtMost k next (g, stopped e) i h = i

    widen : (j k : ℕ) {w : W} → j ≤ k → AtMost Inv j w → AtMost Inv k w
    widen j k le (n, h, i) = (n, omega (arith, h, le), i)

    try_candidates-AtMost :
        (n : ℕ) (all cs : List ForwardCandidate) (slot : Option (ℕ × ServiceError))
        (attempts : List (Text × ℕ)) (g : Gateway W S)
        → Inv n g.world
        → AtMost Inv
            (n + 3 * length cs)
            (try_candidates service req commit stream caller event all cs slot attempts g).0.world
    unfolding try_candidates
    try_candidates-AtMost n all [] slot attempts g i = (n, omega arith, i)
    try_candidates-AtMost n all (c ∷ cs) slot attempts g i =
        let p = try_candidate service req commit stream caller event (is_empty cs) c attempts g in
        let (m, le, j) = try_candidate-AtMost n (is_empty cs) c attempts g i in
        continued-AtMost (n + 3 * length (c ∷ cs))
          (λ status err g'.
            try_candidates service req commit stream caller event all cs (upgraded slot err)
              (attempts ++ (c.route_id, status) ∷ []) g')
          p (m, omega (arith, le), j)
          (λ status err. widen (m + 3 * length cs) (n + 3 * length (c ∷ cs)) (omega (arith, le)) (
            try_candidates-AtMost m all cs (upgraded slot err)
              (attempts ++ (c.route_id, status) ∷ []) p.0 j))

  -- Let a property of the outside world count the calls of the upstreams: verifying or invalidating
  -- keeps its count, and a call adds one to it if it is made with a verified event or where
  -- verification is not required of the candidate. If the property holds with the count 0, then
  -- however verifiers and upstreams answer, after the request it holds with a count of at most three
  -- times the number of candidates: every call is made behind the fail-closed gate, and the binding
  -- that is verified again never loops.
  pub forward_chat_completion-AtMost :
      CountsBoth W S service req Inv
      → (candidates : List ForwardCandidate) (stream : Bool) (g : Gateway W S) → Inv 0 g.world
      → AtMost Inv
          (3 * length candidates)
          (forward_chat_completion_for_middleware service req commit candidates stream g).0.world
  unfolding forward_chat_completion_for_middleware
  forward_chat_completion-AtMost counts [] stream g i = (0, omega arith, i)
  forward_chat_completion-AtMost counts (c ∷ cs) stream g i =
      let (n, le, j) =
        try_candidates-AtMost counts stream (is_some (single_event service req commit (c ∷ cs)))
          (single_event service req commit (c ∷ cs)) 0 (c ∷ cs) (c ∷ cs) none [] g i in
      (n, omega (arith, le), j)
