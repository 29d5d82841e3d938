-- ===== src/Service/Failover/Own.antt =====
-- What one round of the failover loop answers: it is the answer of its own candidate.
use phala_llm_router.Base.{
  ℕ, ◌==◌, Bool, true, false, ◌&&◌, not, List, none, Text, ◌≡◌, refl, if◌then◌else◌,
}
use phala_llm_router.Receipts.Types.{UpstreamVerifiedEvent}
use phala_llm_router.Service.Errors.{Served, served, failing, ◌>>=◌}
use phala_llm_router.Service.Failover.{
  UpstreamResponse, UpstreamStreamResponse, ForwardCandidate, ChatCompletionRequest,
  MiddlewareForwardResult, committed, all_failed, upstream_error, AciService, Gateway, Commit,
  Tried, abandoned, answered, stopped, tried,
}
use phala_llm_router.Receipts.Builder.{ReceiptBuilder}
use phala_llm_router.Service.Failover.Prefix.{extract_chat_id}
use phala_llm_router.Service.Failover.Answer.{
  should_fail_over, receipt_prefix, received, buffered_outcome, stream_outcome, with_sessions,
  reserving, without_reserving, commit_buffered, commit_stream,
}
use phala_llm_router.Service.Failover.Loop.{buffered_tried, stream_tried, error_body}
use phala_llm_router.Service.Forward.{forwarded, refresh_failed, failed, Left}
use phala_llm_router.Service.Sessions.{SealedSession, cite_served_session}
use phala_llm_router.Upstream.Prepare.{PreparedUpstreamRequest}

-- What one round answers is of its own candidate and leaves the attempts before it as they are.
abbrev pub Own : ForwardCandidate → List (Text × ℕ) → MiddlewareForwardResult → Type 0
Own c before (committed o status headers route attempts) =
    (route ≡ c.route_id) × (attempts ≡ before)
Own c before (all_failed attempts e) = ⊥

abbrev pub OwnTried : ForwardCandidate → List (Text × ℕ) → Tried → Type 0
OwnTried c before (abandoned status err) = Unit {0}
OwnTried c before (answered r) = Own c before r
OwnTried c before (stopped e) = Unit {0}

abbrev OwnServed : ForwardCandidate → List (Text × ℕ) → Served MiddlewareForwardResult → Type 0
OwnServed c before (served r) = Own c before r
OwnServed c before (failing e) = Unit {0}

bind-OwnServed :
    (c : ForwardCandidate) (before : List (Text × ℕ)) {A : Type 0} (m : Served A)
    (f : A → Served MiddlewareForwardResult)
    → ((a : A) → OwnServed c before (f a))
    → OwnServed c before (m >>= f)
bind-OwnServed c before (served a) f h = h a
bind-OwnServed c before (failing e) f h = tt

tried-Own :
    (c : ForwardCandidate) (before : List (Text × ℕ)) (r : Served MiddlewareForwardResult)
    → OwnServed c before r
    → OwnTried c before (tried r)
tried-Own c before (served r) h = h
tried-Own c before (failing e) h = tt

pub if-Own :
    {W S : Type 0} (c : ForwardCandidate) (before : List (Text × ℕ)) (b : Bool)
    (x y : Gateway W S × Tried)
    → OwnTried c before x.1
    → OwnTried c before y.1
    → OwnTried c before (if b then x else y).1
if-Own c before true x y h h' = h
if-Own c before false x y h h' = h'

module _ {W S : Type 0} (service : AciService W S) (req : ChatCompletionRequest)
    (commit : Commit) where
  commit_buffered-Own :
      (c : ForwardCandidate) (prepared : PreparedUpstreamRequest) (event : UpstreamVerifiedEvent)
      (r : UpstreamResponse) (before : List (Text × ℕ)) (sealed : List SealedSession)
      → OwnServed c before (commit_buffered service req commit c prepared event r before sealed)
  commit_buffered-Own c prepared event r before sealed =
      let recorded = cite_served_session sealed r.served_instance_id in
      let answer : ReceiptBuilder × Text → MiddlewareForwardResult = λ drafted.
        committed (buffered_outcome service req commit r recorded drafted) r.status_code r.headers
          c.route_id before in
      bind-OwnServed c before
        (receipt_prefix service req commit c prepared event
          (extract_chat_id service.from_slice r.body) recorded)
        (λ builder. do
          drafted ← received service req commit r recorded builder
          served (answer drafted))
        (λ builder.
          bind-OwnServed c before (received service req commit r recorded builder)
            (λ drafted. served (answer drafted)) (λ drafted. (refl, refl)))

  commit_stream-Own :
      (c : ForwardCandidate) (prepared : PreparedUpstreamRequest) (event : UpstreamVerifiedEvent)
      (r : UpstreamStreamResponse) (before : List (Text × ℕ)) (sealed : List SealedSession)
      → OwnServed c before (commit_stream service req commit c prepared event r before sealed)
  commit_stream-Own c prepared event r before sealed =
      let recorded = cite_served_session sealed r.served_instance_id in
      bind-OwnServed c before (receipt_prefix service req commit c prepared event none recorded)
        (λ builder. served (
          committed (stream_outcome service req commit r recorded builder) r.status_code r.headers
            c.route_id before))
        (λ builder. (refl, refl))

  with_sessions-Own :
      (c : ForwardCandidate) (before : List (Text × ℕ)) (event : UpstreamVerifiedEvent)
      (f : List SealedSession → Served MiddlewareForwardResult) (g : Gateway W S)
      → ((sealed : List SealedSession) → OwnServed c before (f sealed))
      → OwnServed c before (with_sessions service req commit event f g).1
  with_sessions-Own c before event f g h = bind-OwnServed c before _ f h

  reserving-Own :
      (c : ForwardCandidate) (before : List (Text × ℕ))
      (p : Gateway W S × Served MiddlewareForwardResult)
      → OwnServed c before p.1
      → OwnTried c before (reserving service req commit p).1
  reserving-Own c before (g, served r) h = h
  reserving-Own c before (g, failing e) h = tt

  module _ (is_last : Bool) (c : ForwardCandidate) (before : List (Text × ℕ)) (g : Gateway W S)
      (prepared : PreparedUpstreamRequest) where
    pub buffered_tried-Own :
        (l : Left W UpstreamResponse)
        → OwnTried c before (buffered_tried service req commit is_last c before g prepared l).1
    buffered_tried-Own (w, forwarded r, event) =
        if-Own c before (not is_last && should_fail_over service req commit r.status_code r.body)
          (record g { world = w }, abandoned r.status_code none)
          (without_reserving service req commit (
            with_sessions service req commit event
              (commit_buffered service req commit c prepared event r before)
              (record g { world = w })))
          tt
          (tried-Own c before _ (
            with_sessions-Own c before event
              (commit_buffered service req commit c prepared event r before)
              (record g { world = w }) (commit_buffered-Own c prepared event r before)))
    buffered_tried-Own (w, refresh_failed e, event) = tt
    buffered_tried-Own (w, failed e, event) = tt

    pub stream_tried-Own :
        (l : Left W UpstreamStreamResponse)
        → OwnTried c before (stream_tried service req commit is_last c before g prepared l).1
    stream_tried-Own (w, forwarded r, event) =
        let g' : Gateway W S = record g { world = w } in
        let body = error_body service req commit is_last c before g prepared r in
        let answer : Tried =
          answered (committed (upstream_error body) r.status_code r.headers c.route_id before) in
        let ends : Gateway W S × Tried = reserving service req commit (
          with_sessions service req commit event
            (commit_stream service req commit c prepared event r before) g') in
        let goes_on = not is_last && should_fail_over service req commit r.status_code body in
        if-Own c before (r.status_code == 200) ends
          (if goes_on then (g', abandoned r.status_code none) else (g', answer))
          (reserving-Own c before
            (with_sessions service req commit event
              (commit_stream service req commit c prepared event r before) g')
            (with_sessions-Own c before event
              (commit_stream service req commit c prepared event r before) g'
              (commit_stream-Own c prepared event r before)))
          (if-Own c before goes_on (g', abandoned r.status_code none) (g', answer) tt (refl, refl))
    stream_tried-Own (w, refresh_failed e, event) = tt
    stream_tried-Own (w, failed e, event) = tt
