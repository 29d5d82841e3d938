-- ===== src/Service/Failover/Attempts.antt =====
-- Which candidates an answer says were tried.
use phala_llm_router.Base.{
  ℕ, Bool, true, List, [], ◌∷◌, ◌++◌, Option, none, is_some, Text, ◌≡◌, refl, sym, ap, ◌∙◌, subst,
}
use phala_llm_router.Receipts.Types.{UpstreamVerifiedEvent}
use phala_llm_router.Service.Errors.{ServiceError, upstream_verification, Served, served, failing}
use phala_llm_router.Service.Failover.{
  ForwardCandidate, ChatCompletionRequest, MiddlewareForwardResult, committed, all_failed,
  AciService, Gateway, Commit, Tried, abandoned, answered, stopped,
}
use phala_llm_router.Service.Failover.Loop.{
  single_event, buffered_tried, stream_tried, verified_tried, prepared_tried, try_candidate,
  continued, try_candidates, forward_chat_completion_for_middleware, is_empty, upgraded,
}
use phala_llm_router.Service.Forward.{
  Attempt, response, not_forwarded, upstream_required_for_prepared, forward_with_binding_reverify,
}
use phala_llm_router.Upstream.Prepare.{PreparedUpstreamRequest}
use mathlib.Core.List.{append-nil}
use phala_llm_router.Service.Failover.Own.{
  Own, OwnTried, if-Own, buffered_tried-Own, stream_tried-Own,
}

-- The routes of the attempts, and of the candidates.
abbrev pub attempted : List (Text × ℕ) → List Text
attempted [] = []
attempted ((route, status) ∷ l) = route ∷ attempted l

abbrev pub routes : List ForwardCandidate → List Text
routes [] = []
routes (c ∷ cs) = c.route_id ∷ routes cs

-- An answer accounts for the candidates: the failed attempts are those before the committed one, in
-- their order, or all of them if none is committed.
abbrev pub Accounts : List ForwardCandidate → MiddlewareForwardResult → Type 0
Accounts candidates (committed o status headers route attempts) =
    (after : List Text) × (routes candidates ≡ attempted attempts ++ route ∷ after)
Accounts candidates (all_failed attempts e) = routes candidates ≡ attempted attempts

attempted-append :
    (l : List (Text × ℕ)) (route : Text) (status : ℕ) (ys : List Text)
    → attempted (l ++ (route, status) ∷ []) ++ ys ≡ attempted l ++ route ∷ ys
attempted-append [] route status ys = refl
attempted-append ((r, s) ∷ l) route status ys =
    ap (λ zs. r ∷ zs) (attempted-append l route status ys)

Own-Accounts :
    (all cs : List ForwardCandidate) (c : ForwardCandidate) (before : List (Text × ℕ))
    (r : MiddlewareForwardResult)
    → routes all ≡ attempted before ++ c.route_id ∷ routes cs
    → Own c before r
    → Accounts all r
Own-Accounts all cs c before (committed o status headers route attempts) h (p, q) = (
  routes cs,
  h
      ∙ ap (λ l. attempted l ++ c.route_id ∷ routes cs) (sym q)
      ∙ ap (λ x. attempted attempts ++ x ∷ routes cs) (sym p),
)
Own-Accounts all cs c before (all_failed attempts e) h o = absurd o

abbrev AccountsServed : List ForwardCandidate → Served MiddlewareForwardResult → Type 0
AccountsServed all (served r) = Accounts all r
AccountsServed all (failing e) = Unit {0}

module _ {W S : Type 0} (service : AciService W S) (req : ChatCompletionRequest) (commit : Commit)
    (stream caller : Bool) (event : Option UpstreamVerifiedEvent) where
  module _ (is_last : Bool) (c : ForwardCandidate) (before : List (Text × ℕ))
      (g : Gateway W S) where
    verified_tried-Own :
        (prepared : PreparedUpstreamRequest) (p : W × Served UpstreamVerifiedEvent)
        → OwnTried c before
            (verified_tried service req commit stream caller event is_last c before g prepared p).1
    verified_tried-Own prepared (w, served e) =
        let ur = upstream_required_for_prepared prepared req.upstream_required in
        let ls =
          forward_with_binding_reverify service.sha256 service.upstream_verifier
            service.upstream_required_default service.backend.forward_stream_verified_prepared
            prepared ur caller true e w in
        let lb =
          forward_with_binding_reverify service.sha256 service.upstream_verifier
            service.upstream_required_default service.backend.forward_verified_prepared prepared ur
            caller true e w in
        if-Own c before stream (stream_tried service req commit is_last c before g prepared ls)
          (buffered_tried service req commit is_last c before g prepared lb)
          (stream_tried-Own service req commit is_last c before g prepared ls)
          (buffered_tried-Own service req commit is_last c before g prepared lb)
    verified_tried-Own prepared (w, failing (upstream_verification x)) = tt
    verified_tried-Own prepared (w, failing e) = tt

    prepared_tried-Own :
        (a : Attempt PreparedUpstreamRequest)
        → OwnTried c before
            (prepared_tried service req commit stream caller event is_last c before g a).1
    prepared_tried-Own (not_forwarded e) = tt
    prepared_tried-Own (response prepared) = verified_tried-Own prepared _

    try_candidate-Own :
        OwnTried c before
          (try_candidate service req commit stream caller event is_last c before g).1
    unfolding try_candidate
    try_candidate-Own = prepared_tried-Own _

  continued-Accounts :
      (all cs : List ForwardCandidate) (c : ForwardCandidate) (before : List (Text × ℕ))
      (next : ℕ
        → Option (ℕ × ServiceError)
        → Gateway W S
        → Gateway W S × Served MiddlewareForwardResult)
      (p : Gateway W S × Tried)
      → routes all ≡ attempted before ++ c.route_id ∷ routes cs
      → OwnTried c before p.1
      → ((status : ℕ) (err : Option (ℕ × ServiceError))
          → AccountsServed all (next status err p.0).1)
      → AccountsServed all (continued service req commit stream caller event next p).1
  continued-Accounts all cs c before next (g, abandoned status err) e o h = h status err
  continued-Accounts all cs c before next (g, answered r) e o h = Own-Accounts all cs c before r e o
  continued-Accounts all cs c before next (g, stopped x) e o h = tt

  try_candidates-Accounts :
      (all cs : List ForwardCandidate) (slot : Option (ℕ × ServiceError)) (before : List (Text × ℕ))
      (g : Gateway W S)
      → routes all ≡ attempted before ++ routes cs
      → AccountsServed all
          (try_candidates service req commit stream caller event all cs slot before g).1
  unfolding try_candidates
  try_candidates-Accounts all [] slot before g e = e ∙ append-nil (attempted before)
  try_candidates-Accounts all (c ∷ cs) slot before g e =
      continued-Accounts all cs c before
        (λ status err g'.
          try_candidates service req commit stream caller event all cs (upgraded slot err)
            (before ++ (c.route_id, status) ∷ []) g')
        (try_candidate service req commit stream caller event (is_empty cs) c before g) e
        (try_candidate-Own (is_empty cs) c before g)
        (λ status err.
          try_candidates-Accounts all cs (upgraded slot err) (before ++ (c.route_id, status) ∷ []) _
            (e ∙ sym (attempted-append before c.route_id status (routes cs))))

served-Accounts :
    (all : List ForwardCandidate) (s : Served MiddlewareForwardResult) (r : MiddlewareForwardResult)
    → s ≡ served r
    → AccountsServed all s
    → Accounts all r
served-Accounts all (served x) r e h = subst (Accounts all) (cc e) h
served-Accounts all (failing x) r e h = absurd (cc e)

-- Whatever the service, its verifier and its upstreams do: an answer to a request accounts for its
-- candidates. If a candidate is committed, then the failed attempts that are reported are exactly the
-- candidates before it, in their order; if none is, they are all the candidates.
pub forward_chat_completion-Accounts :
    {W S : Type 0} (service : AciService W S) (req : ChatCompletionRequest) (commit : Commit)
    (candidates : List ForwardCandidate) (stream : Bool) (g : Gateway W S)
    (r : MiddlewareForwardResult)
    → (forward_chat_completion_for_middleware service req commit candidates stream g).1 ≡ served r
    → Accounts candidates r
unfolding forward_chat_completion_for_middleware
forward_chat_completion-Accounts service req commit [] stream g r h = absurd (cc h)
forward_chat_completion-Accounts service req commit (c ∷ cs) stream g r h =
    let event = single_event service req commit (c ∷ cs) in
    served-Accounts (c ∷ cs) _ r h (
      try_candidates-Accounts service req commit stream (is_some event) event (c ∷ cs) (c ∷ cs) none
        [] g refl)
