-- ===== src/Service/Direct/Receipted.antt =====
-- The events of the receipt of a request that has no middleware.
use phala_llm_router.Base.{
  Bool, true, false, List, [], ◌∷◌, ◌++◌, Option, none, some, Text, codes, text_eq, text_discrete,
  ℕ_discrete, ◌≡◌, refl, sym, ap, ◌∙◌, subst, Bool-cases, inl, inr, if_true, if_false,
}
use phala_llm_router.Canonical.{Bytes}
use phala_llm_router.Json.{Value, object, end}
use phala_llm_router.Receipts.{Receipt, ReceiptEvent}
use phala_llm_router.Receipts.Builder.{
  ReceiptBuilder, append, reserved_key, add_body, add_route_selected, add_transparency_event,
  add_upstream_verified, add_upstream_verified_with_session, set_model_id,
  set_upstream_verified_model_id, add_response_returned, session_fields,
}
use phala_llm_router.Receipts.Builder.Finalize.{bind-done, finalize-signed}
use phala_llm_router.Receipts.Types.{
  Built, done, refused, ◌>>=◌, UpstreamVerifiedEvent, event_fields, request_received,
  middleware_forwarded, route_selected, request_forwarded, upstream_verified, response_returned,
}
use phala_llm_router.Service.Direct.{
  DirectRequest, ForwardResult, DirectState, Signing, ClientResponse, response_same, new_receipt,
  targeted, begun, ended, answered_with, with_sealed, with_begun, with_wire, receipted,
  client_response, encrypted,
}
use phala_llm_router.Service.Errors.{Served, served, failing}
use phala_llm_router.Service.Failover.{UpstreamResponse, ChatCompletionRequest, AciService, Commit}
use phala_llm_router.Service.Failover.Order.{types}
use phala_llm_router.Service.Failover.Prefix.{modified, accepted_response_model}
use phala_llm_router.Service.Finalize.Disclosed.{
  append-types, append_nil, change, add_response_returned-types,
}
use phala_llm_router.Service.Sessions.{SealedSession, append_upstream_verified, cite_served_session}
use phala_llm_router.Session.{ChannelBinding, SessionClaims}
use phala_llm_router.Upstream.Prepare.{PreparedUpstreamRequest}

-- The events of a request before its upstream is verified.
abbrev target_types : Option Text → List Text
target_types none = []
target_types (some route_id) = middleware_forwarded ∷ route_selected ∷ []

abbrev request_change : Bool → List Text
request_change true = []
request_change false = codes "transparency.request_modified" ∷ []

abbrev pub begun_types : Option Text → Bool → List Text
begun_types target same =
    request_received ∷ target_types target ++ request_forwarded ∷ request_change same

set_model_id-types : (m : Text) (es : List ReceiptEvent) → types (set_model_id m es) ≡ types es
unfolding set_model_id
set_model_id-types m [] = refl
set_model_id-types m (e ∷ es) = elim (Bool-cases (text_eq e.event_type upstream_verified)) [
  | inl h ↦ ap types (if_true (text_eq e.event_type upstream_verified) _ _ h)
  | inr h ↦
      ap types (if_false (text_eq e.event_type upstream_verified) _ _ h)
      ∙ ap (λ ts. e.event_type ∷ ts) (set_model_id-types m es)
]

append_upstream_verified-types :
    (bindings : List ChannelBinding → Value) (claims : SessionClaims → Option Value)
    (b b' : ReceiptBuilder) (event : UpstreamVerifiedEvent)
    (recorded : Option (Text × SessionClaims))
    → append_upstream_verified bindings claims b event recorded ≡ done b'
    → types b'.events ≡ types b.events ++ upstream_verified ∷ []
unfolding append_upstream_verified add_upstream_verified add_upstream_verified_with_session
append_upstream_verified-types bindings claims b b' event none h =
    append-types b b' upstream_verified (object (event_fields bindings event)) h
append_upstream_verified-types bindings claims b b' event (some (id, c)) h =
    append-types b b' upstream_verified (session_fields bindings event id (claims c)) h

response_same-types :
    (b b' : ReceiptBuilder) (same : Bool)
    → response_same b same ≡ done b'
    → types b'.events ≡ types b.events ++ change same
unfolding add_transparency_event
response_same-types b b' true h =
    let e : b ≡ b' = cc h in
    ap (λ (x : ReceiptBuilder). types x.events) (sym e) ∙ sym (append_nil (types b.events))
response_same-types b b' false h =
    append-types b b' (codes "transparency.response_modified") (object end) h

served_inj : (a b : ForwardResult) → ◌≡◌ {A = Served ForwardResult} (served a) (served b) → a ≡ b
served_inj a b h = cc h

module _ {W S : Type 0} (service : AciService W S) (signing : Signing) (req : ChatCompletionRequest)
    (direct : DirectRequest) (commit : Commit) where
  abbrev begin : Option Text → Bool → Bytes → Bytes → Built ReceiptBuilder
  begin target same client_body forwarded_body = do
    (b1, _) ←
        add_body service.sha256 request_received
          (new_receipt service signing req direct commit client_body) req.received_body
    b2 ← targeted service signing req direct commit target b1
    (b3, _) ← add_body service.sha256 request_forwarded b2 forwarded_body
    modified b3 same

  begin-types :
      (target : Option Text) (same : Bool) (client_body forwarded_body : Bytes)
      → (b : ReceiptBuilder) × (begin target same client_body forwarded_body ≡ done b)
        × (types b.events ≡ begun_types target same)
  unfolding add_body add_route_selected add_transparency_event append reserved_key text_eq
      text_discrete ℕ_discrete
  begin-types none true client_body forwarded_body = (_, refl, refl)
  begin-types none false client_body forwarded_body = (_, refl, refl)
  begin-types (some id) true client_body forwarded_body = (_, refl, refl)
  begin-types (some id) false client_body forwarded_body = (_, refl, refl)

  ended-types :
      (b : ReceiptBuilder) (event : UpstreamVerifiedEvent)
      (recorded : Option (Text × SessionClaims)) (r : UpstreamResponse) (client_body wire : Bytes)
      (receipt : Receipt)
      → ended service signing req direct commit b event recorded r client_body wire ≡ done receipt
      → types receipt.event_log
        ≡ ((types b.events ++ upstream_verified ∷ []) ++ change (text_eq r.body wire))
          ++ response_returned ∷ []
  unfolding set_upstream_verified_model_id
  ended-types b event recorded r client_body wire receipt h =
      let m = accepted_response_model service.from_slice r.status_code r.body in
      let (b1, p1, h1) =
        bind-done
          (append_upstream_verified service.bindings_value service.claims_value b event recorded) _
          receipt h in
      let b1' = set_upstream_verified_model_id b1 m in
      let (b2, p2, h2) = bind-done (response_same b1' (text_eq r.body wire)) _ receipt h1 in
      let ((b3, hashes), p3, h3) =
        bind-done (add_response_returned service.sha256 b2 client_body wire) _ receipt h2 in
      let (_, _, _, _, _, _, _, _, _, _, ev, _, _, _) =
        finalize-signed signing.hex b3 signing.keys signing.default_receipt_key_id receipt h3 in
      ap types ev
      ∙ add_response_returned-types service.from_slice service.sha256 signing.hex signing.keys
          signing.default_receipt_key_id 0 b2 client_body wire (b3, hashes) p3
      ∙ ap (λ ts. ts ++ response_returned ∷ [])
          (response_same-types b1' b2 (text_eq r.body wire) p2
            ∙ ap (λ ts. ts ++ change (text_eq r.body wire))
                (set_model_id-types _ b1.events
                  ∙ append_upstream_verified-types service.bindings_value service.claims_value b b1
                      event recorded p1))

  -- What a receipt that is answered was ended from.
  abbrev Ended :
      ReceiptBuilder → UpstreamVerifiedEvent → UpstreamResponse → Bytes → ForwardResult → Type 0
  Ended b event r wire f =
      (recorded : Option (Text × SessionClaims)) × (ended service signing req direct commit b event
          recorded r (client_response service signing req direct commit r).body wire
        ≡ done f.receipt)
      × (f.upstream_body ≡ wire)

  answered_with-done :
      (client : ClientResponse) (wire : Bytes) (st : DirectState W S) (m : Built Receipt)
      (f : ForwardResult)
      → (answered_with service signing req direct commit client wire st m).1 ≡ served f
      → (m ≡ done f.receipt) × (f.upstream_body ≡ wire)
  answered_with-done client wire st (refused e) f h = absurd (cc h)
  answered_with-done client wire st (done receipt) f h =
      let made : ForwardResult = record {
        receipt = receipt;
        upstream_status = client.status;
        upstream_body = wire;
        upstream_headers = client.headers;
      } in
      let e : made ≡ f = served_inj made f h in
      (
        ap (λ (x : ForwardResult). done x.receipt) e,
        sym (ap (λ (x : ForwardResult). x.upstream_body) e),
      )

  with_sealed-Ended :
      (b : ReceiptBuilder) (event : UpstreamVerifiedEvent) (r : UpstreamResponse) (wire : Bytes)
      (st : DirectState W S) (sealed : Served (List SealedSession)) (f : ForwardResult)
      → (with_sealed service signing req direct commit b event r wire st sealed).1 ≡ served f
      → Ended b event r wire f
  with_sealed-Ended b event r wire st (failing e) f h = absurd (cc h)
  with_sealed-Ended b event r wire st (served sealed) f h =
      let client = client_response service signing req direct commit r in
      let recorded = cite_served_session sealed r.served_instance_id in
      let (p, q) =
        answered_with-done client wire st
          (ended service signing req direct commit b event recorded r client.body wire) f h in
      (recorded, p, q)

  with_begun-Ended :
      (event : UpstreamVerifiedEvent) (r : UpstreamResponse) (wire : Bytes) (st : DirectState W S)
      (m : Built ReceiptBuilder) (b : ReceiptBuilder) (f : ForwardResult)
      → m ≡ done b
      → (with_begun service signing req direct commit event r wire st m).1 ≡ served f
      → Ended b event r wire f
  with_begun-Ended event r wire st (refused e) b f eq h = absurd (cc eq)
  with_begun-Ended event r wire st (done b') b f eq h =
      let same : b' ≡ b = cc eq in
      subst (λ x. Ended x event r wire f) same (with_sealed-Ended b' event r wire _ _ f h)

  with_wire-types :
      (prepared : PreparedUpstreamRequest) (event : UpstreamVerifiedEvent) (r : UpstreamResponse)
      (st : DirectState W S) (m : Served Bytes) (f : ForwardResult)
      → (with_wire service signing req direct commit prepared event r st m).1 ≡ served f
      → types f.receipt.event_log
        ≡ ((begun_types direct.target_route_id (text_eq req.received_body prepared.request.body)
              ++ upstream_verified ∷ [])
            ++ change (text_eq r.body f.upstream_body))
          ++ response_returned ∷ []
  with_wire-types prepared event r st (failing e) f h = absurd (cc h)
  with_wire-types prepared event r st (served wire) f h =
      let client_body = (client_response service signing req direct commit r).body in
      let (b, e, t) =
        begin-types direct.target_route_id (text_eq req.received_body prepared.request.body)
          client_body prepared.request.body in
      let (recorded, p, q) =
        with_begun-Ended event r wire st
          (begun service signing req direct commit client_body prepared.request.body) b f e h in
      ended-types b event recorded r client_body wire f.receipt p
      ∙ ap
          (λ ts.
            ((ts ++ upstream_verified ∷ []) ++ change (text_eq r.body wire))
            ++ response_returned ∷ [])
          t
      ∙ ap
          (λ x.
            ((begun_types direct.target_route_id (text_eq req.received_body prepared.request.body)
                ++ upstream_verified ∷ [])
              ++ change (text_eq r.body x))
            ++ response_returned ∷ [])
          (sym q)

  -- If the response of an upstream is answered to the client, then the receipt has these events and no
  -- others: the request received; where the request names its route, what the middleware forwarded and
  -- that route; the request forwarded, and its modification exactly if its bytes differ; the verified
  -- upstream; the modification of the response exactly if the bytes that the client gets, encrypted or
  -- told of an image, are not those that the upstream sent; and the response returned.
  pub receipted-types :
      (prepared : PreparedUpstreamRequest) (event : UpstreamVerifiedEvent) (r : UpstreamResponse)
      (st : DirectState W S) (f : ForwardResult)
      → (receipted service signing req direct commit prepared event r st).1 ≡ served f
      → types f.receipt.event_log
        ≡ ((begun_types direct.target_route_id (text_eq req.received_body prepared.request.body)
              ++ upstream_verified ∷ [])
            ++ change (text_eq r.body f.upstream_body))
          ++ response_returned ∷ []
  unfolding receipted
  receipted-types prepared event r st f h =
      with_wire-types prepared event r st
        (encrypted direct.e2ee (client_response service signing req direct commit r).body) f h
