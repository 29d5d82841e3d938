-- ===== src/Service/Failover/Order.antt =====
-- The events of a receipt before its response, in their order.
use phala_llm_router.Base.{
  Bool, true, false, List, [], ◌∷◌, ◌++◌, Option, none, some, Text, codes, text_eq, text_discrete,
  ℕ_discrete, ◌≡◌, refl, if◌then◌else◌,
}
use phala_llm_router.Canonical.{Bytes}
use phala_llm_router.Json.{Value, insert_field}
use phala_llm_router.Receipts.{ReceiptEvent}
use phala_llm_router.Receipts.Builder.{
  ReceiptBuilder, add_body, add_route_selected, add_transparency_event, append, reserved_key,
  add_upstream_verified, add_upstream_verified_with_session,
}
use phala_llm_router.Receipts.Types.{
  Built, done, ◌>>=◌, event_fields, request_received, middleware_forwarded, route_selected,
  request_forwarded, upstream_verified,
}
use phala_llm_router.Service.Failover.Prefix.{
  MiddlewareReceiptInputs, build_middleware_receipt_prefix, modified, new_builder,
}
use phala_llm_router.Service.Sessions.{append_upstream_verified}
use phala_llm_router.Session.{ChannelBinding, SessionClaims}

abbrev pub types : List ReceiptEvent → List Text
types [] = []
types (e ∷ es) = e.event_type ∷ types es

-- The events that a request has before its response; one of them says that the body was changed.
abbrev pub prefix_types : Bool → List Text
prefix_types same =
    request_received
      ∷ middleware_forwarded
      ∷ route_selected
      ∷ request_forwarded
      ∷ (if same then [] else codes "transparency.request_modified" ∷ [])
    ++ upstream_verified ∷ []

-- A builder with these events.
abbrev Has : List Text → Built ReceiptBuilder → Type 0
Has ts r = (b : ReceiptBuilder) × (r ≡ done b) × (types b.events ≡ ts)

module _ (sha256 : Bytes → Text) (bindings : List ChannelBinding → Value)
    (claims : SessionClaims → Option Value) (workload_id workload_keyset_digest : Text)
    (inputs : MiddlewareReceiptInputs) where
  abbrev build : Bool → Option (Text × SessionClaims) → Built ReceiptBuilder
  build same recorded = do
    (b1, _) ←
        add_body sha256 request_received (new_builder workload_id workload_keyset_digest inputs)
          inputs.received_body
    (b2, _) ← add_body sha256 middleware_forwarded b1 inputs.middleware_forwarded_body
    b3 ← add_route_selected b2 inputs.selected_route_id
    (b4, _) ← add_body sha256 request_forwarded b3 inputs.forwarded_body
    b5 ← modified b4 same
    append_upstream_verified bindings claims b5 inputs.recorded_event recorded

  build-Has :
      (same : Bool) (recorded : Option (Text × SessionClaims))
      → Has (prefix_types same) (build same recorded)
  unfolding add_body add_route_selected add_transparency_event append_upstream_verified append
      reserved_key text_eq text_discrete ℕ_discrete add_upstream_verified
      add_upstream_verified_with_session event_fields insert_field
  build-Has true none = (_, refl, refl)
  build-Has true (some (id, c)) = (_, refl, refl)
  build-Has false none = (_, refl, refl)
  build-Has false (some (id, c)) = (_, refl, refl)

  -- The receipt of a forwarded request is always begun, whatever the bodies, the route, the event and
  -- the session: its events are, in this order, the request received, the one forwarded by the
  -- middleware, the route selected, the request forwarded, its modification exactly if the bytes
  -- received and forwarded differ, and the verified upstream.
  pub build_middleware_receipt_prefix-types :
      (b : ReceiptBuilder) × (build_middleware_receipt_prefix sha256 bindings claims workload_id
          workload_keyset_digest inputs
        ≡ done b)
      × (types b.events ≡ prefix_types (text_eq inputs.received_body inputs.forwarded_body))
  unfolding build_middleware_receipt_prefix
  build_middleware_receipt_prefix-types =
      build-Has (text_eq inputs.received_body inputs.forwarded_body) inputs.recorded
