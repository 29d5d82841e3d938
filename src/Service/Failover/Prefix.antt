-- ===== src/Service/Failover/Prefix.antt =====
-- The beginning of a request's receipt: `build_middleware_receipt_prefix` of
-- aggregator/service/middleware.rs, and `extract_chat_id` and `accepted_response_model` of helpers.rs.
use phala_llm_router.Base.{
  ℕ, ◌==◌, leb, Bool, true, false, ◌&&◌, List, [], ◌∷◌, Option, none, Text, codes, text_eq,
  if◌then◌else◌,
}
use phala_llm_router.Canonical.{Bytes}
use phala_llm_router.Json.{Value, get_key, as_str}
use phala_llm_router.Receipts.Builder.{
  ReceiptBuilder, add_body, add_route_selected, add_transparency_event, request_modified,
}
use phala_llm_router.Receipts.Types.{
  Built, done, ◌>>=◌, UpstreamVerifiedEvent, request_received, middleware_forwarded,
  request_forwarded,
}
use phala_llm_router.Service.Sessions.{append_upstream_verified}
use phala_llm_router.Session.{ChannelBinding, SessionClaims}
use phala_llm_router.Session.Log.{is_space}
use phala_llm_router.Upstream.Prepare.{and_then}

pub record MiddlewareReceiptInputs : Type 0 where
  pub receipt_id : Text
  pub chat_id : Option Text
  pub model : Option Text
  pub served_at : ℕ
  pub endpoint_path : Text
  pub received_body : Bytes
  pub middleware_forwarded_body : Bytes
  pub selected_route_id : Text
  pub forwarded_body : Bytes
  pub recorded_event : UpstreamVerifiedEvent
  pub recorded : Option (Text × SessionClaims)

-- `ReceiptBuilder::new`, of the inputs.
abbrev pub new_builder : Text → Text → MiddlewareReceiptInputs → ReceiptBuilder
new_builder workload_id workload_keyset_digest inputs = record {
  receipt_id = inputs.receipt_id;
  chat_id = inputs.chat_id;
  model = inputs.model;
  workload_id = workload_id;
  workload_keyset_digest = workload_keyset_digest;
  endpoint = inputs.endpoint_path;
  method = codes "POST";
  served_at = inputs.served_at;
  events = [];
  next_seq = 0;
}

abbrev pub modified : ReceiptBuilder → Bool → Built ReceiptBuilder
modified b true = done b
modified b false = add_transparency_event b request_modified

unfoldable pub build_middleware_receipt_prefix :
    (Bytes → Text)
    → (List ChannelBinding → Value)
    → (SessionClaims → Option Value)
    → Text
    → Text
    → MiddlewareReceiptInputs
    → Built ReceiptBuilder
unfolding add_body add_route_selected add_transparency_event append_upstream_verified text_eq
build_middleware_receipt_prefix sha256 bindings claims workload_id workload_keyset_digest inputs =
    do
      (b1, _) ←
          add_body sha256 request_received (new_builder workload_id workload_keyset_digest inputs)
            inputs.received_body
      (b2, _) ← add_body sha256 middleware_forwarded b1 inputs.middleware_forwarded_body
      b3 ← add_route_selected b2 inputs.selected_route_id
      (b4, _) ← add_body sha256 request_forwarded b3 inputs.forwarded_body
      b5 ← modified b4 (text_eq inputs.received_body inputs.forwarded_body)
      append_upstream_verified bindings claims b5 inputs.recorded_event inputs.recorded

-- Whether the first byte that is not whitespace is `{`.
unfoldable pub opens_object : Bytes → Bool
unfolding is_space
opens_object [] = false
opens_object (c ∷ body) = let rest = opens_object body in if is_space c then rest else c == 123

module _ (from_slice : Bytes → Option Value) where
  abbrev text_of : Text → Bytes → Option Text
  text_of key body = and_then (and_then (from_slice body) (get_key key)) as_str

  unfoldable pub extract_chat_id : Bytes → Option Text
  unfolding opens_object get_key as_str
  extract_chat_id body = if opens_object body then text_of (codes "id") body else none

  unfoldable pub accepted_response_model : ℕ → Bytes → Option Text
  unfolding opens_object get_key as_str
  accepted_response_model status_code body =
      if leb 200 status_code && leb status_code 299 && opens_object body
      then text_of (codes "model") body
      else none
