-- ===== src/Receipts/Types.antt =====
-- The event types, the errors and the key provider of aci/receipt.rs and aci/keys.rs, and the event
-- of a verification. The key provider's signatures are a parameter.
use phala_llm_router.Base.{Bool, List, Option, Text, codes, or_default}
use phala_llm_router.Canonical.{Bytes, CanonicalError}
use phala_llm_router.Json.{Value, Fields, null, bool, string, end, field, text_or_null}
use phala_llm_router.Keyset.{KeyedPublicKey}
use phala_llm_router.Session.{ChannelBinding}

abbrev pub request_received : Text
request_received = codes "request.received"

abbrev pub request_forwarded : Text
request_forwarded = codes "request.forwarded"

abbrev pub middleware_forwarded : Text
middleware_forwarded = codes "middleware.forwarded"

abbrev pub route_selected : Text
route_selected = codes "route.selected"

abbrev pub upstream_verified : Text
upstream_verified = codes "upstream.verified"

abbrev pub response_received : Text
response_received = codes "response.received"

abbrev pub response_returned : Text
response_returned = codes "response.returned"

pub data KeyError : Type 0 where
  unknown_receipt_key_id unknown_e2ee_key_id unsupported_algo crypto quote : Text → KeyError

pub data ReceiptError : Type 0 where
  first_event_must_be_request_received missing_required_event reserved_field : Text → ReceiptError
  empty_receipt : ReceiptError
  reserved_event_type : Text → ReceiptError
  canonical : CanonicalError → ReceiptError
  key : KeyError → ReceiptError

pub data Built {ℓ} (A : Type ℓ) : Type ℓ where
  done : A → Built A
  refused : ReceiptError → Built A

infixl 5 ◌>>=◌
abbrev pub ◌>>=◌ {ℓ κ} : {A : Type ℓ} {B : Type κ} → Built A → (A → Built B) → Built B
done a >>= f = f a
refused e >>= f = refused e

-- Of `KeyProvider`, what a receipt needs: the keys, and a signature under one of them.
pub record KeyProvider : Type 0 where
  pub receipt_keys : List KeyedPublicKey
  pub sign_receipt : Text → Bytes → Built Bytes

pub data VerificationResult : Type 0 where
  verified failed : VerificationResult

abbrev pub result_text : VerificationResult → Text
result_text verified = codes "verified"
result_text failed = codes "failed"

pub record UpstreamVerifiedEvent : Type 0 where
  pub upstream_name : Text
  pub provider_type : Option Text
  pub model_id : Text
  pub url_origin : Option Text
  pub verifier_id : Text
  pub result : VerificationResult
  pub required : Bool
  pub reason : Option Text
  pub evidence : Option Value
  pub channel_bindings : List ChannelBinding
  pub provider_claims : Option Value

-- `to_fields`; the first argument is what serde makes of the channel bindings.
unfoldable pub event_fields : (List ChannelBinding → Value) → UpstreamVerifiedEvent → Fields
event_fields bindings e = field (codes "upstream_name") (string e.upstream_name) (
    field (codes "provider_type") (text_or_null e.provider_type) (
      field (codes "model_id") (string e.model_id) (
        field (codes "url_origin") (text_or_null e.url_origin) (
          field (codes "verifier_id") (string e.verifier_id) (
            field (codes "result") (string (result_text e.result)) (
              field (codes "required") (bool e.required) (
                field (codes "reason") (text_or_null e.reason) (
                  field (codes "channel_bindings") (bindings e.channel_bindings) (
                    field (codes "provider_claims") (or_default e.provider_claims null) end)))))))))
