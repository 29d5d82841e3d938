-- ===== src/Receipts/Builder.antt =====
-- `ReceiptBuilder` of aci/receipt.rs: the event log of a request, and the receipt made of it. What the
-- code takes from serde, SHA-256 and the key provider are parameters.

pub mod Log
pub mod Calls
pub mod Events
pub mod Finalize
use phala_llm_router.Receipts.Types.{
  Built, KeyError, KeyProvider, ReceiptError, UpstreamVerifiedEvent, VerificationResult, canonical,
  crypto, done, empty_receipt, event_fields, failed, first_event_must_be_request_received, key,
  middleware_forwarded, missing_required_event, quote, refused, request_forwarded, request_received,
  reserved_event_type, reserved_field, response_received, response_returned, result_text,
  route_selected, unknown_e2ee_key_id, unknown_receipt_key_id, unsupported_algo, upstream_verified,
  verified, ◌>>=◌,
}
use phala_llm_router.Base.{
  ℕ, ◌+◌, ◌%◌, ◌==◌, Bool, true, false, ◌&&◌, ◌||◌, not, List, [], ◌∷◌, ◌++◌, Option, none, some,
  Text, codes, text_eq, if◌then◌else◌, u64_mod, or_default,
}
use phala_llm_router.Canonical.{Bytes, Result, ok, err, CanonicalError, canonicalize, sha256_hex}
use phala_llm_router.Json.{
  Value, Fields, null, bool, string, array, object, end, field, insert_field, has_key, fields_of,
  text_or_null,
}
use phala_llm_router.Keyset.{KeyedPublicKey}
use phala_llm_router.Receipts.{Receipt, ReceiptEvent, ReceiptSignature}
use phala_llm_router.Receipts.Tree.{receipt_value}
use phala_llm_router.Session.{ChannelBinding}

pub record ReceiptBuilder : Type 0 where
  pub receipt_id : Text
  pub chat_id : Option Text
  pub model : Option Text
  pub workload_id : Text
  pub workload_keyset_digest : Text
  pub endpoint : Text
  pub method : Text
  pub served_at : ℕ
  pub events : List ReceiptEvent
  pub next_seq : ℕ

-- The first of the keys "seq" and "type" among an object's keys, in their order.
unfoldable pub reserved_key : Fields → Option Text
reserved_key end = none
reserved_key (field k v fs) =
    let rest = reserved_key fs in
    if text_eq k (codes "seq") || text_eq k (codes "type") then some k else rest

-- `append`
unfoldable pub append : ReceiptBuilder → Text → Value → Built ReceiptBuilder
unfolding reserved_key
append b event_type fields =
    if b.next_seq == 0 && not (text_eq event_type request_received)
    then refused (first_event_must_be_request_received event_type)
    else elim (reserved_key (fields_of fields)) [
      | some k ↦ refused (reserved_field k)
      | none ↦ done (record b {
        events =
            b.events ++ record { seq = b.next_seq; event_type = event_type; fields = fields } ∷ [];
        next_seq = (b.next_seq + 1) % u64_mod;
      })
    ]

abbrev pub hash_field : Text → Text → Value
hash_field k digest = object (field k (string digest) end)

module _ (sha256 : Bytes → Text) where
  -- `add_request_received`, `add_request_forwarded`, `add_middleware_forwarded`
  unfoldable pub add_body : Text → ReceiptBuilder → Bytes → Built (ReceiptBuilder × Text)
  unfolding append
  add_body event_type b body = do
    b' ← append b event_type (hash_field (codes "body_hash") (sha256_hex sha256 body))
    done (b', sha256_hex sha256 body)

unfoldable pub add_response_received_hash : ReceiptBuilder → Text → Built ReceiptBuilder
unfolding append
add_response_received_hash b hash =
    append b response_received (hash_field (codes "cleartext_hash") hash)

abbrev pub returned_hashes : Text → Text → Value
returned_hashes cleartext_hash wire_hash = object (
    field (codes "cleartext_hash") (string cleartext_hash)
      (field (codes "wire_hash") (string wire_hash) end))

unfoldable pub add_response_returned_hashes : ReceiptBuilder → Text → Text → Built ReceiptBuilder
unfolding append
add_response_returned_hashes b cleartext_hash wire_hash =
    append b response_returned (returned_hashes cleartext_hash wire_hash)

module _ (sha256 : Bytes → Text) where
  unfoldable pub add_response_received : ReceiptBuilder → Bytes → Built (ReceiptBuilder × Text)
  unfolding add_response_received_hash
  add_response_received b cleartext = do
    b' ← add_response_received_hash b (sha256_hex sha256 cleartext)
    done (b', sha256_hex sha256 cleartext)

  unfoldable pub add_response_returned :
      ReceiptBuilder → Bytes → Bytes → Built (ReceiptBuilder × (Text × Text))
  unfolding add_response_returned_hashes
  add_response_returned b cleartext wire = do
    b' ← add_response_returned_hashes b (sha256_hex sha256 cleartext) (sha256_hex sha256 wire)
    done (b', (sha256_hex sha256 cleartext, sha256_hex sha256 wire))

unfoldable pub add_route_selected : ReceiptBuilder → Text → Built ReceiptBuilder
unfolding append
add_route_selected b target = append b route_selected (hash_field (codes "target_route_id") target)

-- `add_upstream_verified`, and with a session's id and claims `add_upstream_verified_with_session`
unfoldable pub add_upstream_verified :
    (List ChannelBinding → Value) → ReceiptBuilder → UpstreamVerifiedEvent → Built ReceiptBuilder
unfolding append
add_upstream_verified bindings b e = append b upstream_verified (object (event_fields bindings e))

abbrev pub session_fields :
    (List ChannelBinding → Value) → UpstreamVerifiedEvent → Text → Option Value → Value
session_fields bindings e session_id claims = object (
    insert_field (codes "claims") (or_default claims null)
      (insert_field (codes "session_id") (string session_id) (event_fields bindings e)))

unfoldable pub add_upstream_verified_with_session :
    (List ChannelBinding → Value)
    → ReceiptBuilder
    → UpstreamVerifiedEvent
    → Text
    → Option Value
    → Built ReceiptBuilder
unfolding append
add_upstream_verified_with_session bindings b e session_id claims =
    append b upstream_verified (session_fields bindings e session_id claims)

pub data TransparencyEventKind : Type 0 where
  request_modified response_modified : TransparencyEventKind

abbrev pub kind_type : TransparencyEventKind → Text
kind_type request_modified = codes "transparency.request_modified"
kind_type response_modified = codes "transparency.response_modified"

unfoldable pub add_transparency_event :
    ReceiptBuilder → TransparencyEventKind → Built ReceiptBuilder
unfolding append
add_transparency_event b kind = append b (kind_type kind) (object end)

unfoldable pub is_reserved_type : Text → Bool
is_reserved_type t =
    text_eq t request_received
    || text_eq t request_forwarded
    || text_eq t upstream_verified
    || text_eq t response_received
    || text_eq t response_returned

unfoldable pub add_extension_event : ReceiptBuilder → Text → Value → Built ReceiptBuilder
unfolding append is_reserved_type
add_extension_event b event_type fields =
    if is_reserved_type event_type
    then refused (reserved_event_type event_type)
    else append b event_type fields

abbrev pub set_model : Text → Value → Value
set_model m (object fs) = object (insert_field (codes "model_id") (string m) fs)
set_model m v = v

-- The loop of `set_upstream_verified_model_id`: the first such event.
unfoldable pub set_model_id : Text → List ReceiptEvent → List ReceiptEvent
unfolding insert_field
set_model_id m [] = []
set_model_id m (e ∷ es) =
    let rest = set_model_id m es in
    if text_eq e.event_type upstream_verified
    then record e { fields = set_model m e.fields } ∷ es
    else e ∷ rest

unfoldable pub set_upstream_verified_model_id : ReceiptBuilder → Option Text → ReceiptBuilder
unfolding set_model_id
set_upstream_verified_model_id b m = record b {
  events = set_model_id (or_default m (codes "unknown")) b.events;
}

-- `set_chat_id`
abbrev pub set_chat_id : ReceiptBuilder → Option Text → ReceiptBuilder
set_chat_id b chat_id = record b { chat_id = chat_id }

-- `new`, the record of a request with no events
abbrev pub fresh : ReceiptBuilder → ReceiptBuilder
fresh b = record b { events = []; next_seq = 0 }

-- `present.contains(required)`
unfoldable pub has_event : Text → List ReceiptEvent → Bool
has_event t [] = false
has_event t (e ∷ es) = text_eq e.event_type t || has_event t es

abbrev pub require : Text → List ReceiptEvent → Built (Unit {0})
require t es = if has_event t es then done tt else refused (missing_required_event t)

abbrev pub not_empty : List ReceiptEvent → Built (Unit {0})
not_empty [] = refused empty_receipt
not_empty (e ∷ es) = done tt

-- `keys.receipt_keys().into_iter().find(|k| k.key_id == key_id)`
unfoldable pub find_key : Text → List KeyedPublicKey → Built KeyedPublicKey
find_key key_id [] = refused (key (unknown_receipt_key_id key_id))
find_key key_id (k ∷ ks) =
    let rest = find_key key_id ks in if text_eq k.key_id key_id then done k else rest

abbrev pub from_canonical {ℓ} : {A : Type ℓ} → Result A → Built A
from_canonical (ok a) = done a
from_canonical (err e) = refused (canonical e)

unfoldable pub canonical_bytes_for_signing : Receipt → Built Bytes
unfolding canonicalize receipt_value
canonical_bytes_for_signing r = from_canonical (canonicalize (receipt_value r false))

abbrev pub unsigned : ReceiptBuilder → KeyedPublicKey → Text → Receipt
unsigned b k value_hex = record {
  api_version = codes "aci/1";
  receipt_id = b.receipt_id;
  chat_id = b.chat_id;
  model = b.model;
  workload_id = b.workload_id;
  workload_keyset_digest = b.workload_keyset_digest;
  endpoint = b.endpoint;
  method = b.method;
  served_at = b.served_at;
  event_log = b.events;
  signature = record { algo = k.algo; key_id = k.key_id; value_hex = value_hex };
}

-- `finalize`; the first argument is `hex::encode`.
unfoldable pub finalize : (Bytes → Text) → ReceiptBuilder → KeyProvider → Text → Built Receipt
unfolding find_key canonical_bytes_for_signing has_event
finalize hex b keys key_id = do
  _ ← not_empty b.events
  _ ← require request_received b.events
  _ ← require request_forwarded b.events
  _ ← require response_returned b.events
  k ← find_key key_id keys.receipt_keys
  bytes ← canonical_bytes_for_signing (unsigned b k [])
  sig ← keys.sign_receipt k.key_id bytes
  done (unsigned b k (hex sig))
