-- ===== src/Service/Finalize.antt =====
-- The end of a request's receipt: `finalize_middleware_receipt` of aggregator/service/middleware.rs,
-- `is_sse_content_type` of e2ee_crypto.rs and `store_receipt` of forward.rs. The encryption of a
-- response, the key provider and the hashes are parameters.
pub mod Disclosed
use phala_llm_router.Base.{
  ℕ, ◌==◌, Bool, true, false, ◌&&◌, ◌||◌, not, List, [], ◌∷◌, Option, none, some, Text, codes,
  text_eq, if◌then◌else◌, saturating_add,
}
use phala_llm_router.Canonical.{Bytes, sha256_hex}
use phala_llm_router.Json.{Value}
use phala_llm_router.Receipts.{Receipt, ReceiptOwner, ReceiptStore, put}
use phala_llm_router.Receipts.Builder.{
  ReceiptBuilder, set_chat_id, add_transparency_event, response_modified, add_response_returned,
  finalize,
}
use phala_llm_router.Receipts.Types.{Built, done, KeyProvider}
use phala_llm_router.Service.Claims.{eq_ignore_ascii_case}
use phala_llm_router.Service.Errors.{Served, served, failing, ◌>>=◌, of_built}
use phala_llm_router.Service.Failover.{MiddlewareReceiptDraft}
use phala_llm_router.Service.Failover.Prefix.{extract_chat_id}
use phala_llm_router.Service.SseChatId.{SseChatIdParser, new_parser, observe}
use phala_llm_router.Upstream.{is_whitespace}

-- `value.split(';').next()`
unfoldable pub before_semicolon : Text → Text
before_semicolon [] = []
before_semicolon (c ∷ s) = let rest = before_semicolon s in if c == 59 then [] else c ∷ rest

unfoldable pub trim_left : Text → Text
unfolding is_whitespace
trim_left [] = []
trim_left (c ∷ s) = let rest = trim_left s in if is_whitespace c then rest else c ∷ s

abbrev unless_blank : ℕ → Text → Text
unless_blank c [] = if is_whitespace c then [] else c ∷ []
unless_blank c (d ∷ s) = c ∷ d ∷ s

unfoldable pub trim_right : Text → Text
unfolding is_whitespace
trim_right [] = []
trim_right (c ∷ s) = unless_blank c (trim_right s)

unfoldable pub is_sse_content_type : Option Text → Bool
unfolding before_semicolon trim_left trim_right eq_ignore_ascii_case
is_sse_content_type none = false
is_sse_content_type (some value) =
    eq_ignore_ascii_case (trim_right (trim_left (before_semicolon value)))
      (codes "text/event-stream")

-- `if let Some(chat_id) = …`
abbrev pub with_chat_id : ReceiptBuilder → Option Text → ReceiptBuilder
with_chat_id b none = b
with_chat_id b (some id) = set_chat_id b (some id)

-- What encrypts a response for the client, if something does: of a stream of events, and of a body.
abbrev pub Encryption : Type 0
Encryption = Option (Bool → Bytes → Served Bytes)

abbrev pub wire_of : Encryption → Bool → Bytes → Served Bytes
wire_of none is_sse body = served body
wire_of (some encrypt) is_sse body = encrypt is_sse body

module _ (from_slice : Bytes → Option Value) (sha256 : Bytes → Text) (hex : Bytes → Text)
    (keys : KeyProvider) (default_receipt_key_id : Text) (receipt_ttl_seconds : ℕ) where
  abbrev pub named : Bool → ReceiptBuilder → Bytes → ReceiptBuilder
  named true b body = with_chat_id b (SseChatIdParser.chat_id (observe from_slice new_parser body))
  named false b body = with_chat_id b (extract_chat_id from_slice body)

  -- Whether what the client gets is what the provider sent.
  abbrev pub unmodified : MiddlewareReceiptDraft → Bytes → Bytes → Bool
  unmodified draft body wire =
      text_eq draft.provider_response_hash (sha256_hex sha256 body) && text_eq wire body

  abbrev pub disclosed : ReceiptBuilder → Bool → Built ReceiptBuilder
  disclosed b true = done b
  disclosed b false = add_transparency_event b response_modified

  -- The receipt and the body on the wire.
  unfoldable pub finalized_receipt :
      MiddlewareReceiptDraft → Bytes → Option Text → Encryption → Served (Receipt × Bytes)
  unfolding is_sse_content_type observe extract_chat_id text_eq add_transparency_event
      add_response_returned finalize
  finalized_receipt draft body content_type e2ee = do
    let is_sse = is_sse_content_type content_type
    wire ← wire_of e2ee is_sse body
    b ← of_built (disclosed (named is_sse draft.builder body) (unmodified draft body wire))
    (b', _) ← of_built (add_response_returned sha256 b body wire)
    receipt ← of_built (finalize hex b' keys default_receipt_key_id)
    served (receipt, wire)

  unfoldable pub store_receipt : ReceiptStore → ℕ → Receipt → Option ReceiptOwner → ReceiptStore
  unfolding put
  store_receipt st now receipt requester =
      put st receipt requester now (saturating_add now receipt_ttl_seconds)

  abbrev stored :
      ReceiptStore
      → ℕ
      → Option ReceiptOwner
      → Served (Receipt × Bytes)
      → ReceiptStore × Served (Receipt × Bytes)
  stored st now requester (failing e) = (st, failing e)
  stored st now requester (served (receipt, wire)) =
      (store_receipt st now receipt requester, served (receipt, wire))

  unfoldable pub finalize_middleware_receipt :
      ReceiptStore
      → ℕ
      → MiddlewareReceiptDraft
      → Bytes
      → Option Text
      → Option ReceiptOwner
      → Encryption
      → ReceiptStore × Served (Receipt × Bytes)
  unfolding finalized_receipt store_receipt
  finalize_middleware_receipt st now draft body content_type requester e2ee =
      stored st now requester (finalized_receipt draft body content_type e2ee)
