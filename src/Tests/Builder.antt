-- ===== src/Tests/Builder.antt =====
-- A receipt that is built and signed.
use phala_llm_router.Keyset.{KeyedPublicKey}
use phala_llm_router.Base.{
  true, List, [], ◌∷◌, none, Text, codes, text_eq, text_discrete, ℕ_discrete, ◌≡◌, refl, arith,
}
use phala_llm_router.Canonical.{Bytes, utf16_compare}
use phala_llm_router.Json.{null, object, end}
use phala_llm_router.Receipts.{Receipt, ReceiptEvent}
use phala_llm_router.Receipts.Builder.{
  fresh, ReceiptBuilder, has_event, find_key, finalize, unsigned, canonical_bytes_for_signing,
}
use phala_llm_router.Receipts.Builder.Calls.{
  Call, adds_request_forwarded, adds_request_received, adds_response_returned_hashes, run,
}
use phala_llm_router.Receipts.Builder.Events.{run-ShownFrom, ShownFrom}
use phala_llm_router.Receipts.Builder.Finalize.{IsKeyOf, finalize-signed}
use phala_llm_router.Receipts.Builder.Log.{IsLog}
use phala_llm_router.Receipts.Types.{
  KeyProvider, done, request_received, request_forwarded, response_returned,
}

abbrev pub event : Text → ReceiptEvent
event t = record { seq = 0; event_type = t; fields = object end }

abbrev pub builder : ReceiptBuilder
builder = record {
  receipt_id = codes "r";
  chat_id = none;
  model = none;
  workload_id = codes "w";
  workload_keyset_digest = codes "k";
  endpoint = codes "/v1/chat/completions";
  method = codes "POST";
  served_at = 1;
  events = event request_received ∷ event request_forwarded ∷ event response_returned ∷ [];
  next_seq = 3;
}

abbrev calls : List Call
calls =
    adds_request_forwarded (codes "b")
    ∷ adds_request_received (codes "b")
    ∷ adds_response_returned_hashes (codes "h") (codes "h")
    ∷ []

run-ShownFrom_example :
    IsLog (run (λ b. b) (λ cs. null) (fresh builder) calls)
    × ShownFrom 0 (run (λ b. b) (λ cs. null) (fresh builder) calls).events
run-ShownFrom_example = run-ShownFrom (λ b. b) (λ cs. null) calls builder (omega arith)

-- Every receipt is signed with the same byte, and a byte is its own hex text.
abbrev pub keys : KeyProvider
keys = record {
  receipt_keys =
      record { key_id = codes "1"; algo = codes "ed25519"; public_key_hex = codes "00" } ∷ [];
  sign_receipt = λ id bytes. done (codes "s");
}

abbrev pub receipt : Receipt
receipt =
    unsigned builder
      (record { key_id = codes "1"; algo = codes "ed25519"; public_key_hex = codes "00" })
      (codes "s")

receipt_finalized : finalize (λ b. b) builder keys (codes "1") ≡ done receipt
unfolding finalize find_key has_event canonical_bytes_for_signing text_eq text_discrete ℕ_discrete
    utf16_compare
receipt_finalized = refl

finalize-signed_example :
    (k : KeyedPublicKey) × (bytes : Bytes) × (sig : Bytes) × IsKeyOf keys.receipt_keys k
    × (k.key_id ≡ codes "1")
    × (receipt.signature.algo ≡ k.algo)
    × (canonical_bytes_for_signing receipt ≡ done bytes)
    × (keys.sign_receipt (codes "1") bytes ≡ done sig)
    × (receipt.signature.value_hex ≡ sig)
    × (receipt.signature.key_id ≡ codes "1")
    × (receipt.event_log ≡ builder.events)
    × (has_event request_received receipt.event_log ≡ true)
    × (has_event request_forwarded receipt.event_log ≡ true)
    × (has_event response_returned receipt.event_log ≡ true)
finalize-signed_example =
    finalize-signed (λ b. b) builder keys (codes "1") receipt receipt_finalized
