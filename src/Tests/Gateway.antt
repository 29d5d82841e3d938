-- ===== src/Tests/Gateway.antt =====
-- A request that is forwarded to its candidates, and the receipt of one, at concrete inputs.
use phala_llm_router.Base.{
  ◌&&◌, ℕ, zero, suc, ◌*◌, true, List, [], ◌∷◌, ◌++◌, Option, none, some, length, codes, text_eq,
  text_discrete, ℕ_discrete, ◌≡◌, refl, ap, subst,
}
use phala_llm_router.Canonical.{utf16_compare, sha256_hex}
use phala_llm_router.ErrorResponse.Images.{classify_image_input_error}
use phala_llm_router.Json.{null, object, end}
use phala_llm_router.Receipts.{Receipt}
use phala_llm_router.Receipts.Types.{UpstreamVerifiedEvent, verified}
use phala_llm_router.Service.Errors.{transport, served}
use phala_llm_router.Service.Failover.{
  UpstreamStreamResponse, ForwardCandidate, ChatCompletionRequest, AciService, Gateway, Commit,
  MiddlewareForwardResult, committed, upstream_error, is_retryable_provider_status, upgrade_err,
  collect_upstream_body,
}
use phala_llm_router.Service.Failover.Attempts.{Accounts, forward_chat_completion-Accounts}
use phala_llm_router.Service.Failover.Bounded.{CountsBoth, forward_chat_completion-AtMost}
use phala_llm_router.Service.Failover.Answer.{should_fail_over}
use phala_llm_router.Service.Failover.Loop.{
  forward_chat_completion_for_middleware, try_candidates, try_candidate,
}
use phala_llm_router.Service.Forward.{
  Attempt, response, not_forwarded, UpstreamVerifier, UpstreamVerificationRequest,
  recorded_upstream_event, upstream_required_for_prepared, forward_with_binding_reverify,
  reverify_loop,
}
use phala_llm_router.Service.Forward.Gated.{AtMost}
use phala_llm_router.Service.Failover.Order.{
  build_middleware_receipt_prefix-types, types, prefix_types,
}
use phala_llm_router.Service.Failover.Prefix.{
  MiddlewareReceiptInputs, build_middleware_receipt_prefix, extract_chat_id, opens_object,
}
use phala_llm_router.Service.Finalize.{finalized_receipt, is_sse_content_type}
use phala_llm_router.Service.Finalize.Disclosed.{finalized_receipt-types, change}
use phala_llm_router.Service.SseChatId.{new_parser, observe, observe-append}
use phala_llm_router.Receipts.Builder.{
  ReceiptBuilder, unsigned, returned_hashes, append, reserved_key, add_transparency_event,
  add_response_returned, add_response_returned_hashes, finalize, find_key, has_event,
  canonical_bytes_for_signing,
}
use phala_llm_router.Receipts.Types.{done, response_returned}
use phala_llm_router.Service.Failover.{MiddlewareReceiptDraft, buffered}
use phala_llm_router.Service.Sessions.{in_memory}
use phala_llm_router.Session.Index.{SessionIndex, empty}
use phala_llm_router.Tests.Builder.{builder, keys}
use phala_llm_router.Tests.Data.{codecs}

abbrev pub event : UpstreamVerifiedEvent
event = record {
  upstream_name = codes "up";
  provider_type = none;
  model_id = codes "m";
  url_origin = none;
  verifier_id = codes "v";
  result = verified;
  required = true;
  reason = none;
  evidence = none;
  channel_bindings = [];
  provider_claims = none;
}

-- The first call fails, a later one is answered with status 404.
abbrev answers : ℕ → Attempt UpstreamStreamResponse
answers zero = not_forwarded (transport (codes "closed"))
answers (suc n) =
    response (record { status_code = 404; headers = []; body = []; served_instance_id = none })

abbrev verifier : UpstreamVerifier ℕ
verifier = record { verify = λ n q. (n, event); invalidate = λ n q. n }

-- The world counts the calls of the upstreams.
abbrev pub service : AciService ℕ SessionIndex
service = record {
  sha256 = λ b. b;
  from_slice = λ b. none;
  from_utf8 = λ b. none;
  from_str = λ t. none;
  bindings_value = λ bs. null;
  claims_value = λ c. none;
  codecs = codecs;
  backend = record {
    prepare = λ r. response (record {
      request = r;
      upstream_name = codes "up";
      url_origin = none;
      model_id = codes "m";
      route_id = r.target_route_id;
      is_tee = some true;
    });
    forward_verified_prepared = λ n prepared e. (suc n, not_forwarded (transport (codes "closed")));
    forward_stream_verified_prepared = λ n prepared e. (suc n, answers n);
  };
  upstream_verifier = some (record { verify = λ n q. (n, event); invalidate = λ n q. n });
  upstream_required_default = true;
  sessions = in_memory;
  receipt_ttl_seconds = 10;
  workload_id = codes "w";
  workload_keyset_digest = codes "k";
}

abbrev pub req : ChatCompletionRequest
req = record {
  user_model = none;
  user_tier = none;
  endpoint_path = codes "/v1/chat/completions";
  received_body = codes "{}";
  upstream_required = none;
  upstream_verification_event = none;
}

abbrev pub commit : Commit
commit = record { receipt_id = codes "r"; served_at = 5; now = 5 }

abbrev candidates : List ForwardCandidate
candidates =
    record { route_id = codes "a"; body = codes "{}" }
    ∷ record { route_id = codes "b"; body = codes "{}" }
    ∷ []

abbrev start : Gateway ℕ SessionIndex
start = record { world = 0; store = empty; reserved = none }

-- The world counts them exactly.
abbrev Calls : ℕ → ℕ → Type 0
Calls n w = ◌≡◌ {A = ℕ} n w

the_verifier :
    (v : UpstreamVerifier ℕ)
    → ◌≡◌ {A = Option (UpstreamVerifier ℕ)} (some verifier) (some v)
    → verifier ≡ v
the_verifier v e = cc e

verifies :
    (v : UpstreamVerifier ℕ)
    → service.upstream_verifier ≡ some v
    → (n w : ℕ) (q : UpstreamVerificationRequest) → Calls n w
    → Calls n (v.verify w q).0
verifies v e n w q i =
    subst (λ (x : UpstreamVerifier ℕ). Calls n (x.verify w q).0) (the_verifier v e) i

invalidates :
    (v : UpstreamVerifier ℕ)
    → service.upstream_verifier ≡ some v
    → (n w : ℕ) (q : UpstreamVerificationRequest) → Calls n w
    → Calls n (v.invalidate w q)
invalidates v e n w q i =
    subst (λ (x : UpstreamVerifier ℕ). Calls n (x.invalidate w q)) (the_verifier v e) i

counts : CountsBoth ℕ SessionIndex service req Calls
counts = record {
  buffered = record {
    verifies = verifies;
    invalidates = invalidates;
    forwards = λ n w prepared e p i. ap suc i;
  };
  streamed = record {
    verifies = verifies;
    invalidates = invalidates;
    forwards = λ n w prepared e p i. ap suc i;
  };
}

abbrev answer : MiddlewareForwardResult
answer = committed (upstream_error []) 404 [] (codes "b") ((codes "a", 502) ∷ [])

answered_b :
    (forward_chat_completion_for_middleware service req commit candidates true start).1
    ≡ served answer
unfolding forward_chat_completion_for_middleware try_candidates try_candidate
    recorded_upstream_event upstream_required_for_prepared forward_with_binding_reverify
    reverify_loop should_fail_over is_retryable_provider_status upgrade_err collect_upstream_body
    classify_image_input_error
answered_b = refl

forward_chat_completion-Accounts_example : Accounts candidates answer
forward_chat_completion-Accounts_example =
    forward_chat_completion-Accounts service req commit candidates true start answer answered_b

forward_chat_completion-AtMost_example :
    AtMost Calls
      (3 * length candidates)
      (forward_chat_completion_for_middleware service req commit candidates true start).0.world
forward_chat_completion-AtMost_example =
    forward_chat_completion-AtMost service req commit Calls counts candidates true start refl

-- The events of one chunk or of two, cut within the line.
observe-append_example :
    observe (λ b. none) new_parser (codes "data: {" ++ codes "}")
    ≡ observe (λ b. none) (observe (λ b. none) new_parser (codes "data: {")) (codes "}")
observe-append_example = observe-append (λ b. none) new_parser (codes "data: {") (codes "}")

abbrev inputs : MiddlewareReceiptInputs
inputs = record {
  receipt_id = codes "r";
  chat_id = none;
  model = none;
  served_at = 5;
  endpoint_path = codes "/v1/chat/completions";
  received_body = codes "{}";
  middleware_forwarded_body = codes "{}";
  selected_route_id = codes "a";
  forwarded_body = codes "{ }";
  recorded_event = event;
  recorded = none;
}

build_middleware_receipt_prefix-types_example :
    (b : ReceiptBuilder) × (build_middleware_receipt_prefix
        (λ b. b)
        (λ bs. null)
        (λ c. none)
        (codes "w")
        (codes "k")
        inputs
      ≡ done b)
    × (types b.events ≡ prefix_types (text_eq (codes "{}") (codes "{ }")))
build_middleware_receipt_prefix-types_example =
    build_middleware_receipt_prefix-types (λ b. b) (λ bs. null) (λ c. none) (codes "w") (codes "k")
      inputs

-- A draft whose provider sent other bytes than the client gets.
abbrev draft : MiddlewareReceiptDraft
draft = record {
  receipt_id = codes "r";
  builder = builder;
  provider_response_hash = codes "sha256:x";
  endpoint_path = codes "/v1/chat/completions";
  request_mode = buffered;
  response_model = none;
}

abbrev final_builder : ReceiptBuilder
final_builder = record builder {
  events =
      builder.events
      ++ record {
        seq = 3;
        event_type = codes "transparency.response_modified";
        fields = object end;
      }
        ∷ record {
          seq = 4;
          event_type = response_returned;
          fields =
              returned_hashes (sha256_hex (λ b. b) (codes "y")) (sha256_hex (λ b. b) (codes "y"));
        }
        ∷ [];
  next_seq = 5;
}

abbrev receipt : Receipt
receipt =
    unsigned final_builder
      (record { key_id = codes "1"; algo = codes "ed25519"; public_key_hex = codes "00" })
      (codes "s")

finalized :
    finalized_receipt (λ b. none) (λ b. b) (λ b. b) keys (codes "1") 10 draft (codes "y") none none
    ≡ served (receipt, codes "y")
unfolding finalized_receipt is_sse_content_type extract_chat_id opens_object text_eq text_discrete
    ℕ_discrete add_transparency_event add_response_returned add_response_returned_hashes append
    reserved_key finalize find_key has_event canonical_bytes_for_signing utf16_compare sha256_hex
finalized = refl

finalized_receipt-types_example :
    types receipt.event_log
    ≡ (types builder.events
        ++ change (
            text_eq draft.provider_response_hash (sha256_hex (λ b. b) (codes "y"))
            && text_eq (codes "y") (codes "y")))
      ++ response_returned ∷ []
finalized_receipt-types_example =
    finalized_receipt-types (λ b. none) (λ b. b) (λ b. b) keys (codes "1") 10 draft (codes "y") none
      none receipt (codes "y") finalized
