-- ===== src/Receipts/Builder/Calls.antt =====
-- What holds of the event log after any sequence of calls of the builder.
use phala_llm_router.Base.{
  ℕ_discrete, ℕ, suc, ◌+◌, ◌<◌, ◌≤◌, false, List, [], ◌∷◌, Option, Text, codes, text_eq,
  text_discrete, u64_mod, or_default, length, ◌≡◌, refl, sym, ◌∙◌, subst, arith, Bool-cases, inl,
  inr,
}
use phala_llm_router.Canonical.{sha256_hex, Bytes}
use phala_llm_router.Json.{
  Value, Fields, string, object, array, null, bool, number, end, field, has_key, insert_field,
}
use phala_llm_router.Session.{ChannelBinding}
use phala_llm_router.Receipts.{ReceiptEvent}
use phala_llm_router.Receipts.Types.{
  route_selected, response_received, response_returned, event_fields, Built, done, refused,
  request_received, request_forwarded, middleware_forwarded, upstream_verified,
  UpstreamVerifiedEvent, ◌>>=◌,
}
use phala_llm_router.Receipts.Builder.{
  returned_hashes, session_fields, kind_type, add_response_received, add_response_returned,
  ReceiptBuilder, append, set_model_id, set_model, add_body, add_response_received_hash,
  add_response_returned_hashes, add_route_selected, add_upstream_verified,
  add_upstream_verified_with_session, add_transparency_event, add_extension_event,
  set_upstream_verified_model_id, TransparencyEventKind, is_reserved_type, set_chat_id, hash_field,
}
use phala_llm_router.Receipts.Builder.Log.{
  IsOpen, NumberedFrom, starts_with_request, IsLog, append-IsLog,
}

pub data Call : Type 0 where
  adds_request_received adds_request_forwarded adds_middleware_forwarded : Bytes → Call
  adds_route_selected : Text → Call
  adds_upstream_verified : UpstreamVerifiedEvent → Call
  adds_upstream_verified_with_session : UpstreamVerifiedEvent → Text → Option Value → Call
  adds_transparency_event : TransparencyEventKind → Call
  adds_response_received : Bytes → Call
  adds_response_returned : Bytes → Bytes → Call
  adds_response_received_hash : Text → Call
  adds_response_returned_hashes : Text → Text → Call
  adds_extension_event : Text → Value → Call
  sets_chat_id sets_model_id : Option Text → Call

abbrev pub builder_of {ℓ} : {A : Type ℓ} → Built (ReceiptBuilder × A) → Built ReceiptBuilder
builder_of (done (b, digest)) = done b
builder_of (refused e) = refused e

-- A call that is refused leaves the builder as it was.
abbrev pub kept : ReceiptBuilder → Built ReceiptBuilder → ReceiptBuilder
kept b (done b') = b'
kept b (refused e) = b

module _ (sha256 : Bytes → Text) (bindings : List ChannelBinding → Value) where
  unfoldable pub call : ReceiptBuilder → Call → Built ReceiptBuilder
  unfolding add_body add_route_selected add_upstream_verified add_upstream_verified_with_session
      add_transparency_event add_response_received_hash add_response_returned_hashes
      add_extension_event set_upstream_verified_model_id add_response_received add_response_returned
  call b (adds_request_received body) = builder_of (add_body sha256 request_received b body)
  call b (adds_request_forwarded body) = builder_of (add_body sha256 request_forwarded b body)
  call b (adds_middleware_forwarded body) = builder_of (add_body sha256 middleware_forwarded b body)
  call b (adds_route_selected target) = add_route_selected b target
  call b (adds_upstream_verified e) = add_upstream_verified bindings b e
  call b (adds_upstream_verified_with_session e id claims) =
      add_upstream_verified_with_session bindings b e id claims
  call b (adds_transparency_event kind) = add_transparency_event b kind
  call b (adds_response_received body) = builder_of (add_response_received sha256 b body)
  call b (adds_response_returned body wire) = builder_of (add_response_returned sha256 b body wire)
  call b (adds_response_received_hash hash) = add_response_received_hash b hash
  call b (adds_response_returned_hashes c w) = add_response_returned_hashes b c w
  call b (adds_extension_event t v) = add_extension_event b t v
  call b (sets_chat_id c) = done (set_chat_id b c)
  call b (sets_model_id m) = done (set_upstream_verified_model_id b m)

  unfoldable pub run : ReceiptBuilder → List Call → ReceiptBuilder
  unfolding call
  run b [] = b
  run b (c ∷ cs) = run (kept b (call b c)) cs

builder_of-bind {ℓ} :
    {A : Type ℓ} (r : Built ReceiptBuilder) (d : A) → builder_of (r >>= λ b'. done (b', d)) ≡ r
builder_of-bind (done b') d = refl
builder_of-bind (refused e) d = refl

has_key-insert :
    (q k : Text) (v : Value) (fs : Fields)
    → text_eq k q ≡ false
    → has_key q (insert_field k v fs) ≡ has_key q fs
unfolding has_key insert_field text_eq
has_key-insert q k v end h = ground arith
has_key-insert q k v (field j w fs) h = ground (arith, has_key-insert q k v fs)

set_model-IsOpen : (m : Text) (v : Value) → IsOpen v → IsOpen (set_model m v)
set_model-IsOpen m (object fs) h = (
  has_key-insert (codes "seq") (codes "model_id") (string m) fs
        (unfold text_eq text_discrete ℕ_discrete in refl)
      ∙ h.0,
  has_key-insert (codes "type") (codes "model_id") (string m) fs
        (unfold text_eq text_discrete ℕ_discrete in refl)
      ∙ h.1,
)
set_model-IsOpen m null h = h
set_model-IsOpen m (bool b) h = h
set_model-IsOpen m (number n) h = h
set_model-IsOpen m (string s) h = h
set_model-IsOpen m (array vs) h = h

set_model_id-NumberedFrom :
    (m : Text) (n : ℕ) (es : List ReceiptEvent)
    → NumberedFrom n es
    → NumberedFrom n (set_model_id m es)
unfolding set_model_id
set_model_id-NumberedFrom m n [] h = tt
set_model_id-NumberedFrom m n (e ∷ es) h =
    elim (Bool-cases (text_eq e.event_type upstream_verified)) [
      | inl p ↦ rw (p, set_model_id) (h.0, set_model-IsOpen m e.fields h.1, h.2)
      | inr p ↦ rw (p, set_model_id) (h.0, h.1, set_model_id-NumberedFrom m (suc n) es h.2)
    ]

length-set_model_id : (m : Text) (es : List ReceiptEvent) → length (set_model_id m es) ≡ length es
unfolding set_model_id
length-set_model_id m [] = refl
length-set_model_id m (e ∷ es) = ground (arith, length-set_model_id m es)

starts_with_request-set_model_id :
    (m : Text) (es : List ReceiptEvent)
    → starts_with_request (set_model_id m es) ≡ starts_with_request es
unfolding set_model_id
starts_with_request-set_model_id m [] = refl
starts_with_request-set_model_id m (e ∷ es) = ground arith

-- What a call leaves behind: a log of at most one event more.
abbrev Logged : ReceiptBuilder → ReceiptBuilder → Type 0
Logged b b' = IsLog b' × (length b'.events ≤ length b.events + 1)

module _ (b : ReceiptBuilder) (small : length b.events + 1 < u64_mod) (l : IsLog b) where
  append-Logged : (t : Text) (v : Value) → Logged b (kept b (append b t v))
  append-Logged t v = go (append b t v) refl
    where
      go : (r : Built ReceiptBuilder) → append b t v ≡ r → Logged b (kept b r)
      go (done b') h = let (p, q) = append-IsLog b b' t v small l h in (p, omega arith)
      go (refused e) h = (l, omega arith)

  bound-Logged {ℓ} :
      {A : Type ℓ} (t : Text) (v : Value) (d : A)
      → Logged b (kept b (builder_of (append b t v >>= λ b'. done (b', d))))
  bound-Logged t v d =
      subst (λ r. Logged b (kept b r)) (sym (builder_of-bind (append b t v) d)) (append-Logged t v)

  module _ (sha256 : Bytes → Text) (bindings : List ChannelBinding → Value) where
    pub call-Logged : (c : Call) → Logged b (kept b (call sha256 bindings b c))
    unfolding call add_body add_route_selected add_upstream_verified
        add_upstream_verified_with_session add_transparency_event add_response_received_hash
        add_response_returned_hashes add_extension_event set_upstream_verified_model_id
        add_response_received add_response_returned
    call-Logged (adds_request_received body) =
        bound-Logged request_received (hash_field (codes "body_hash") (sha256_hex sha256 body))
          (sha256_hex sha256 body)
    call-Logged (adds_request_forwarded body) =
        bound-Logged request_forwarded (hash_field (codes "body_hash") (sha256_hex sha256 body))
          (sha256_hex sha256 body)
    call-Logged (adds_middleware_forwarded body) =
        bound-Logged middleware_forwarded (hash_field (codes "body_hash") (sha256_hex sha256 body))
          (sha256_hex sha256 body)
    call-Logged (adds_route_selected target) =
        append-Logged route_selected (hash_field (codes "target_route_id") target)
    call-Logged (adds_upstream_verified e) =
        append-Logged upstream_verified (object (event_fields bindings e))
    call-Logged (adds_upstream_verified_with_session e id claims) =
        append-Logged upstream_verified (session_fields bindings e id claims)
    call-Logged (adds_transparency_event kind) = append-Logged (kind_type kind) (object end)
    call-Logged (adds_response_received body) =
        bound-Logged response_received
          (hash_field (codes "cleartext_hash") (sha256_hex sha256 body)) (sha256_hex sha256 body)
    call-Logged (adds_response_returned body wire) =
        bound-Logged response_returned
          (returned_hashes (sha256_hex sha256 body) (sha256_hex sha256 wire))
          (sha256_hex sha256 body, sha256_hex sha256 wire)
    call-Logged (adds_response_received_hash hash) =
        append-Logged response_received (hash_field (codes "cleartext_hash") hash)
    call-Logged (adds_response_returned_hashes c w) =
        append-Logged response_returned (returned_hashes c w)
    call-Logged (adds_extension_event t v) = elim (Bool-cases (is_reserved_type t)) [
      | inl p ↦ rw (p, call) (l, omega arith)
      | inr p ↦ rw (p, call) (append-Logged t v)
    ]
    call-Logged (sets_chat_id c) =
        (record { numbered = l.numbered; counted = l.counted; started = l.started }, omega arith)
    call-Logged (sets_model_id m) = (
      record {
        numbered = set_model_id-NumberedFrom _ 0 b.events l.numbered;
        counted = l.counted ∙ sym (length-set_model_id _ b.events);
        started = starts_with_request-set_model_id _ b.events ∙ l.started;
      },
      omega (arith, length-set_model_id (or_default m (codes "unknown")) b.events),
    )
