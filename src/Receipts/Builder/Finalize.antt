-- ===== src/Receipts/Builder/Finalize.antt =====
-- A finished receipt is signed over the bytes that a verifier computes from it.
use phala_llm_router.Base.{
  true, List, [], ◌∷◌, Text, text_eq, text_eq_iff, ◌≡◌, refl, sym, ap, ◌∙◌, subst, Bool-cases, ◌⊎◌,
  inl, inr,
}
use phala_llm_router.Canonical.{Bytes}
use phala_llm_router.Receipts.{ReceiptEvent, Receipt}
use phala_llm_router.Receipts.Tree.{receipt_value}
use phala_llm_router.Receipts.Types.{
  Built, done, refused, ◌>>=◌, KeyProvider, request_received, request_forwarded, response_returned,
}
use phala_llm_router.Receipts.Builder.{
  ReceiptBuilder, finalize, canonical_bytes_for_signing, find_key, has_event, unsigned, require,
  not_empty,
}
use phala_llm_router.Keyset.{KeyedPublicKey}

-- A successful bind, taken apart.
pub bind-done {ℓ κ} :
    {A : Type ℓ} {B : Type κ} (m : Built A) (f : A → Built B) (b : B)
    → (m >>= f) ≡ done b
    → (a : A) × (m ≡ done a) × (f a ≡ done b)
bind-done (done a) f b h = (a, refl, h)
bind-done (refused e) f b h = absurd (cc h)

require-has_event :
    (t : Text) (es : List ReceiptEvent) (u : Unit {0})
    → require t es ≡ done u
    → has_event t es ≡ true
require-has_event t es u h = elim (Bool-cases (has_event t es)) [
  | inl e ↦ e
  | inr e ↦ absurd (cc (rw e at h))
]

-- What is signed leaves the signature's value out.
bytes_unsigned :
    (b : ReceiptBuilder) (k : KeyedPublicKey) (s t : Text)
    → canonical_bytes_for_signing (unsigned b k s) ≡ canonical_bytes_for_signing (unsigned b k t)
unfolding canonical_bytes_for_signing receipt_value
bytes_unsigned b k s t = refl

-- The key is one of the list.
abbrev pub IsKeyOf : List KeyedPublicKey → KeyedPublicKey → Type 0
IsKeyOf [] k = ⊥
IsKeyOf (x ∷ ks) k = (x ≡ k) ⊎ IsKeyOf ks k

find_key-IsKeyOf :
    (key_id : Text) (ks : List KeyedPublicKey) (k : KeyedPublicKey)
    → find_key key_id ks ≡ done k
    → IsKeyOf ks k × (k.key_id ≡ key_id)
unfolding find_key
find_key-IsKeyOf key_id [] k h = absurd (cc h)
find_key-IsKeyOf key_id (x ∷ ks) k h = elim (Bool-cases (text_eq x.key_id key_id)) [
  | inl e ↦
      let same : x ≡ k = cc (rw (e, find_key) at h) in
      (inl same, ap (λ y. y.key_id) (sym same) ∙ (text_eq_iff x.key_id key_id).0 e)
  | inr e ↦ let (i, same) = find_key-IsKeyOf key_id ks k (rw (e, find_key) at h) in (inr i, same)
]

-- If a builder is finalized, then the key that was asked for is one of the key provider's receipt keys;
-- the receipt names that key and its algorithm, and has the builder's events, among them
-- `request.received`, `request.forwarded` and `response.returned`; and the bytes that a verifier
-- computes from the receipt itself are those that the key provider signed under that key, with the
-- signature that the receipt carries.
pub finalize-signed :
    (hex : Bytes → Text) (b : ReceiptBuilder) (keys : KeyProvider) (key_id : Text) (r : Receipt)
    → finalize hex b keys key_id ≡ done r
    → (k : KeyedPublicKey) × (bytes : Bytes) × (sig : Bytes) × IsKeyOf keys.receipt_keys k
      × (k.key_id ≡ key_id)
      × (r.signature.algo ≡ k.algo)
      × (canonical_bytes_for_signing r ≡ done bytes)
      × (keys.sign_receipt key_id bytes ≡ done sig)
      × (r.signature.value_hex ≡ hex sig)
      × (r.signature.key_id ≡ key_id)
      × (r.event_log ≡ b.events)
      × (has_event request_received r.event_log ≡ true)
      × (has_event request_forwarded r.event_log ≡ true)
      × (has_event response_returned r.event_log ≡ true)
unfolding finalize
finalize-signed hex b keys key_id r h =
    let (_, _, h1) = bind-done (not_empty b.events) _ r h in
    let (u1, p1, h2) = bind-done (require request_received b.events) _ r h1 in
    let (u2, p2, h3) = bind-done (require request_forwarded b.events) _ r h2 in
    let (u3, p3, h4) = bind-done (require response_returned b.events) _ r h3 in
    let (k, p4, h5) = bind-done (find_key key_id keys.receipt_keys) _ r h4 in
    let (bytes, p5, h6) = bind-done (canonical_bytes_for_signing (unsigned b k [])) _ r h5 in
    let (sig, p6, h7) = bind-done (keys.sign_receipt k.key_id bytes) _ r h6 in
    let e : unsigned b k (hex sig) ≡ r = cc h7 in
    let (known, id) = find_key-IsKeyOf key_id keys.receipt_keys k p4 in
    (
      k,
      bytes,
      sig,
      known,
      id,
      ap (λ x. x.signature.algo) (sym e),
      ap canonical_bytes_for_signing (sym e) ∙ bytes_unsigned b k (hex sig) [] ∙ p5,
      subst (λ q. keys.sign_receipt q bytes ≡ done sig) id p6,
      ap (λ x. x.signature.value_hex) (sym e),
      ap (λ x. x.signature.key_id) (sym e) ∙ id,
      ap (λ x. x.event_log) (sym e),
      ap (λ x. has_event request_received x.event_log) (sym e) ∙ require-has_event _ _ u1 p1,
      ap (λ x. has_event request_forwarded x.event_log) (sym e) ∙ require-has_event _ _ u2 p2,
      ap (λ x. has_event response_returned x.event_log) (sym e) ∙ require-has_event _ _ u3 p3,
    )
