-- ===== src/Service/Finalize/Disclosed.antt =====
-- A response that was changed on its way is disclosed by its receipt.
use phala_llm_router.Base.{
  ℕ, Bool, true, false, List, [], ◌∷◌, ◌++◌, Option, none, some, Text, codes, text_eq, ◌&&◌, ◌≡◌,
  refl, sym, ap, ◌∙◌, subst,
}
use phala_llm_router.Canonical.{Bytes, sha256_hex}
use phala_llm_router.Json.{Value, object, end}
use phala_llm_router.Receipts.{Receipt, ReceiptEvent}
use phala_llm_router.Receipts.Builder.{
  returned_hashes, ReceiptBuilder, append, add_transparency_event, add_response_returned, finalize,
  add_response_returned_hashes,
}
use phala_llm_router.Receipts.Builder.Finalize.{bind-done, finalize-signed}
use phala_llm_router.Receipts.Builder.Log.{append_done}
use phala_llm_router.Receipts.Types.{Built, done, refused, KeyProvider, response_returned}
use phala_llm_router.Service.Errors.{Served, served, of_built, bind-served}
use phala_llm_router.Service.Failover.{MiddlewareReceiptDraft}
use phala_llm_router.Service.Failover.Order.{types}
use phala_llm_router.Service.Finalize.{
  is_sse_content_type, with_chat_id, Encryption, wire_of, named, unmodified, disclosed,
  finalized_receipt,
}

of_built-done {ℓ} : {A : Type ℓ} (m : Built A) (a : A) → of_built m ≡ served a → m ≡ done a
of_built-done (done b) a h = ap done (cc h)
of_built-done (refused e) a h = absurd (cc h)

types-append :
    (es : List ReceiptEvent) (e : ReceiptEvent)
    → types (es ++ e ∷ []) ≡ types es ++ e.event_type ∷ []
types-append [] e = refl
types-append (x ∷ es) e = ap (λ ts. x.event_type ∷ ts) (types-append es e)

pub append-types :
    (b b' : ReceiptBuilder) (t : Text) (v : Value)
    → append b t v ≡ done b'
    → types b'.events ≡ types b.events ++ t ∷ []
append-types b b' t v h =
    let (same, _, _) = append_done b b' t v h in
    ap (λ (x : ReceiptBuilder). types x.events) same ∙ types-append b.events _

-- The event of a change.
abbrev pub change : Bool → List Text
change true = []
change false = codes "transparency.response_modified" ∷ []

pub append_nil : (l : List Text) → l ++ [] ≡ l
append_nil [] = refl
append_nil (x ∷ l) = ap (λ zs. x ∷ zs) (append_nil l)

served_pair :
    (r r' : Receipt) (w w' : Bytes)
    → ◌≡◌ {A = Served (Receipt × Bytes)} (served (r, w)) (served (r', w'))
    → (r ≡ r') × (w ≡ w')
served_pair r r' w w' h = (cc h, cc h)

with_chat_id-events : (b : ReceiptBuilder) (o : Option Text) → (with_chat_id b o).events ≡ b.events
with_chat_id-events b none = refl
with_chat_id-events b (some id) = refl

done_inj {ℓ} : {A : Type ℓ} (a b : A) → ◌≡◌ {A = Built A} (done a) (done b) → a ≡ b
done_inj a b h = cc h

module _ (from_slice : Bytes → Option Value) (sha256 : Bytes → Text) (hex : Bytes → Text)
    (keys : KeyProvider) (key_id : Text) (ttl : ℕ) where
  disclosed-types :
      (b b' : ReceiptBuilder) (same : Bool)
      → disclosed from_slice sha256 hex keys key_id ttl b same ≡ done b'
      → types b'.events ≡ types b.events ++ change same
  unfolding add_transparency_event
  disclosed-types b b' true h =
      let e : b ≡ b' = cc h in
      ap (λ (x : ReceiptBuilder). types x.events) (sym e) ∙ sym (append_nil (types b.events))
  disclosed-types b b' false h = append-types b b' _ (object end) h

  named-events :
      (is_sse : Bool) (b : ReceiptBuilder) (body : Bytes)
      → (named from_slice sha256 hex keys key_id ttl is_sse b body).events ≡ b.events
  named-events true b body = with_chat_id-events b _
  named-events false b body = with_chat_id-events b _

  pub add_response_returned-types :
      (b : ReceiptBuilder) (body wire : Bytes) (p : ReceiptBuilder × (Text × Text))
      → add_response_returned sha256 b body wire ≡ done p
      → types p.0.events ≡ types b.events ++ response_returned ∷ []
  unfolding add_response_returned add_response_returned_hashes
  add_response_returned-types b body wire p h =
      let (b', added, e) = bind-done (add_response_returned_hashes b _ _) _ p h in
      let same : b' ≡ p.0 = ap (λ (q : ReceiptBuilder × (Text × Text)). q.0) (done_inj _ p e) in
      subst (λ (x : ReceiptBuilder). types x.events ≡ types b.events ++ response_returned ∷ []) same
        (append-types b b' response_returned
          (returned_hashes (sha256_hex sha256 body) (sha256_hex sha256 wire)) added)

  -- If a response is finalized, then the events of its receipt are those of the draft, then, exactly if
  -- the provider's bytes have another hash than the final ones or the bytes on the wire are not the
  -- final ones, the event that the response was modified, and last the response returned.
  pub finalized_receipt-types :
      (draft : MiddlewareReceiptDraft) (body : Bytes) (content_type : Option Text)
      (e2ee : Encryption) (receipt : Receipt) (wire : Bytes)
      → finalized_receipt from_slice sha256 hex keys key_id ttl draft body content_type e2ee
        ≡ served (receipt, wire)
      → types receipt.event_log
        ≡ (types draft.builder.events
            ++ change (
                text_eq draft.provider_response_hash (sha256_hex sha256 body) && text_eq wire body))
          ++ response_returned ∷ []
  unfolding finalized_receipt
  finalized_receipt-types draft body content_type e2ee receipt wire h =
      let is_sse = is_sse_content_type content_type in
      let b0 = named from_slice sha256 hex keys key_id ttl is_sse draft.builder body in
      let (w, _, h1) = bind-served (wire_of e2ee is_sse body) _ (receipt, wire) h in
      let same = unmodified from_slice sha256 hex keys key_id ttl draft body w in
      let (b, p1, h2) =
        bind-served (of_built (disclosed from_slice sha256 hex keys key_id ttl b0 same)) _ _ h1 in
      let ((b', hashes), p2, h3) =
        bind-served (of_built (add_response_returned sha256 b body w)) _ _ h2 in
      let (r, p3, h4) = bind-served (of_built (finalize hex b' keys key_id)) _ _ h3 in
      let (e, e') = served_pair r receipt w wire h4 in
      let (_, _, _, _, _, _, _, _, _, _, ev, _, _, _) =
        finalize-signed hex b' keys key_id r (of_built-done (finalize hex b' keys key_id) r p3) in
      ap (λ (x : Receipt). types x.event_log) (sym e)
      ∙ ap types ev
      ∙ add_response_returned-types b body w (b', hashes)
          (of_built-done (add_response_returned sha256 b body w) (b', hashes) p2)
      ∙ ap (λ ts. ts ++ response_returned ∷ [])
          (disclosed-types b0 b same
              (of_built-done (disclosed from_slice sha256 hex keys key_id ttl b0 same) b p1)
            ∙ ap (λ es. types es ++ change same) (named-events is_sse draft.builder body)
            ∙ ap
                (λ x.
                  types draft.builder.events
                  ++ change (unmodified from_slice sha256 hex keys key_id ttl draft body x))
                e')
