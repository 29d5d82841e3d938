-- ===== src/Receipts/Builder/Log.antt =====
-- The event log of a receipt is numbered from 0, begins with the request, and hides nothing.
use phala_llm_router.Base.{
  ℕ, suc, ◌+◌, ◌%◌, ◌<◌, ◌==◌, Bool, true, false, ◌&&◌, not, List, [], ◌∷◌, ◌++◌, none, Text, codes,
  text_eq, u64_mod, length, length-append, ◌≡◌, refl, arith, Bool-cases, Option-cases, inl, inr,
}
use phala_llm_router.Json.{Value, Fields, end, field, has_key, fields_of}
use phala_llm_router.Receipts.{ReceiptEvent}
use phala_llm_router.Receipts.Types.{done, request_received}
use phala_llm_router.Receipts.Builder.{ReceiptBuilder, append, reserved_key}

-- Neither "seq" nor "type" is among the keys.
abbrev pub IsOpen : Value → Type 0
IsOpen v =
    (has_key (codes "seq") (fields_of v) ≡ false) × (has_key (codes "type") (fields_of v) ≡ false)

-- The events are numbered from `n`, and their fields leave the number and the type alone.
abbrev pub NumberedFrom : ℕ → List ReceiptEvent → Type 0
NumberedFrom n [] = Unit {0}
NumberedFrom n (e ∷ es) = (e.seq ≡ n) × IsOpen e.fields × NumberedFrom (suc n) es

abbrev pub starts_with_request : List ReceiptEvent → Bool
starts_with_request [] = true
starts_with_request (e ∷ es) = text_eq e.event_type request_received

pub record IsLog (b : ReceiptBuilder) : Type 0 where
  pub numbered : NumberedFrom 0 b.events
  pub counted : b.next_seq ≡ length b.events
  pub started : starts_with_request b.events ≡ true

NumberedFrom-append :
    (n : ℕ) (es : List ReceiptEvent) (e : ReceiptEvent)
    → NumberedFrom n es
    → e.seq ≡ n + length es
    → IsOpen e.fields
    → NumberedFrom n (es ++ e ∷ [])
NumberedFrom-append n [] e h s o = (omega arith, o, tt)
NumberedFrom-append n (x ∷ es) e h s o =
    (h.0, h.1, NumberedFrom-append (suc n) es e h.2 (omega arith) o)

reserved_key-open :
    (fs : Fields)
    → reserved_key fs ≡ none
    → (has_key (codes "seq") fs ≡ false) × (has_key (codes "type") fs ≡ false)
unfolding reserved_key has_key text_eq
reserved_key-open end h = (refl, refl)
reserved_key-open (field k v fs) h = ground (arith, reserved_key-open fs)

abbrev pub logged : ReceiptBuilder → Text → Value → ReceiptBuilder
logged b t v = record b {
  events = b.events ++ record { seq = b.next_seq; event_type = t; fields = v } ∷ [];
  next_seq = (b.next_seq + 1) % u64_mod;
}

pub append_done :
    (b b' : ReceiptBuilder) (t : Text) (v : Value)
    → append b t v ≡ done b'
    → (b' ≡ logged b t v)
      × (reserved_key (fields_of v) ≡ none)
      × ((b.next_seq == 0 && not (text_eq t request_received)) ≡ false)
unfolding append
append_done b b' t v h = elim (Bool-cases (b.next_seq == 0 && not (text_eq t request_received))) [
  | inl late ↦ absurd (cc (rw (late, append) at h))
  | inr early ↦ elim (Option-cases (reserved_key (fields_of v))) [
    | inr (k, e) ↦ absurd (cc (rw (early, append, e) at h))
    | inl e ↦ (cc (rw (early, append, e) at h), e, early)
  ]
]

starts_with_request-append :
    (es : List ReceiptEvent) (e : ReceiptEvent) (n : ℕ)
    → n ≡ length es
    → starts_with_request es ≡ true
    → (n == 0 && not (text_eq e.event_type request_received)) ≡ false
    → starts_with_request (es ++ e ∷ []) ≡ true
starts_with_request-append [] e n c s h = ground arith
starts_with_request-append (x ∷ es) e n c s h = s

pub append-IsLog :
    (b b' : ReceiptBuilder) (t : Text) (v : Value)
    → length b.events + 1 < u64_mod
    → IsLog b
    → append b t v ≡ done b'
    → IsLog b' × (length b'.events ≡ length b.events + 1)
append-IsLog b b' t v small l h =
    let (p, open_, early) = append_done b b' t v h in
    let e : ReceiptEvent = record { seq = b.next_seq; event_type = t; fields = v } in
    rw p (
      record {
        numbered =
            NumberedFrom-append 0 b.events e l.numbered (omega (arith, l.counted))
              (reserved_key-open (fields_of v) open_);
        counted = omega (arith, l.counted, length-append b.events (e ∷ []));
        started = starts_with_request-append b.events e b.next_seq l.counted l.started early;
      },
      omega (arith, length-append b.events (e ∷ [])),
    )
