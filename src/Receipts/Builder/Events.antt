-- ===== src/Receipts/Builder/Events.antt =====
-- What the receipt says of the events, after any sequence of calls of the builder.
use phala_llm_router.Base.{
  ℕ_discrete, ℕ, suc, ◌+◌, ◌<◌, List, [], ◌∷◌, some, Text, codes, text_discrete, u64_mod, length,
  ◌≡◌, refl, ap, ◌∙◌, arith,
}
use phala_llm_router.Canonical.{Bytes}
use phala_llm_router.Json.{Value, string, fields_of, get_field, get_key, get_field-extend, natural}
use phala_llm_router.Session.{ChannelBinding}
use phala_llm_router.Receipts.{ReceiptEvent}
use phala_llm_router.Receipts.Tree.{event_value}
use phala_llm_router.Receipts.Builder.{ReceiptBuilder, fresh}
use phala_llm_router.Receipts.Builder.Log.{IsOpen, NumberedFrom, IsLog}
use phala_llm_router.Receipts.Builder.Calls.{Call, call, run, kept, call-Logged}

-- In the tree of each event the keys "seq" and "type" show its place in the log and its type.
abbrev pub ShownFrom : ℕ → List ReceiptEvent → Type 0
ShownFrom n [] = Unit {0}
ShownFrom n (e ∷ es) =
    (get_key (codes "seq") (event_value e) ≡ some (natural n))
    × (get_key (codes "type") (event_value e) ≡ some (string e.event_type))
    × ShownFrom (suc n) es

event_value-type :
    (e : ReceiptEvent)
    → IsOpen e.fields
    → (get_key (codes "seq") (event_value e) ≡ some (natural e.seq))
      × (get_key (codes "type") (event_value e) ≡ some (string e.event_type))
unfolding get_key event_value
event_value-type e h = (
  get_field-extend (codes "seq") (fields_of e.fields) _ h.0
      ∙ (unfold get_field text_discrete ℕ_discrete in refl),
  get_field-extend (codes "type") (fields_of e.fields) _ h.1
      ∙ (unfold get_field text_discrete ℕ_discrete in refl),
)

NumberedFrom-ShownFrom : (n : ℕ) (es : List ReceiptEvent) → NumberedFrom n es → ShownFrom n es
NumberedFrom-ShownFrom n [] h = tt
NumberedFrom-ShownFrom n (e ∷ es) h =
    let (p, q) = event_value-type e h.1 in
    (p ∙ ap (λ m. some (natural m)) h.0, q, NumberedFrom-ShownFrom (suc n) es h.2)

module _ (sha256 : Bytes → Text) (bindings : List ChannelBinding → Value) where
  run-IsLog :
      (cs : List Call) (b : ReceiptBuilder)
      → length b.events + length cs < u64_mod
      → IsLog b
      → IsLog (run sha256 bindings b cs)
  unfolding run
  run-IsLog [] b small l = l
  run-IsLog (c ∷ cs) b small l =
      let (v, q) = call-Logged b (omega arith) l sha256 bindings c in
      run-IsLog cs (kept b (call sha256 bindings b c)) (omega arith) v

  -- After any fewer than 2^64 calls on a new builder, those included that it refuses, the log is
  -- empty or begins with `request.received`, its events are numbered from 0 without a gap, the next
  -- number is their count, and in the receipt's tree each event shows its own number and type under
  -- "seq" and "type", whatever fields it came with.
  pub run-ShownFrom :
      (cs : List Call) (b : ReceiptBuilder)
      → length cs < u64_mod
      → IsLog (run sha256 bindings (fresh b) cs)
        × ShownFrom 0 (run sha256 bindings (fresh b) cs).events
  run-ShownFrom cs b small =
      let l : IsLog (run sha256 bindings (fresh b) cs) =
        run-IsLog cs (fresh b) (omega arith)
          (record { numbered = tt; counted = refl; started = refl }) in
      (l, NumberedFrom-ShownFrom 0 _ l.numbered)
