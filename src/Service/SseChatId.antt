-- ===== src/Service/SseChatId.antt =====
-- `SseChatIdParser` of aggregator/service/streaming.rs: the ids that a stream of events gives, read a
-- chunk at a time. The parser of JSON is a parameter.
use phala_llm_router.Base.{
  ℕ, ◌==◌, Bool, true, false, ◌&&◌, [], ◌∷◌, ◌++◌, Option, none, some, is_some, or_default, Text,
  codes, text_eq, if◌then◌else◌, ◌≡◌, sym, ap, ◌∙◌, inl, inr, Bool-cases, if_true, if_false,
}
use phala_llm_router.Canonical.{Bytes}
use phala_llm_router.Json.{Value, get_key, as_str}
use phala_llm_router.Session.{strip_prefix}
use phala_llm_router.Upstream.Prepare.{and_then}

pub record SseChatIdParser : Type 0 where
  pub line_buffer : Bytes
  pub event_data : Bytes
  pub chat_id : Option Text
  pub model_id : Option Text

-- `SseChatIdParser::default()`
abbrev pub new_parser : SseChatIdParser
new_parser = record { line_buffer = []; event_data = []; chat_id = none; model_id = none }

-- A line without the carriage return that it ends in.
unfoldable pub without_cr : Bytes → Bytes
without_cr [] = []
without_cr (c ∷ []) = if c == 13 then [] else c ∷ []
without_cr (c ∷ d ∷ s) = c ∷ without_cr (d ∷ s)

abbrev pub both_known : SseChatIdParser → Bool
both_known p = is_some p.chat_id && is_some p.model_id

abbrev known_or : Option Text → Option Text → Option Text
known_or none found = found
known_or (some id) found = some id

-- The data of an event, behind those that it has.
abbrev appended : Bytes → Bytes → Bytes
appended [] event = event
appended (c ∷ s) event = c ∷ s ++ 10 ∷ event

abbrev text_at : Text → Value → Option Text
text_at key parsed = and_then (get_key key parsed) as_str

-- The data of a `data:` line; of others there is none, as of a comment.
abbrev line_data : Bytes → Option Bytes
line_data line = elim (strip_prefix (codes "data:") line) [
  | none ↦ none
  | some rest ↦ some (or_default (strip_prefix (codes " ") rest) rest)
]

abbrev with_data : SseChatIdParser → Option Bytes → SseChatIdParser
with_data p none = p
with_data p (some event) = record p { event_data = appended p.event_data event }

module _ (from_slice : Bytes → Option Value) where
  abbrev with_ids : SseChatIdParser → Option Value → SseChatIdParser
  with_ids p none = p
  with_ids p (some parsed) = record p {
    chat_id = known_or p.chat_id (text_at (codes "id") parsed);
    model_id = known_or p.model_id (text_at (codes "model") parsed);
  }

  abbrev dispatched : SseChatIdParser → Bytes → SseChatIdParser
  dispatched p [] = p
  dispatched p (c ∷ event) =
      let p' : SseChatIdParser = record p { event_data = [] } in
      if text_eq (c ∷ event) (codes "[DONE]") then p' else with_ids p' (from_slice (c ∷ event))

  unfoldable pub dispatch_event : SseChatIdParser → SseChatIdParser
  unfolding get_key as_str text_eq
  dispatch_event p = dispatched p p.event_data

  unfoldable pub observe_line : SseChatIdParser → Bytes → SseChatIdParser
  unfolding dispatch_event strip_prefix
  observe_line p [] = dispatch_event p
  observe_line p (c ∷ line) = if c == 58 then p else with_data p (line_data (c ∷ line))

  abbrev pub end_line : SseChatIdParser → SseChatIdParser
  end_line p = observe_line (record p { line_buffer = [] }) (without_cr p.line_buffer)

  abbrev pub on_byte : SseChatIdParser → ℕ → SseChatIdParser
  on_byte p byte =
      if byte == 10 then end_line p else record p { line_buffer = p.line_buffer ++ byte ∷ [] }

  -- The loop over the bytes, which stops when both ids are known.
  unfoldable pub observe_bytes : SseChatIdParser → Bytes → SseChatIdParser
  unfolding observe_line without_cr
  observe_bytes p [] = p
  observe_bytes p (byte ∷ chunk) =
      let rest = observe_bytes (on_byte p byte) chunk in
      if byte == 10 && both_known (on_byte p byte) then on_byte p byte else rest

  unfoldable pub observe : SseChatIdParser → Bytes → SseChatIdParser
  unfolding observe_bytes
  observe p chunk = if both_known p then p else observe_bytes p chunk

  and_right : (x y : Bool) → (x && y) ≡ true → y ≡ true
  and_right true y h = h
  and_right false y h = absurd (cc h)

  still_unknown :
      (p : SseChatIdParser) (byte : ℕ)
      → both_known p ≡ false
      → (byte == 10 && both_known (on_byte p byte)) ≡ false
      → both_known (on_byte p byte) ≡ false
  still_unknown p byte h k = elim (Bool-cases (byte == 10)) [
    | inl e ↦ sym (ap (λ x. x && both_known (on_byte p byte)) e) ∙ k
    | inr e ↦ ap both_known (if_false (byte == 10) _ _ e) ∙ h
  ]

  -- While not both are known, what the loop makes of two chunks is what two calls make of them.
  observe_bytes-append :
      (p : SseChatIdParser) (a b : Bytes)
      → both_known p ≡ false
      → observe_bytes p (a ++ b) ≡ observe (observe_bytes p a) b
  unfolding observe observe_bytes
  observe_bytes-append p [] b h = sym (if_false (both_known p) _ _ h)
  observe_bytes-append p (byte ∷ a) b h =
      let q = on_byte p byte in
      let stop = byte == 10 && both_known q in
      elim (Bool-cases stop) [
        | inl k ↦
            if_true stop _ _ k
            ∙ sym (if_true (both_known q) _ _ (and_right (byte == 10) (both_known q) k))
            ∙ ap (λ r. observe r b) (sym (if_true stop q (observe_bytes q a) k))
        | inr k ↦
            if_false stop _ _ k
            ∙ observe_bytes-append q a b (still_unknown p byte h k)
            ∙ ap (λ r. observe r b) (sym (if_false stop q (observe_bytes q a) k))
      ]

  -- However a stream is cut into chunks, the parser comes to the same state: to observe two chunks is to
  -- observe them as one, also where the first already has both ids or ends within a line or a UTF-8
  -- sequence.
  pub observe-append :
      (p : SseChatIdParser) (a b : Bytes) → observe p (a ++ b) ≡ observe (observe p a) b
  unfolding observe
  observe-append p a b = elim (Bool-cases (both_known p)) [
    | inl k ↦
        if_true (both_known p) _ _ k
        ∙ sym (if_true (both_known p) _ _ k)
        ∙ ap (λ q. observe q b) (sym (if_true (both_known p) p (observe_bytes p a) k))
    | inr k ↦
        if_false (both_known p) _ _ k
        ∙ observe_bytes-append p a b k
        ∙ ap (λ q. observe q b) (sym (if_false (both_known p) p (observe_bytes p a) k))
  ]
