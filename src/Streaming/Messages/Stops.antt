-- ===== src/Streaming/Messages/Stops.antt =====
-- Each tool call that is started is stopped.
use phala_llm_router.Base.{
  Bool, true, false, ◌||◌, List, [], ◌∷◌, ◌++◌, map, Option, none, some, Text, codes, if◌then◌else◌,
  ◌≡◌, refl, sym, ap, ◌∙◌, subst, Bool-cases, inl, inr, if_true, if_false,
}
use phala_llm_router.Json.{Value}
use phala_llm_router.Streaming.Int64.{ℤ, eqz, has_index}
use phala_llm_router.Streaming.Messages.{
  StreamState, default_state, MessageEvent, text_stop, tool_stop,
}
use phala_llm_router.Streaming.Messages.Blocks.{ends_stream}
use phala_llm_router.Streaming.Messages.Handler.{
  Step, emit_choice, items_at, start, absorb, on_chunk, on_payload, on_payload_text, on_trimmed,
  done_output, end_by, is_error_finish, openai_to_anthropic_messages_stream,
}
use phala_llm_router.Streaming.Messages.Tools.{
  Tracks, then_do-Tracks, emit_choice-Tracks, starts_tool,
}
use phala_llm_router.Streaming.Messages.Whole.{run, any_ends, or_false, at_end}

-- Whether a tool call of an index is stopped.
unfoldable pub stops_tool : ℤ → List MessageEvent → Bool
stops_tool i [] = false
stops_tool i (tool_stop j ∷ es) = let rest = stops_tool i es in eqz i j || rest
stops_tool i (e ∷ es) = stops_tool i es

stops_tool-stops :
    (i : ℤ) (is : List ℤ) (es : List MessageEvent)
    → stops_tool i es ≡ false
    → stops_tool i (map tool_stop is ++ es) ≡ has_index i is
unfolding stops_tool has_index
stops_tool-stops i [] es h = h
stops_tool-stops i (j ∷ is) es h = ap (λ r. eqz i j || r) (stops_tool-stops i is es h)

stops_tool-end_by : (i : ℤ) (s : StreamState) (o : Option Text) → stops_tool i (end_by s o) ≡ false
unfolding stops_tool
stops_tool-end_by i s none = refl
stops_tool-end_by i s (some r) = elim (Bool-cases (is_error_finish r)) [
  | inl h ↦ ap (stops_tool i) (if_true (is_error_finish r) _ _ h)
  | inr h ↦ ap (stops_tool i) (if_false (is_error_finish r) _ _ h)
]

stops_tool-text :
    (i j : ℤ) (is_open : Bool) (es : List MessageEvent)
    → stops_tool i ((if is_open then text_stop j ∷ [] else []) ++ es) ≡ stops_tool i es
unfolding stops_tool
stops_tool-text i j true es = refl
stops_tool-text i j false es = refl

stops_tool-done_output :
    (i : ℤ) (s : StreamState) → stops_tool i (done_output s) ≡ has_index i s.tool_calls_started
unfolding done_output
stops_tool-done_output i s =
    stops_tool-text i s.current_content_index s.content_block_started _
    ∙ stops_tool-stops i s.tool_calls_started _ (stops_tool-end_by i s s.finish_reason)

start-Tracks :
    (fallback_id now_millis : Text) (v : Value) (s : StreamState)
    → Tracks s (start fallback_id now_millis v s)
unfolding start starts_tool
start-Tracks fallback_id now_millis v s i = elim (Bool-cases s.has_started) [
  | inl h ↦ subst (λ r. Tracks s r) (sym (if_true s.has_started _ _ h)) (λ j. refl) i
  | inr h ↦ subst (λ r. Tracks s r) (sym (if_false s.has_started _ _ h)) (λ j. refl) i
]

module _ (from_str : Text → Option Value) (fallback_id now_millis : Text) where
  on_chunk-Tracks :
      (v : Value) (s : StreamState) → Tracks s (on_chunk from_str fallback_id now_millis v s)
  unfolding on_chunk absorb
  on_chunk-Tracks v s =
      let r = start fallback_id now_millis v (absorb v s) in
      let vs = items_at (codes "choices") (some v) in
      then_do-Tracks s r (emit_choice vs) (start-Tracks fallback_id now_millis v (absorb v s))
        (emit_choice-Tracks vs r.0)

  on_payload-Tracks :
      (o : Option Value) (s : StreamState)
      → Tracks s (on_payload from_str fallback_id now_millis o s)
  unfolding starts_tool
  on_payload-Tracks none s i = refl
  on_payload-Tracks (some v) s i = on_chunk-Tracks v s i

  on_payload_text-Tracks :
      (t : Text) (s : StreamState) → Tracks s (on_payload_text from_str fallback_id now_millis t s)
  unfolding on_payload_text starts_tool
  on_payload_text-Tracks [] s i = refl
  on_payload_text-Tracks (c ∷ t) s i = on_payload-Tracks (from_str (c ∷ t)) s i

  stream-Tracks :
      (event : Text) (s : StreamState)
      → ends_stream event ≡ false
      → Tracks s (openai_to_anthropic_messages_stream from_str fallback_id now_millis event s)
  unfolding openai_to_anthropic_messages_stream on_trimmed
  stream-Tracks event s h =
      subst (λ r. Tracks s r) (sym (if_false (ends_stream event) _ _ h))
        (on_payload_text-Tracks _ s)

  run-Tracks :
      (events : List Text) (s : StreamState)
      → any_ends events ≡ false
      → Tracks s (run from_str fallback_id now_millis events s)
  unfolding run
  run-Tracks [] s h i = unfold starts_tool in refl
  run-Tracks (event ∷ events) s h i =
      let (p, q) = or_false (ends_stream event) (any_ends events) h in
      let step = openai_to_anthropic_messages_stream from_str fallback_id now_millis event s in
      then_do-Tracks s step (run from_str fallback_id now_millis events) (stream-Tracks event s p)
        (run-Tracks events step.0 q) i

  or_nil : (b : Bool) → (b || false) ≡ b
  or_nil true = refl
  or_nil false = refl

  -- When the provider's stream ends, after any events of which none is the last, the block of a tool
  -- call is stopped exactly if a tool call of its index was started.
  pub run-stops_tool :
      (events : List Text) (last : Text) (i : ℤ)
      → any_ends events ≡ false
      → ends_stream last ≡ true
      → stops_tool i
          (openai_to_anthropic_messages_stream from_str fallback_id now_millis last
            (run from_str fallback_id now_millis events default_state).0).1
        ≡ starts_tool i (run from_str fallback_id now_millis events default_state).1
  run-stops_tool events last i h e =
      let r = run from_str fallback_id now_millis events default_state in
      ap (λ (x : Step). stops_tool i x.1) (at_end from_str fallback_id now_millis last r.0 e)
      ∙ stops_tool-done_output i r.0
      ∙ run-Tracks events default_state h i
      ∙ (unfold has_index in or_nil (starts_tool i r.1))
