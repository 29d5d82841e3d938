-- ===== src/Streaming/Messages/Whole.antt =====
-- A whole message: chunks, and then the end of the provider's stream.
use phala_llm_router.Base.{
  Bool, true, false, ◌||◌, List, [], ◌∷◌, ◌++◌, map, Option, none, some, Text, if◌then◌else◌, ◌≡◌,
  refl, ap, ◌∙◌, Bool-cases, inl, inr, if_true, if_false,
}
use phala_llm_router.Json.{Value}
use phala_llm_router.Streaming.Int64.{ℤ}
use phala_llm_router.Streaming.Messages.{StreamState, default_state, text_stop, tool_stop}
use phala_llm_router.Streaming.Messages.Blocks.{
  before, closed, over, removed, scan, stage, stage_at, stage_of, eqz_self, scan-append, IsSound,
  Keeps, then_do-Keeps, ends_stream, stream-Keeps,
}
use phala_llm_router.Streaming.Messages.Handler.{
  Step, ◌then_do◌, end_by, is_error_finish, done_output, on_trimmed,
  openai_to_anthropic_messages_stream,
}

-- The text block, if one is open, is stopped.
scan-text_stop :
    (is_open : Bool) (i : ℤ) (t : List ℤ)
    → scan (stage true is_open i t) (if is_open then text_stop i ∷ [] else []) ≡ some (closed t)
unfolding scan
scan-text_stop true i t = rw (eqz_self i) refl
scan-text_stop false i t = refl

-- The tool calls that are open are stopped.
scan-tool_stop : (t : List ℤ) → scan (closed t) (map tool_stop t) ≡ some (closed [])
unfolding scan removed
scan-tool_stop [] = refl
scan-tool_stop (i ∷ t) = rw (eqz_self i) (scan-tool_stop t)

scan-end_by : (s : StreamState) (o : Option Text) → scan (closed []) (end_by s o) ≡ some over
unfolding scan
scan-end_by s none = refl
scan-end_by s (some r) = elim (Bool-cases (is_error_finish r)) [
  | inl h ↦ ap (scan (closed [])) (if_true (is_error_finish r) _ _ h)
  | inr h ↦ ap (scan (closed [])) (if_false (is_error_finish r) _ _ h)
]

scan-done_output : (s : StreamState) → scan (stage_at true s) (done_output s) ≡ some over
unfolding done_output
scan-done_output s =
    scan-append (stage_at true s) (closed s.tool_calls_started) _ _
      (scan-text_stop s.content_block_started s.current_content_index s.tool_calls_started)
    ∙ scan-append (closed s.tool_calls_started) (closed []) _ _
        (scan-tool_stop s.tool_calls_started)
    ∙ scan-end_by s s.finish_reason

-- Whether one of the events is the last of the provider's stream.
abbrev pub any_ends : List Text → Bool
any_ends [] = false
any_ends (event ∷ events) = ends_stream event || any_ends events

pub or_false : (a b : Bool) → (a || b) ≡ false → (a ≡ false) × (b ≡ false)
or_false true b h = absurd (cc h)
or_false false b h = (refl, h)

module _ (from_str : Text → Option Value) (fallback_id now_millis : Text) where
  -- The events of a stream, one after the other.
  unfoldable pub run : List Text → StreamState → Step
  unfolding openai_to_anthropic_messages_stream
  run [] s = (s, [])
  run (event ∷ events) s =
      openai_to_anthropic_messages_stream from_str fallback_id now_millis event s then_do run events

  run-Keeps :
      (events : List Text) (s : StreamState)
      → any_ends events ≡ false
      → IsSound s
      → Keeps s (run events s)
  unfolding run
  run-Keeps [] s h k = (unfold scan in refl, k)
  run-Keeps (event ∷ events) s h k =
      let (p, q) = or_false (ends_stream event) (any_ends events) h in
      let step = openai_to_anthropic_messages_stream from_str fallback_id now_millis event s in
      let one = stream-Keeps from_str fallback_id now_millis event s p k in
      then_do-Keeps s step (run events) one (run-Keeps events step.0 q one.1)

  pub at_end :
      (last : Text) (s : StreamState)
      → ends_stream last ≡ true
      → openai_to_anthropic_messages_stream from_str fallback_id now_millis last s
        ≡ (s, done_output s)
  unfolding openai_to_anthropic_messages_stream on_trimmed
  at_end last s e = if_true (ends_stream last) _ _ e

  -- Where a provider sends events of which at least one begins the message, none of them the last, and
  -- then the last one, what is written follows the protocol of a stream of messages to its end:
  -- `message_start` comes first and only once; text is written only in a block of its own index that
  -- was started and is not stopped, and no block of text is started while another is open; a tool call
  -- is stopped only after it was started and not again before another start; and every block of text
  -- and every tool call that was started is stopped before the message ends with `message_stop`, or
  -- with an error. Whether two blocks have different indices is not said.
  pub run-over :
      (events : List Text) (last : Text)
      → any_ends events ≡ false
      → ends_stream last ≡ true
      → (run events default_state).0.has_started ≡ true
      → scan before (
          (run events default_state).1
          ++ (openai_to_anthropic_messages_stream from_str fallback_id now_millis last
              (run events default_state).0).1)
        ≡ some over
  run-over events last h e b =
      let s = (run events default_state).0 in
      let (p, k) = run-Keeps events default_state h (inr (refl, refl, refl)) in
      let out = (openai_to_anthropic_messages_stream from_str fallback_id now_millis last s).1 in
      scan-append before (stage_of s) (run events default_state).1 out p
      ∙ ap (λ x. scan (stage_at x s) out) b
      ∙ ap (λ (r : Step). scan (stage_at true s) r.1) (at_end last s e)
      ∙ scan-done_output s
