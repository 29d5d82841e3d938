-- ===== src/Tests/Streaming.antt =====
-- A stream in chunks, and a message.
use phala_llm_router.Streaming.KeepAlive.{
  InnerPoll, yields, waits, finishes, bytes, service_error, WithComments, inner_items, read_all,
  keep_alive, read_all-WithComments,
}
use phala_llm_router.Streaming.Messages.Tools.{starts_tool}
use phala_llm_router.Streaming.Messages.Stops.{stops_tool, run-stops_tool}
use phala_llm_router.Base.{
  ℕ, true, false, List, [], ◌∷◌, ◌++◌, none, some, Text, codes, text_eq, text_discrete, ℕ_discrete,
  ◌≡◌, refl, arith,
}
use phala_llm_router.Canonical.{Bytes}
use phala_llm_router.Json.{
  Value, nil, cons, string, array, object, end, field, get_key, get_field, as_str,
}
use phala_llm_router.Streaming.{
  StreamTransform, split_pattern, SseTransform, Applied, emits, chunk, ends, poll_all, drain,
  drain_buffer, find_subslice, fresh,
}
use phala_llm_router.Streaming.Chunks.{chunks, concat, poll_all-chunks, drain_buffer-IsDrained}
use phala_llm_router.Streaming.Int64.{pos, as_i64}
use phala_llm_router.Streaming.Messages.{default_state}
use phala_llm_router.Streaming.Messages.Blocks.{before, over, scan}
use phala_llm_router.Streaming.Reads.{trim_start, trim_end, strip_prefix, i64_field}
use phala_llm_router.Streaming.Messages.Handler.{
  on_trimmed, on_payload_text, on_chunk, absorb, start, emit_choice, emit_content, emit_tools,
  note_finish, openai_to_anthropic_messages_stream,
}
use phala_llm_router.Streaming.Messages.Whole.{run, run-over}
use phala_llm_router.Upstream.{is_whitespace}

-- An event is handed on as it is.
abbrev echo : Unit {0} → Bytes → Unit {0} × Applied
echo s event = (s, emits event)

abbrev tr : StreamTransform
tr = StreamTransform.openai_to_anthropic_messages

-- The delimiter is cut in two.
poll_all-chunks_example :
    poll_all
      (split_pattern tr)
      echo
      (fresh tt)
      (chunks (codes "ab\n" ∷ codes "\nc" ∷ codes "d" ∷ []) ++ ends ∷ [])
    ≡ poll_all
        (split_pattern tr)
        echo
        (fresh tt)
        (chunk (concat (codes "ab\n" ∷ codes "\nc" ∷ codes "d" ∷ [])) ∷ ends ∷ [])
poll_all-chunks_example =
    poll_all-chunks echo tr (fresh tt) (codes "ab\n") (codes "\nc" ∷ codes "d" ∷ []) (ends ∷ [])

abbrev waiting : SseTransform (Unit {0})
waiting = record { state = tt; buffer = codes "ab\n\nc\n\nd"; queue = []; inner_done = false }

drain_buffer-IsDrained_example :
    (find_subslice (drain_buffer (split_pattern tr) echo waiting).buffer (split_pattern tr) ≡ none)
    × (drain (split_pattern tr) echo 20 waiting ≡ drain_buffer (split_pattern tr) echo waiting)
drain_buffer-IsDrained_example = drain_buffer-IsDrained echo tr waiting 20 (omega arith)

-- One choice with content.
abbrev choice : Value
choice =
    object (field (codes "delta") (object (field (codes "content") (string (codes "hi")) end)) end)

abbrev parsed : Value
parsed = object (field (codes "choices") (array (cons choice nil)) end)

abbrev events : List Text
events = codes "data: {}" ∷ codes "data: {}" ∷ []

message_began : (run (λ t. some parsed) (codes "f") [] events default_state).0.has_started ≡ true
unfolding run openai_to_anthropic_messages_stream on_trimmed on_payload_text on_chunk absorb start
    i64_field emit_choice emit_content emit_tools note_finish trim_start trim_end strip_prefix
    is_whitespace text_eq text_discrete ℕ_discrete get_key get_field as_str as_i64
message_began = refl

run-over_example :
    scan before (
      (run (λ t. some parsed) (codes "f") [] events default_state).1
      ++ (openai_to_anthropic_messages_stream
          (λ t. some parsed)
          (codes "f")
          []
          (codes "data: [DONE]")
          (run (λ t. some parsed) (codes "f") [] events default_state).0).1)
    ≡ some over
unfolding trim_start trim_end is_whitespace text_eq text_discrete ℕ_discrete
run-over_example =
    run-over (λ t. some parsed) (codes "f") [] events (codes "data: [DONE]") refl refl message_began

-- One choice that starts a tool call.
abbrev tool_choice : Value
tool_choice = object (
    field (codes "delta")
      (object (
        field (codes "tool_calls")
          (array (
            cons
              (object (
                field (codes "id") (string (codes "t")) (
                  field (codes "function") (object (field (codes "name") (string (codes "f")) end))
                    end)))
              nil))
          end))
      end)

abbrev tool_parsed : Value
tool_parsed = object (field (codes "choices") (array (cons tool_choice nil)) end)

run-stops_tool_example :
    stops_tool
      (pos 1)
      (openai_to_anthropic_messages_stream
        (λ t. some tool_parsed)
        (codes "f")
        []
        (codes "data: [DONE]")
        (run (λ t. some tool_parsed) (codes "f") [] events default_state).0).1
    ≡ starts_tool (pos 1) (run (λ t. some tool_parsed) (codes "f") [] events default_state).1
unfolding trim_start trim_end is_whitespace text_eq text_discrete ℕ_discrete
run-stops_tool_example =
    run-stops_tool (λ t. some tool_parsed) (codes "f") [] events (codes "data: [DONE]") (pos 1) refl
      refl

-- A chunk, silence for longer than the interval, and an error.
abbrev polls : List (ℕ × InnerPoll)
polls =
    (1, yields (bytes (codes "a")))
    ∷ (3, waits)
    ∷ (9, waits)
    ∷ (10, yields (service_error (codes "e")))
    ∷ (11, finishes)
    ∷ []

read_all-WithComments_example :
    WithComments (inner_items polls) (read_all (keep_alive (some 5) 0) polls)
read_all-WithComments_example = read_all-WithComments (some 5) 0 polls
