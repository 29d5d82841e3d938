-- ===== src/Streaming/Messages/Handler.antt =====
-- The handler: the events of one chunk, and the state after it. No event stands for `None`.
use phala_llm_router.Streaming.Reads.{
  trim_start, trim_end, strip_prefix, ends_with, filled, or_else, text_at, i64_field, non_zero,
}
use phala_llm_router.Canonical.{Bytes}
use phala_llm_router.Streaming.{Applied, emits, skips}
use phala_llm_router.Base.{
  Bool, true, false, ◌&&◌, ◌||◌, not, List, [], ◌∷◌, ◌++◌, map, Option, none, some, or_default,
  Text, codes, text_eq, if◌then◌else◌,
}
use phala_llm_router.Json.{Value, Items, nil, cons, array, get_key, as_str}
use phala_llm_router.Streaming.Int64.{
  ℤ, pos, ◌+ℤ◌, wrap64, as_i64, or_zero, has_index, insert_index,
}
use phala_llm_router.Streaming.Messages.{
  sse_text, StreamState, MessageEvent, message_start, text_start, text_delta, text_stop, tool_stop,
  tool_start, tool_delta, error_event, message_delta, message_stop,
}
use phala_llm_router.Upstream.Prepare.{and_then}

-- The state and the events so far, and what follows them.
abbrev pub Step : Type 0
Step = StreamState × List MessageEvent

infixl 5 ◌then_do◌
abbrev pub ◌then_do◌ : Step → (StreamState → Step) → Step
(state, out) then_do f = ((f state).0, out ++ (f state).1)

-- `map_finish_reason`
unfoldable pub map_finish_reason : Option Text → Text
unfolding text_eq
map_finish_reason none = codes "end_turn"
map_finish_reason (some r) =
    if text_eq r (codes "length")
    then codes "max_tokens"
    else if text_eq r (codes "tool_calls") || text_eq r (codes "function_call")
    then codes "tool_use"
    else codes "end_turn"

abbrev pub is_error_finish : Text → Bool
is_error_finish r = text_eq r (codes "error") || ends_with (codes "_error") r

abbrev pub error_type : Text → Text
error_type r = if ends_with (codes "_error") r then r else codes "api_error"

abbrev pub normal_end : StreamState → List MessageEvent
normal_end s =
    message_delta (map_finish_reason s.finish_reason) s.input_tokens s.output_tokens
    ∷ message_stop
    ∷ []

abbrev pub end_by : StreamState → Option Text → List MessageEvent
end_by s none = normal_end s
end_by s (some r) = if is_error_finish r then error_event (error_type r) ∷ [] else normal_end s

-- The output at the end of the stream.
unfoldable pub done_output : StreamState → List MessageEvent
unfolding ends_with map_finish_reason
done_output s =
    (if s.content_block_started then text_stop s.current_content_index ∷ [] else [])
    ++ (map tool_stop s.tool_calls_started ++ end_by s s.finish_reason)

-- The id, the model and the usage of a chunk.
abbrev usage_input : Value → ℤ → ℤ
usage_input parsed other = elim (get_key (codes "usage") parsed) [
  | none ↦ other
  | some usage ↦ non_zero (i64_field usage (codes "prompt_tokens")) other
]

abbrev usage_output : Value → ℤ → ℤ
usage_output parsed other = elim (get_key (codes "usage") parsed) [
  | none ↦ other
  | some usage ↦ non_zero (i64_field usage (codes "completion_tokens")) other
]

unfoldable pub absorb : Value → StreamState → StreamState
unfolding i64_field get_key as_str
absorb parsed s = record s {
  id = or_else (text_at (codes "id") parsed) s.id;
  model = or_else (text_at (codes "model") parsed) s.model;
  input_tokens = usage_input parsed s.input_tokens;
  output_tokens = usage_output parsed s.output_tokens;
}

module _ (fallback_id now_millis : Text) where
  abbrev pub last_id : Text
  last_id = or_default (filled (some fallback_id)) (codes "msg_" ++ now_millis)

  unfoldable pub start : Value → StreamState → Step
  unfolding i64_field get_key as_str
  start parsed s = if s.has_started then (s, []) else (
    record s { has_started = true },
    message_start
          (or_default (or_else (filled (text_at (codes "id") parsed)) (filled s.id)) last_id)
          (or_default (or_else (filled (text_at (codes "model") parsed)) (filled s.model))
            (codes "unknown"))
          (usage_input parsed s.input_tokens)
        ∷ [],
  )

-- The content of a delta.
unfoldable pub emit_content : Option Text → StreamState → Step
emit_content none s = (s, [])
emit_content (some content) s =
    if s.content_block_started then (s, text_delta s.current_content_index content ∷ []) else (
      record s { content_block_started = true },
      text_start s.current_content_index ∷ text_delta s.current_content_index content ∷ [],
    )

abbrev pub with_tool : ℤ → StreamState → StreamState
with_tool index s = record s { tool_calls_started = insert_index index s.tool_calls_started }

unfoldable pub start_tool : ℤ → Option Text → Option Text → StreamState → Step
unfolding has_index insert_index
start_tool index (some id) (some name) s =
    if s.content_block_started && not (has_index index s.tool_calls_started)
    then (
      record (with_tool index s) { content_block_started = false },
      text_stop s.current_content_index ∷ tool_start index id name ∷ [],
    )
    else (with_tool index s, tool_start index id name ∷ [])
start_tool index id name s = (s, [])

abbrev pub tool_arguments : ℤ → Option Text → StreamState → Step
tool_arguments index none s = (s, [])
tool_arguments index (some arguments) s = (s, tool_delta index arguments ∷ [])

abbrev pub tool_field : Text → Value → Option Text
tool_field k tool_call = and_then (get_key (codes "function") tool_call) (text_at k)

abbrev pub tool_index : Value → StreamState → ℤ
tool_index tool_call s = wrap64 (
    wrap64 (s.current_content_index +ℤ pos 1)
    +ℤ or_zero (and_then (get_key (codes "index") tool_call) as_i64))

abbrev pub tool_id : Value → Option Text
tool_id tool_call = filled (text_at (codes "id") tool_call)

abbrev pub tool_arguments_of : Value → Option Text
tool_arguments_of tool_call = filled (tool_field (codes "arguments") tool_call)

-- The body of the loop over the tool calls.
unfoldable pub emit_tool : Value → StreamState → Step
unfolding start_tool as_i64 get_key as_str
emit_tool tool_call s =
    start_tool (tool_index tool_call s) (tool_id tool_call) (tool_field (codes "name") tool_call) s
    then_do tool_arguments (tool_index tool_call s) (tool_arguments_of tool_call)

unfoldable pub emit_tools : Items → StreamState → Step
unfolding emit_tool
emit_tools nil s = (s, [])
emit_tools (cons tool_call rest) s = emit_tool tool_call s then_do emit_tools rest

abbrev pub items_at : Text → Option Value → Items
items_at k none = nil
items_at k (some v) = elim (get_key k v) [
  | none ↦ nil
  | some w ↦ elim w [ array is ↦ is | _ ↦ nil ]
]

unfoldable pub note_finish : Value → StreamState → Step
unfolding get_key as_str
note_finish choice s = (
  record s { finish_reason = or_else (text_at (codes "finish_reason") choice) s.finish_reason },
  [],
)

abbrev pub content_of : Value → Option Text
content_of choice = filled (and_then (get_key (codes "delta") choice) (text_at (codes "content")))

-- What the first choice of a chunk adds.
unfoldable pub emit_choice : Items → StreamState → Step
unfolding emit_content emit_tools note_finish
emit_choice nil s = (s, [])
emit_choice (cons choice others) s =
    emit_content (content_of choice) s
    then_do emit_tools (items_at (codes "tool_calls") (get_key (codes "delta") choice))
    then_do note_finish choice

abbrev pub is_done : Text → Bool
is_done chunk = text_eq chunk (codes "data: [DONE]") || text_eq chunk (codes "[DONE]")

-- The events, written out.
unfoldable pub sse_texts : (Value → Text) → List MessageEvent → Text
unfolding sse_text
sse_texts json_str [] = []
sse_texts json_str (e ∷ es) = sse_text json_str e ++ sse_texts json_str es

module _ (from_str : Text → Option Value) (fallback_id now_millis : Text) where
  unfoldable pub on_chunk : Value → StreamState → Step
  unfolding absorb start emit_choice
  on_chunk parsed s =
      start fallback_id now_millis parsed (absorb parsed s)
      then_do emit_choice (items_at (codes "choices") (some parsed))

  abbrev pub on_payload : Option Value → StreamState → Step
  on_payload none s = (s, [])
  on_payload (some parsed) s = on_chunk parsed s

  unfoldable pub on_payload_text : Text → StreamState → Step
  unfolding on_chunk
  on_payload_text [] s = (s, [])
  on_payload_text (c ∷ payload) s = on_payload (from_str (c ∷ payload)) s

  -- The chunk of an event, by the two tests of it.
  unfoldable pub on_trimmed : Text → StreamState → Step
  unfolding on_payload_text strip_prefix done_output text_eq
  on_trimmed chunk s =
      if is_done chunk
      then (s, done_output s)
      else on_payload_text (or_default (strip_prefix (codes "data: ") chunk) chunk) s

  unfoldable pub openai_to_anthropic_messages_stream : Text → StreamState → Step
  unfolding on_trimmed trim_start trim_end
  openai_to_anthropic_messages_stream event s = on_trimmed (trim_end (trim_start event)) s

  -- The answer of `apply` on this path: what is written, if anything.
  abbrev pub answer_of : (Value → Text) → Step → StreamState × Applied
  answer_of json_str (s, []) = (s, skips)
  answer_of json_str (s, e ∷ es) = (s, emits (sse_texts json_str (e ∷ es)))

  -- `StreamTransform::apply` for `OpenaiToAnthropicMessages`, with `String::from_utf8_lossy` before it.
  unfoldable pub apply :
      (Value → Text) → (Bytes → Text) → StreamState → Bytes → StreamState × Applied
  unfolding openai_to_anthropic_messages_stream sse_texts
  apply json_str from_utf8_lossy s event_bytes =
      answer_of json_str (openai_to_anthropic_messages_stream (from_utf8_lossy event_bytes) s)
