-- ===== src/Streaming/Messages.antt =====
-- `openai_to_anthropic_messages_stream` of middleware/stream_transform.rs: chunks of an OpenAI
-- completion become the events of an Anthropic message. The output is the list of the events that the
-- code writes out one after the other; `sse_text` is how one is written.
pub mod Handler
pub mod Blocks
pub mod Tools
pub mod Whole
pub mod Stops
use phala_llm_router.Base.{
  ℕ, ◌==◌, Bool, true, false, ◌&&◌, ◌||◌, not, List, [], ◌∷◌, ◌++◌, map, Option, none, some,
  is_some, or_default, Text, codes, text_eq, if◌then◌else◌,
}
use phala_llm_router.Json.{
  Value, Items, nil, cons, null, string, number, array, object, end, field, get_key, as_str,
  pos_int, neg_int,
}
use phala_llm_router.Streaming.Int64.{
  ℤ, pos, negsuc, ◌+ℤ◌, wrap64, eqz, as_i64, or_zero, has_index, insert_index,
}
use phala_llm_router.Upstream.Prepare.{and_then}

-- The fields of `StreamState` that this direction uses.
pub record StreamState : Type 0 where
  pub model : Option Text
  pub id : Option Text
  pub input_tokens : ℤ
  pub output_tokens : ℤ
  pub has_started : Bool
  pub content_block_started : Bool
  pub current_content_index : ℤ
  pub tool_calls_started : List ℤ
  pub finish_reason : Option Text

-- `StreamState::default()`
abbrev pub default_state : StreamState
default_state = record {
  model = none;
  id = none;
  input_tokens = pos 0;
  output_tokens = pos 0;
  has_started = false;
  content_block_started = false;
  current_content_index = pos 0;
  tool_calls_started = [];
  finish_reason = none;
}

-- The events that are written. The block of the text and that of a tool are stopped alike.
pub data MessageEvent : Type 0 where
  message_start : Text → Text → ℤ → MessageEvent
  text_start : ℤ → MessageEvent
  text_delta : ℤ → Text → MessageEvent
  text_stop tool_stop : ℤ → MessageEvent
  tool_start : ℤ → Text → Text → MessageEvent
  tool_delta : ℤ → Text → MessageEvent
  error_event : Text → MessageEvent
  message_delta : Text → ℤ → ℤ → MessageEvent
  message_stop : MessageEvent

abbrev int : ℤ → Value
int (pos n) = number (pos_int n)
int (negsuc n) = number (neg_int n)

abbrev stop_value : ℤ → Value
stop_value index = object (
    field (codes "type") (string (codes "content_block_stop"))
      (field (codes "index") (int index) end))

abbrev block_start : ℤ → Value → Value
block_start index block = object (
    field (codes "type") (string (codes "content_block_start"))
      (field (codes "index") (int index) (field (codes "content_block") block end)))

abbrev block_delta : ℤ → Value → Value
block_delta index delta = object (
    field (codes "type") (string (codes "content_block_delta"))
      (field (codes "index") (int index) (field (codes "delta") delta end)))

abbrev two : Text → Value → Text → Value → Value
two k v j w = object (field k v (field j w end))

abbrev start_message : Text → Text → ℤ → Value
start_message id model input = object (
    field (codes "id") (string id) (
      field (codes "type") (string (codes "message")) (
        field (codes "role") (string (codes "assistant")) (
          field (codes "content") (array nil) (
            field (codes "model") (string model) (
              field (codes "stop_reason") null (
                field (codes "stop_sequence") null (
                  field (codes "usage")
                    (two (codes "input_tokens") (int input) (codes "output_tokens") (int (pos 0)))
                    end))))))))

abbrev tool_block : Text → Text → Value
tool_block id name = object (
    field (codes "type") (string (codes "tool_use")) (
      field (codes "id") (string id)
        (field (codes "name") (string name) (field (codes "input") (object end) end))))

abbrev delta_value : Text → ℤ → ℤ → Value
delta_value reason input output = object (
    field (codes "type") (string (codes "message_delta")) (
      field (codes "delta") (two (codes "stop_reason") (string reason) (codes "stop_sequence") null)
        (field (codes "usage")
          (two (codes "input_tokens") (int input) (codes "output_tokens") (int output)) end)))

-- `sse_event`
unfoldable pub sse_event : (Value → Text) → Text → Value → Text
sse_event json_str event value =
    codes "event: " ++ event ++ codes "\ndata: " ++ json_str value ++ codes "\n\n"

unfoldable pub sse_text : (Value → Text) → MessageEvent → Text
unfolding sse_event
sse_text j (message_start id model input) = sse_event j (codes "message_start") (
    two (codes "type") (string (codes "message_start")) (codes "message")
      (start_message id model input))
sse_text j (text_start i) =
    sse_event j (codes "content_block_start")
      (block_start i (two (codes "type") (string (codes "text")) (codes "text") (string [])))
sse_text j (text_delta i t) =
    sse_event j (codes "content_block_delta")
      (block_delta i (two (codes "type") (string (codes "text_delta")) (codes "text") (string t)))
sse_text j (text_stop i) = sse_event j (codes "content_block_stop") (stop_value i)
sse_text j (tool_stop i) = sse_event j (codes "content_block_stop") (stop_value i)
sse_text j (tool_start i id name) =
    sse_event j (codes "content_block_start") (block_start i (tool_block id name))
sse_text j (tool_delta i t) = sse_event j (codes "content_block_delta") (
    block_delta i
      (two (codes "type") (string (codes "input_json_delta")) (codes "partial_json") (string t)))
sse_text j (error_event e) = sse_event j (codes "error") (
    two (codes "type") (string (codes "error")) (codes "error") (
      two (codes "type") (string e) (codes "message")
        (string (codes "The upstream provider returned an error"))))
sse_text j (message_delta r i o) = sse_event j (codes "message_delta") (delta_value r i o)
sse_text j message_stop = codes "event: message_stop\ndata: {\"type\": \"message_stop\"}\n\n"
