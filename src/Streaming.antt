-- ===== src/Streaming.antt =====
-- The split of a provider's byte stream into events, and their transform one after the other:
-- `SseTransformStream` of middleware/stream_transform.rs. What `apply` makes of an event and the
-- lossy decoding of its bytes are parameters here; Streaming.Messages has the transform of one
-- direction.
pub mod Split
pub mod Drain
pub mod Chunks
pub mod Int64
pub mod Reads
pub mod KeepAlive
pub mod Messages
use phala_llm_router.Router.Text.{Endpoint, chat_complete, complete, messages}
use phala_llm_router.Router.Types.{ProviderFormat, openai, anthropic}
use phala_llm_router.Base.{
  ℕ, zero, suc, ◌+◌, ◌==◌, Bool, true, false, ◌&&◌, List, [], ◌∷◌, ◌++◌, Option, none, some, Text,
  codes, length, if◌then◌else◌,
}
use phala_llm_router.Base.Lists.{take, drop_first}
use phala_llm_router.Canonical.{Bytes}

pub data StreamTransform : Type 0 where
  anthropic_to_openai_chat openai_to_anthropic_messages : StreamTransform
  anthropic_complete_to_openai : StreamTransform

unfoldable pub split_pattern : StreamTransform → Bytes
split_pattern anthropic_complete_to_openai = codes "\r\n\r\n"
split_pattern _ = codes "\n\n"

unfoldable pub provider : StreamTransform → Text
provider openai_to_anthropic_messages = codes "openai"
provider _ = codes "anthropic"

unfoldable pub select_stream_transform : ProviderFormat → Endpoint → Option StreamTransform
select_stream_transform anthropic chat_complete = some anthropic_to_openai_chat
select_stream_transform anthropic complete = some anthropic_complete_to_openai
select_stream_transform openai messages = some openai_to_anthropic_messages
select_stream_transform _ _ = none

-- Whether a list begins with another.
unfoldable pub starts_with : Bytes → Bytes → Bool
starts_with [] s = true
starts_with (c ∷ p) [] = false
starts_with (c ∷ p) (d ∷ s) = let rest = starts_with p s in c == d && rest

abbrev pub and_one : Option ℕ → Option ℕ
and_one none = none
and_one (some n) = some (suc n)

-- `windows(needle.len()).position(|w| w == needle)`, for a needle that is not empty: a window that is
-- cut short by the end does not begin with it.
unfoldable pub find_subslice : Bytes → Bytes → Option ℕ
unfolding starts_with
find_subslice [] needle = none
find_subslice (c ∷ s) needle =
    let rest = find_subslice s needle in if starts_with needle (c ∷ s) then some 0 else and_one rest

-- What a transform answers to an event: `Ok(Some(out))`, `Ok(None)` or `Err(())`.
pub data Applied : Type 0 where
  emits : Text → Applied
  skips rejects : Applied

-- `queue` has every output since the start of the stream.
pub record SseTransform (S : Type 0) : Type 0 where
  pub state : S
  pub buffer : Bytes
  pub queue : List Text
  pub inner_done : Bool

-- What the inner stream is polled to.
pub data Polled : Type 0 where
  chunk : Bytes → Polled
  ends fails pending : Polled

module _ {S : Type 0} (split : Bytes) (apply : S → Bytes → S × Applied) where
  abbrev pub answer : SseTransform S → S × Applied → SseTransform S × Bool
  answer t (state, emits out) = (record t { state = state; queue = t.queue ++ out ∷ [] }, true)
  answer t (state, skips) = (record t { state = state }, true)
  answer t (state, rejects) = (record t { state = state }, false)

  unfoldable pub emit : SseTransform S → Bytes → SseTransform S × Bool
  emit t [] = (t, true)
  emit t (c ∷ event) = answer t (apply t.state (c ∷ event))

  -- The rest of an iteration of the loop of `drain_buffer`, after `emit`; `rest` is the next one.
  abbrev pub after_emit : SseTransform S × Bool → (SseTransform S → SseTransform S) → SseTransform S
  after_emit (t, true) rest = rest t
  after_emit (t, false) rest = record t { inner_done = true; buffer = [] }

  -- An iteration of the loop of `drain_buffer`, the delimiter searched for.
  abbrev pub drain_at :
      SseTransform S → Option ℕ → (SseTransform S → SseTransform S) → SseTransform S
  drain_at t none rest = t
  drain_at t (some pos) rest =
      after_emit
        (emit (record t { buffer = drop_first (pos + length split) t.buffer }) (take pos t.buffer))
        rest

  -- The loop of `drain_buffer`, on fuel: each round takes the delimiter out of the buffer, so the length
  -- of the buffer is enough.
  unfoldable pub drain : ℕ → SseTransform S → SseTransform S
  unfolding find_subslice emit take
  drain zero t = t
  drain (suc fuel) t = drain_at t (find_subslice t.buffer split) (drain fuel)

  unfoldable pub drain_buffer : SseTransform S → SseTransform S
  unfolding drain
  drain_buffer t = drain (length t.buffer) t

  unfoldable pub flush_residual : SseTransform S → SseTransform S
  unfolding emit
  flush_residual t = (emit (record t { buffer = [] }) t.buffer).0

  -- The arms of `match this.inner.as_mut().poll_next(cx)`. A stream that is done is polled no more.
  unfoldable pub poll_inner : SseTransform S → Polled → SseTransform S
  unfolding drain_buffer flush_residual
  poll_inner t (chunk bytes) =
      if t.inner_done then t else drain_buffer (record t { buffer = t.buffer ++ bytes })
  poll_inner t ends = if t.inner_done then t else flush_residual (record t { inner_done = true })
  poll_inner t fails = if t.inner_done then t else record t { inner_done = true; buffer = [] }
  poll_inner t pending = t

  unfoldable pub poll_all : SseTransform S → List Polled → SseTransform S
  unfolding poll_inner
  poll_all t [] = t
  poll_all t (p ∷ ps) = poll_all (poll_inner t p) ps

abbrev pub fresh : {S : Type 0} → S → SseTransform S
fresh state = record { state = state; buffer = []; queue = []; inner_done = false }
