-- ===== src/Streaming/Messages/Blocks.antt =====
-- The protocol of an Anthropic stream, and that what is written follows it.
use phala_llm_router.Base.{
  if_true, if_false, if◌then◌else◌, ◌⊎◌, Bool, true, false, List, [], ◌∷◌, ◌++◌, Option, none, some,
  Text, codes, ◌≡◌, refl, sym, ap, ◌∙◌, subst, arith, inl, inr,
}
use phala_llm_router.Json.{Value, Items, nil, cons, get_key}
use phala_llm_router.Streaming.Int64.{ℤ, eqz, insert_index}
use phala_llm_router.Streaming.Messages.Tools.{eqz_iff}
use phala_llm_router.Streaming.Messages.{
  StreamState, MessageEvent, message_start, text_start, text_delta, text_stop, tool_stop,
  tool_start, tool_delta, error_event, message_delta, message_stop,
}
use phala_llm_router.Streaming.Reads.{trim_start, trim_end}
use phala_llm_router.Streaming.Messages.Handler.{
  tool_index, tool_id, tool_arguments_of, content_of, tool_field, items_at, on_payload,
  on_payload_text, on_trimmed, Step, ◌then_do◌, emit_content, start_tool, tool_arguments, emit_tool,
  emit_tools, emit_choice, note_finish, start, absorb, on_chunk, is_done,
  openai_to_anthropic_messages_stream,
}
use phala_llm_router.Upstream.Prepare.{and_then}

-- Where a message is: not begun, with these tool calls open and no block of text, with a block of text
-- of this index open too, or over.
pub data Stage : Type 0 where
  before : Stage
  closed : List ℤ → Stage
  opened : ℤ → List ℤ → Stage
  over : Stage

-- The other tool calls, if one of this index is open.
unfoldable pub removed : ℤ → List ℤ → Option (List ℤ)
removed i [] = none
removed i (j ∷ js) =
    let rest = removed i js in if eqz i j then some js else and_then rest (λ ks. some (j ∷ ks))

-- What may follow: the message begins once and first; text is written in a block of its index that is
-- started and not stopped; a tool call is stopped only if it is open; and the message ends with no
-- block of text and no tool call open.
abbrev pub next : Stage → MessageEvent → Option Stage
next before (message_start id model input) = some (closed [])
next (closed t) (text_start i) = some (opened i t)
next (opened i t) (text_delta j x) = if eqz i j then some (opened i t) else none
next (opened i t) (text_stop j) = if eqz i j then some (closed t) else none
next (opened i t) (tool_start j id name) = some (opened i (insert_index j t))
next (opened i t) (tool_delta j x) = some (opened i t)
next (closed t) (tool_start j id name) = some (closed (insert_index j t))
next (closed t) (tool_delta j x) = some (closed t)
next (closed t) (tool_stop j) = and_then (removed j t) (λ rest. some (closed rest))
next (closed []) (message_delta r i o) = some (closed [])
next (closed []) message_stop = some over
next (closed []) (error_event e) = some over
next _ _ = none

unfoldable pub scan : Stage → List MessageEvent → Option Stage
scan g [] = some g
scan g (e ∷ es) = and_then (next g e) (λ g'. scan g' es)

and_then-some {ℓ κ} :
    {A : Type ℓ} {B : Type κ} (o : Option A) (f : A → Option B) (b : B)
    → and_then o f ≡ some b
    → (a : A) × (o ≡ some a) × (f a ≡ some b)
and_then-some none f b h = absurd (cc h)
and_then-some (some a) f b h = (a, refl, h)

pub scan-append :
    (g g' : Stage) (xs ys : List MessageEvent)
    → scan g xs ≡ some g'
    → scan g (xs ++ ys) ≡ scan g' ys
unfolding scan
scan-append g g' [] ys h = ap (λ x. scan x ys) (cc h)
scan-append g g' (x ∷ xs) ys h =
    let (s, p, q) = and_then-some (next g x) (λ s. scan s xs) g' h in
    ap (λ o. and_then o (λ s. scan s (xs ++ ys))) p ∙ scan-append s g' xs ys q

abbrev pub stage : Bool → Bool → ℤ → List ℤ → Stage
stage false is_open i t = before
stage true false i t = closed t
stage true true i t = opened i t

-- The stage of a state, whether or not its message has begun.
abbrev pub stage_at : Bool → StreamState → Stage
stage_at begun s = stage begun s.content_block_started s.current_content_index s.tool_calls_started

-- A step of a message that has begun follows the protocol.
abbrev pub Follows : (StreamState → Step) → Type 0
Follows f =
    (s : StreamState)
    → s.has_started ≡ true
    → (scan (stage_at true s) (f s).1 ≡ some (stage_at true (f s).0)) × ((f s).0.has_started ≡ true)

pub eqz_self : (i : ℤ) → eqz i i ≡ true
eqz_self i = (eqz_iff i i).1 refl

then_do-Follows : (f g : StreamState → Step) → Follows f → Follows g → Follows (λ s. f s then_do g)
then_do-Follows f g a b s h =
    let (p, k) = a s h in
    let (q, l) = b (f s).0 k in (scan-append _ _ (f s).1 (g (f s).0).1 p ∙ q, l)

emit_content-Follows : (o : Option Text) → Follows (emit_content o)
unfolding emit_content scan
emit_content-Follows none s h = (refl, h)
emit_content-Follows (some t) s h = ground (arith, eqz_self s.current_content_index)

start_tool-Follows : (i : ℤ) (id name : Option Text) → Follows (start_tool i id name)
unfolding start_tool scan
start_tool-Follows i (some id) (some name) s h = ground (arith, eqz_self s.current_content_index)
start_tool-Follows i (some id) none s h = (refl, h)
start_tool-Follows i none name s h = (refl, h)

tool_arguments-Follows : (i : ℤ) (a : Option Text) → Follows (tool_arguments i a)
unfolding scan
tool_arguments-Follows i none s h = (refl, h)
tool_arguments-Follows i (some a) s h = ground arith

emit_tool-Follows : (v : Value) → Follows (emit_tool v)
unfolding emit_tool
emit_tool-Follows v s h =
    let i = tool_index v s in
    let id = tool_id v in
    let name = tool_field (codes "name") v in
    let a = tool_arguments_of v in
    then_do-Follows (start_tool i id name) (tool_arguments i a) (start_tool-Follows i id name)
      (tool_arguments-Follows i a) s h

emit_tools-Follows : (vs : Items) → Follows (emit_tools vs)
unfolding emit_tools
emit_tools-Follows nil s h = (unfold scan in refl, h)
emit_tools-Follows (cons v vs) s h =
    then_do-Follows (emit_tool v) (emit_tools vs) (emit_tool-Follows v) (emit_tools-Follows vs) s h

note_finish-Follows : (v : Value) → Follows (note_finish v)
unfolding note_finish scan
note_finish-Follows v s h = (refl, h)

emit_choice-Follows : (vs : Items) → Follows (emit_choice vs)
unfolding emit_choice
emit_choice-Follows nil s h = (unfold scan in refl, h)
emit_choice-Follows (cons v vs) s h =
    let content = content_of v in
    let tools = items_at (codes "tool_calls") (get_key (codes "delta") v) in
    then_do-Follows (λ x. emit_content content x then_do emit_tools tools) (note_finish v)
      (then_do-Follows (emit_content content) (emit_tools tools) (emit_content-Follows content)
        (emit_tools-Follows tools))
      (note_finish-Follows v) s h

-- A message that has not begun has no block open.
abbrev pub IsSound : StreamState → Type 0
IsSound s =
    (s.has_started ≡ true)
    ⊎ ((s.has_started ≡ false) × (s.content_block_started ≡ false) × (s.tool_calls_started ≡ []))

abbrev pub stage_of : StreamState → Stage
stage_of s = stage_at s.has_started s

-- What a step from a sound state has.
abbrev pub Keeps : StreamState → Step → Type 0
Keeps s r = (scan (stage_of s) r.1 ≡ some (stage_of r.0)) × IsSound r.0

Follows-Keeps :
    (f : StreamState → Step) (s : StreamState) → Follows f → s.has_started ≡ true → Keeps s (f s)
Follows-Keeps f s a h =
    let (p, k) = a s h in
    (
      ap (λ b. scan (stage_at b s) (f s).1) h ∙ p ∙ ap (λ b. some (stage_at b (f s).0)) (sym k),
      inl k,
    )

pub then_do-Keeps :
    (s : StreamState) (r : Step) (f : StreamState → Step)
    → Keeps s r
    → Keeps r.0 (f r.0)
    → Keeps s (r then_do f)
then_do-Keeps s r f (p, k) (q, l) = (scan-append _ _ r.1 (f r.0).1 p ∙ q, l)

start_message :
    (a b : Bool) (i : ℤ) (t : List ℤ) (id model : Text) (input : ℤ)
    → a ≡ false
    → b ≡ false
    → t ≡ []
    → scan (stage a b i t) (message_start id model input ∷ []) ≡ some (stage true b i t)
unfolding scan
start_message false false i t id model input h k l = ap (λ x. some (closed x)) (sym l)
start_message true b i t id model input h k l = absurd (cc h)
start_message false true i t id model input h k l = absurd (cc k)

start-Keeps :
    (fallback_id now_millis : Text) (v : Value) (s : StreamState)
    → IsSound s
    → Keeps s (start fallback_id now_millis v s)
      × ((start fallback_id now_millis v s).0.has_started ≡ true)
unfolding start
start-Keeps fallback_id now_millis v s (inl h) =
    subst (λ r. Keeps s r × (r.0.has_started ≡ true)) (sym (if_true s.has_started _ _ h))
      ((unfold scan in refl, inl h), h)
start-Keeps fallback_id now_millis v s (inr (h, k, l)) =
    subst (λ r. Keeps s r × (r.0.has_started ≡ true)) (sym (if_false s.has_started _ _ h))
      ((start_message s.has_started s.content_block_started _ _ _ _ _ h k l, inl refl), refl)

-- Whether an event is the last of the provider's stream.
abbrev pub ends_stream : Text → Bool
ends_stream event = is_done (trim_end (trim_start event))

module _ (from_str : Text → Option Value) (fallback_id now_millis : Text) where
  on_chunk-Keeps :
      (v : Value) (s : StreamState)
      → IsSound s
      → Keeps s (on_chunk from_str fallback_id now_millis v s)
  unfolding on_chunk absorb
  on_chunk-Keeps v s k =
      let (a, h) = start-Keeps fallback_id now_millis v (absorb v s) k in
      let vs = items_at (codes "choices") (some v) in
      then_do-Keeps s (start fallback_id now_millis v (absorb v s)) (emit_choice vs) a (
        Follows-Keeps (emit_choice vs) (start fallback_id now_millis v (absorb v s)).0
          (emit_choice-Follows vs) h)

  on_payload-Keeps :
      (o : Option Value) (s : StreamState)
      → IsSound s
      → Keeps s (on_payload from_str fallback_id now_millis o s)
  unfolding scan
  on_payload-Keeps none s k = (refl, k)
  on_payload-Keeps (some v) s k = on_chunk-Keeps v s k

  on_payload_text-Keeps :
      (t : Text) (s : StreamState)
      → IsSound s
      → Keeps s (on_payload_text from_str fallback_id now_millis t s)
  unfolding on_payload_text
  on_payload_text-Keeps [] s k = (unfold scan in refl, k)
  on_payload_text-Keeps (c ∷ t) s k = on_payload-Keeps (from_str (c ∷ t)) s k

  pub stream-Keeps :
      (event : Text) (s : StreamState)
      → ends_stream event ≡ false
      → IsSound s
      → Keeps s (openai_to_anthropic_messages_stream from_str fallback_id now_millis event s)
  unfolding openai_to_anthropic_messages_stream on_trimmed
  stream-Keeps event s h k =
      subst (Keeps s) (sym (if_false (ends_stream event) _ _ h)) (on_payload_text-Keeps _ s k)
