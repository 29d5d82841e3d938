-- ===== src/Streaming/Messages/Tools.antt =====
-- The tool calls that a message starts are those that its end stops.
use phala_llm_router.Base.{
  if_true, if_false, Bool, true, false, ◌||◌, List, [], ◌∷◌, ◌++◌, Option, none, some, Text, codes,
  ◌≡◌, ◌↔◌, refl, sym, ap, ◌∙◌, arith, Bool-cases, inl, inr,
}
use phala_llm_router.Json.{Value, Items, nil, cons, get_key}
use phala_llm_router.Streaming.Int64.{ℤ, pos, negsuc, eqz, ltz, has_index, insert_index}
use phala_llm_router.Streaming.Messages.{
  StreamState, MessageEvent, message_start, text_start, text_delta, text_stop, tool_stop,
  tool_start, tool_delta, error_event, message_delta, message_stop,
}
use phala_llm_router.Streaming.Messages.Handler.{
  Step, ◌then_do◌, emit_content, start_tool, tool_arguments, emit_tool, emit_tools, emit_choice,
  note_finish, tool_index, tool_id, tool_arguments_of, content_of, tool_field, items_at,
}

pub eqz_iff : (x y : ℤ) → (eqz x y ≡ true) ↔ (x ≡ y)
eqz_iff (pos a) (pos b) = (λ h. ap pos (ground arith), λ h. ground arith)
eqz_iff (negsuc a) (negsuc b) = (λ h. ap negsuc (ground arith), λ h. ground arith)
eqz_iff (pos a) (negsuc b) = (λ h. absurd (cc h), λ h. absurd (cc h))
eqz_iff (negsuc a) (pos b) = (λ h. absurd (cc h), λ h. absurd (cc h))

or_same : (a b : Bool) → (a || b) ≡ (a || (a || b))
or_same true b = refl
or_same false b = refl

or_swap : (a b c : Bool) → (a || (b || c)) ≡ (b || (a || c))
or_swap true true c = refl
or_swap true false c = refl
or_swap false b c = refl

or_assoc : (a b c : Bool) → ((a || b) || c) ≡ (a || (b || c))
or_assoc true b c = refl
or_assoc false b c = refl

has_index-insert :
    (i j : ℤ) (js : List ℤ) → has_index i (insert_index j js) ≡ (eqz i j || has_index i js)
unfolding has_index insert_index
has_index-insert i j [] = refl
has_index-insert i j (y ∷ js) = elim (Bool-cases (eqz j y)) [
  | inl e ↦
      let same = (eqz_iff j y).0 e in
      ap (has_index i) (if_true (eqz j y) _ _ e)
      ∙ or_same (eqz i y) (has_index i js)
      ∙ ap (λ x. eqz i x || (eqz i y || has_index i js)) (sym same)
  | inr e ↦ ap (has_index i) (if_false (eqz j y) _ _ e) ∙ elim (Bool-cases (ltz j y)) [
    | inl l ↦ ap (has_index i) (if_true (ltz j y) _ _ l)
    | inr l ↦
        ap (has_index i) (if_false (ltz j y) _ _ l)
        ∙ ap (λ r. eqz i y || r) (has_index-insert i j js)
        ∙ or_swap (eqz i y) (eqz i j) (has_index i js)
  ]
]

-- Whether a tool call of an index is started.
unfoldable pub starts_tool : ℤ → List MessageEvent → Bool
starts_tool i [] = false
starts_tool i (tool_start j id name ∷ es) = let rest = starts_tool i es in eqz i j || rest
starts_tool i (e ∷ es) = starts_tool i es

starts_tool-append :
    (i : ℤ) (xs ys : List MessageEvent)
    → starts_tool i (xs ++ ys) ≡ (starts_tool i xs || starts_tool i ys)
unfolding starts_tool
starts_tool-append i [] ys = refl
starts_tool-append i (tool_start j id name ∷ xs) ys =
    ap (λ r. eqz i j || r) (starts_tool-append i xs ys) ∙ sym (or_assoc (eqz i j) _ _)
starts_tool-append i (message_start id model input ∷ xs) ys = starts_tool-append i xs ys
starts_tool-append i (text_start j ∷ xs) ys = starts_tool-append i xs ys
starts_tool-append i (text_delta j t ∷ xs) ys = starts_tool-append i xs ys
starts_tool-append i (text_stop j ∷ xs) ys = starts_tool-append i xs ys
starts_tool-append i (tool_stop j ∷ xs) ys = starts_tool-append i xs ys
starts_tool-append i (tool_delta j t ∷ xs) ys = starts_tool-append i xs ys
starts_tool-append i (error_event e ∷ xs) ys = starts_tool-append i xs ys
starts_tool-append i (message_delta r a b ∷ xs) ys = starts_tool-append i xs ys
starts_tool-append i (message_stop ∷ xs) ys = starts_tool-append i xs ys

-- The indices that the state has are those it had and those that the step starts.
abbrev pub Tracks : StreamState → Step → Type 0
Tracks s r =
    (i : ℤ)
    → has_index i r.0.tool_calls_started ≡ (starts_tool i r.1 || has_index i s.tool_calls_started)

pub then_do-Tracks :
    (s : StreamState) (r : Step) (f : StreamState → Step)
    → Tracks s r
    → Tracks r.0 (f r.0)
    → Tracks s (r then_do f)
then_do-Tracks s r f a b i =
    let here = starts_tool i r.1 in
    let later = starts_tool i (f r.0).1 in
    let had = has_index i s.tool_calls_started in
    b i
    ∙ ap (λ x. later || x) (a i)
    ∙ or_swap later here had
    ∙ sym (or_assoc here later had)
    ∙ ap (λ x. x || had) (sym (starts_tool-append i r.1 (f r.0).1))

emit_content-Tracks : (o : Option Text) (s : StreamState) → Tracks s (emit_content o s)
unfolding emit_content starts_tool
emit_content-Tracks none s i = refl
emit_content-Tracks (some t) s i = ground arith

start_tool-Tracks :
    (j : ℤ) (id name : Option Text) (s : StreamState) → Tracks s (start_tool j id name s)
unfolding start_tool starts_tool
start_tool-Tracks j (some id) (some name) s i =
    let put = has_index-insert i j s.tool_calls_started in ground arith
start_tool-Tracks j (some id) none s i = refl
start_tool-Tracks j none name s i = refl

tool_arguments-Tracks :
    (j : ℤ) (a : Option Text) (s : StreamState) → Tracks s (tool_arguments j a s)
unfolding starts_tool
tool_arguments-Tracks j none s i = refl
tool_arguments-Tracks j (some a) s i = refl

emit_tool-Tracks : (v : Value) (s : StreamState) → Tracks s (emit_tool v s)
unfolding emit_tool
emit_tool-Tracks v s =
    let i = tool_index v s in
    let r = start_tool i (tool_id v) (tool_field (codes "name") v) s in
    then_do-Tracks s r (tool_arguments i (tool_arguments_of v))
      (start_tool-Tracks i (tool_id v) (tool_field (codes "name") v) s)
      (tool_arguments-Tracks i (tool_arguments_of v) r.0)

emit_tools-Tracks : (vs : Items) (s : StreamState) → Tracks s (emit_tools vs s)
unfolding emit_tools
emit_tools-Tracks nil s i = unfold starts_tool in refl
emit_tools-Tracks (cons v vs) s i =
    then_do-Tracks s (emit_tool v s) (emit_tools vs) (emit_tool-Tracks v s)
      (emit_tools-Tracks vs (emit_tool v s).0) i

pub emit_choice-Tracks : (vs : Items) (s : StreamState) → Tracks s (emit_choice vs s)
unfolding emit_choice
emit_choice-Tracks nil s i = unfold starts_tool in refl
emit_choice-Tracks (cons v vs) s i =
    let tools = items_at (codes "tool_calls") (get_key (codes "delta") v) in
    let r = emit_content (content_of v) s in
    let q = r then_do emit_tools tools in
    then_do-Tracks s q (note_finish v)
      (then_do-Tracks s r (emit_tools tools) (emit_content-Tracks (content_of v) s)
        (emit_tools-Tracks tools r.0))
      (λ i. unfold note_finish starts_tool in refl) i
