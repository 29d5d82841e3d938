-- ===== src/Router/Text.antt =====
-- The bounded routing text of a request: `BoundedText` and the walk over the JSON body.
use phala_llm_router.Base.{
  ℕ, zero, suc, ◌==◌, Bool, true, false, [], ◌∷◌, ◌++◌, Option, none, some, Text, codes,
  if◌then◌else◌, ite, text_discrete, or_default,
}
use phala_llm_router.Json.{
  Value, Items, Fields, null, bool, number, string, array, object, nil, cons, end, field, get_key,
  as_str,
}
use phala_llm_router.Number.{number_text}

abbrev pub max_routing_history_chars : ℕ
max_routing_history_chars = 16384

pub record BoundedText : Type 0 where
  pub out : Text
  pub remaining : ℕ

abbrev pub new : ℕ → BoundedText
new max_chars = record { out = []; remaining = max_chars }

abbrev pub is_full : BoundedText → Bool
is_full b = b.remaining == 0

-- The loop of `push`: `out`, the characters to come, what remains.
unfoldable pub push_from : Text → Text → ℕ → BoundedText
push_from out [] n = record { out = out; remaining = n }
push_from out (c ∷ t) zero = record { out = out; remaining = zero }
push_from out (c ∷ t) (suc n) = push_from (out ++ c ∷ []) t n

unfoldable pub push : BoundedText → Text → BoundedText
push b t = push_from b.out t b.remaining

abbrev pub is_empty : Text → Bool
is_empty [] = true
is_empty (c ∷ t) = false

unfoldable pub separator : BoundedText → Text → BoundedText
separator b t = if is_empty b.out then b else push b t

abbrev pub or_else : Option BoundedText → Option BoundedText → Option BoundedText
or_else (some b) o = some b
or_else none o = o

-- `append_prompt_value`, with the loop over an array's items and `Map::get` on an object's fields.
unfoldable mutual
  unfolding push separator

  pub append_value : Value → BoundedText → BoundedText
  append_value null b = b
  append_value (bool x) b = b
  append_value (number n) b = if is_full b then b else push b (number_text n)
  append_value (string s) b = if is_full b then b else push b s
  append_value (array items) b = if is_full b then b else append_first items b
  append_value (object fs) b =
      if is_full b
      then b
      else or_default
          (or_else (append_field (codes "text") fs b) (append_field (codes "content") fs b)) b

  pub append_first : Items → BoundedText → BoundedText
  append_first nil b = b
  append_first (cons v vs) b =
      let b1 = append_value v b in let rest = append_rest vs b1 in if is_full b1 then b1 else rest

  pub append_rest : Items → BoundedText → BoundedText
  append_rest nil b = b
  append_rest (cons v vs) b =
      let b1 = append_value v (separator b (codes " ")) in
      let rest = append_rest vs b1 in if is_full b1 then b1 else rest

  pub append_field : Text → Fields → BoundedText → Option BoundedText
  append_field k end b = none
  append_field k (field j v fs) b =
      let here = append_value v b in
      let later = append_field k fs b in ite (text_discrete j k) (some here) later

unfoldable pub append_prompt : Option Value → BoundedText → BoundedText
unfolding append_value
append_prompt none b = b
append_prompt (some v) b = append_value v b

-- `msg.get("role").and_then(Value::as_str).unwrap_or("")`
unfoldable pub role_of : Value → Text
unfolding get_key as_str
role_of msg = elim (get_key (codes "role") msg) [ none ↦ [] | some v ↦ or_default (as_str v) [] ]

-- One message of `append_messages`.
unfoldable pub append_message : Value → BoundedText → BoundedText
unfolding push separator append_prompt role_of
append_message msg b =
    append_prompt (get_key (codes "content") msg)
      (push (push (separator b (codes "\n")) (role_of msg)) (codes ":"))

unfoldable pub append_messages : Items → BoundedText → BoundedText
unfolding append_message
append_messages nil b = b
append_messages (cons msg msgs) b =
    let b1 = append_message msg b in
    let rest = append_messages msgs b1 in if is_full b1 then b1 else rest

pub data Endpoint : Type 0 where
  complete embed messages chat_complete create_model_response : Endpoint

abbrev pub as_array : Option Value → Items
as_array (some (array items)) = items
as_array _ = nil

unfoldable pub append_request : Value → Endpoint → BoundedText → BoundedText
append_request params complete b = append_prompt (get_key (codes "prompt") params) b
append_request params embed b = append_prompt (get_key (codes "input") params) b
append_request params messages b = append_messages (as_array (get_key (codes "messages") params)) b
append_request params chat_complete b =
    append_messages (as_array (get_key (codes "messages") params)) b
append_request params create_model_response b = append_prompt (get_key (codes "input") params) b

unfoldable pub bounded_routing_text : Value → Endpoint → Text
bounded_routing_text params endpoint =
    (append_request params endpoint (new max_routing_history_chars)).out

unfoldable pub limit_chars : Text → ℕ → Text
unfolding push
limit_chars t max_chars = (push (new max_chars) t).out

-- `common_prefix_chars`
unfoldable pub common_prefix_chars : Text → Text → ℕ
common_prefix_chars [] t = 0
common_prefix_chars (c ∷ s) [] = 0
common_prefix_chars (c ∷ s) (d ∷ t) =
    let rest = common_prefix_chars s t in if c == d then suc rest else 0
