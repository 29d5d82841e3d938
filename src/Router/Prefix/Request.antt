-- ===== src/Router/Prefix/Request.antt =====
-- The routing text of a whole request, for each kind of endpoint.
use phala_llm_router.Base.{
  sym, ℕ, ◌-◌, [], ◌++◌, Option, none, some, Text, codes, ◌≡◌, refl, ap, ◌∙◌, arith, length,
}
use phala_llm_router.Base.Lists.{take, take_all}
use phala_llm_router.Json.{Value, Items, nil, cons, get_key}
use phala_llm_router.Router.Text.{
  new, push, append_prompt, append_message, append_messages, append_request, role_of, as_array,
  Endpoint, complete, embed, messages, chat_complete, create_model_response, bounded_routing_text,
  max_routing_history_chars, limit_chars,
}
use phala_llm_router.Router.Prefix.{separate, full_value, build, push-build}
use phala_llm_router.Router.Prefix.Extends.{
  Extends, Extends-refl, Extends-trans, Extends-separate, value-Extends,
}
use phala_llm_router.Router.Prefix.Walk.{separator-build, full_stays, value-build}

unfoldable full_prompt : Option Value → Text → Text
unfolding full_value
full_prompt none x = x
full_prompt (some v) x = full_value v x

-- A message is its role, a colon and its content, on a line of its own.
unfoldable pub full_message : Value → Text → Text
unfolding full_prompt separate role_of
full_message msg x =
    full_prompt (get_key (codes "content") msg)
      ((separate x (codes "\n") ++ role_of msg) ++ codes ":")

unfoldable pub full_messages : Items → Text → Text
unfolding full_message
full_messages nil x = x
full_messages (cons msg msgs) x = full_messages msgs (full_message msg x)

-- The routing text of a request with no bound on its length.
unfoldable pub full_request : Value → Endpoint → Text
unfolding full_prompt full_messages
full_request params complete = full_prompt (get_key (codes "prompt") params) []
full_request params embed = full_prompt (get_key (codes "input") params) []
full_request params messages = full_messages (as_array (get_key (codes "messages") params)) []
full_request params chat_complete = full_messages (as_array (get_key (codes "messages") params)) []
full_request params create_model_response = full_prompt (get_key (codes "input") params) []

prompt-build :
    (v : Option Value) (n : ℕ) (x : Text) → append_prompt v (build n x) ≡ build n (full_prompt v x)
unfolding append_prompt full_prompt
prompt-build none n x = refl
prompt-build (some v) n x = value-build v n x

prompt-Extends : (v : Option Value) (x : Text) → Extends x (full_prompt v x)
unfolding full_prompt
prompt-Extends none x = Extends-refl x
prompt-Extends (some v) x = value-Extends v x

message-build :
    (msg : Value) (n : ℕ) (x : Text) → append_message msg (build n x) ≡ build n (full_message msg x)
unfolding append_message full_message
message-build msg n x =
    ap (append_prompt (get_key (codes "content") msg)) (
      ap (λ b. push (push b (role_of msg)) (codes ":")) (separator-build n x (codes "\n"))
      ∙ ap (λ b. push b (codes ":")) (push-build n (separate x (codes "\n")) (role_of msg))
      ∙ push-build n (separate x (codes "\n") ++ role_of msg) (codes ":"))
    ∙ prompt-build (get_key (codes "content") msg) n _

message-Extends : (msg : Value) (x : Text) → Extends x (full_message msg x)
unfolding full_message
message-Extends msg x =
    Extends-trans x (separate x (codes "\n")) _ (Extends-separate x (codes "\n")) (
      Extends-trans _ (separate x (codes "\n") ++ role_of msg) _ (role_of msg, refl)
        (Extends-trans _ ((separate x (codes "\n") ++ role_of msg) ++ codes ":") _ (codes ":", refl)
          (prompt-Extends (get_key (codes "content") msg) _)))

messages-Extends : (msgs : Items) (x : Text) → Extends x (full_messages msgs x)
unfolding full_messages
messages-Extends nil x = Extends-refl x
messages-Extends (cons msg msgs) x =
    Extends-trans x (full_message msg x) _ (message-Extends msg x)
      (messages-Extends msgs (full_message msg x))

messages-build :
    (msgs : Items) (n : ℕ) (x : Text)
    → append_messages msgs (build n x) ≡ build n (full_messages msgs x)
unfolding append_messages full_messages
messages-build nil n x = refl
messages-build (cons msg msgs) n x = rw (message-build msg n x) (
    full_stays n (full_message msg x) _ _ (messages-Extends msgs _)
      (messages-build msgs n (full_message msg x)))

request-build :
    (params : Value) (endpoint : Endpoint) (n : ℕ)
    → append_request params endpoint (build n []) ≡ build n (full_request params endpoint)
unfolding append_request full_request
request-build params complete n = prompt-build _ n []
request-build params embed n = prompt-build _ n []
request-build params messages n = messages-build _ n []
request-build params chat_complete n = messages-build _ n []
request-build params create_model_response n = prompt-build _ n []

-- Whatever the request and its endpoint, the routing text, which the code writes with a builder that
-- leaves each loop as soon as it is full, is the first 16384 characters of the text that the same
-- walk writes with no bound and no early exit.
pub bounded-full_request :
    (params : Value) (endpoint : Endpoint)
    → bounded_routing_text params endpoint
      ≡ take max_routing_history_chars (full_request params endpoint)
unfolding bounded_routing_text build take
bounded-full_request params endpoint =
    ap (λ b. b.out) (unfold build in request-build params endpoint max_routing_history_chars)

new-build : (n : ℕ) → new n ≡ build n []
unfolding build
new-build n = λ i. record {
  out = sym (take_all n [] (omega arith)) i;
  remaining = (let e : n ≡ n - length {A = ℕ} [] = omega arith in e i);
}

-- `limit_chars` keeps the first characters.
pub limit_chars-take : (t : Text) (n : ℕ) → limit_chars t n ≡ take n t
unfolding limit_chars build
limit_chars-take t n =
    ap (λ b. (push b t).out) (new-build n) ∙ (unfold build in ap (λ b. b.out) (push-build n [] t))
