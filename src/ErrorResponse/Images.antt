-- ===== src/ErrorResponse/Images.antt =====
-- The images of a request that an upstream could not fetch: `extract_error_message` to
-- `normalize_upstream_error_parts` of middleware/errors.rs. The parser of JSON and of UTF-8 are parameters.
pub mod Named
use phala_llm_router.Base.{
  ℕ, ◌==◌, leb, ltb, Bool, true, false, ◌&&◌, ◌||◌, not, List, [], ◌∷◌, ◌++◌, Option, none, some,
  is_some, or_default, Text, codes, text_eq, if◌then◌else◌, ◌≡◌, refl, sym, ap, ◌∙◌, ◌⊎◌, inl, inr,
  Bool-cases, Option-cases, if_true, if_false, arith,
}
use phala_llm_router.Canonical.{Bytes}
use phala_llm_router.Dict.{contains}
use phala_llm_router.ErrorResponse.{
  Surface, openai, anthropic, error_type, envelope, map_upstream_status, is_actionable_client_error,
  upstream_message,
}
use phala_llm_router.Json.{Value, string, array, object, Fields, get_key, as_str, Items, nil, cons}
use phala_llm_router.Session.{strip_prefix, after_first}
use phala_llm_router.Upstream.Prepare.{and_then}

abbrev pub or_else {ℓ} : {A : Type ℓ} → Option A → Option A → Option A
or_else none o = o
or_else (some a) o = some a

-- `get(key).and_then(Value::as_str)`
abbrev pub str_at : Text → Value → Option Text
str_at key v = and_then (get_key key v) as_str

abbrev error_text : Value → Option Text
error_text (string message) = some message
error_text error = str_at (codes "message") error

-- `url_host` and `message_references_host`

-- The part of a URL before the first of `/`, `:`, `?` and `#`.
unfoldable pub host_part : Text → Text
host_part [] = []
host_part (c ∷ s) =
    let rest = host_part s in if c == 47 || c == 58 || c == 63 || c == 35 then [] else c ∷ rest

abbrev non_empty : Text → Option Text
non_empty [] = none
non_empty (c ∷ s) = some (c ∷ s)

abbrev host_of : Option Text → Option Text
host_of none = none
host_of (some rest) = non_empty (host_part rest)

unfoldable pub url_host : Text → Option Text
unfolding strip_prefix host_part
url_host url =
    host_of (or_else (strip_prefix (codes "https://") url) (strip_prefix (codes "http://") url))

unfoldable pub is_host_char : ℕ → Bool
is_host_char c =
    (leb 48 c && leb c 57)
    || (leb 65 c && leb c 90)
    || (leb 97 c && leb c 122)
    || c == 46
    || c == 45

-- `message.split(…)`; the first argument is the token so far, backwards.
abbrev pub extend_first : ℕ → List Text → List Text
extend_first c [] = (c ∷ []) ∷ []
extend_first c (t ∷ ts) = (c ∷ t) ∷ ts

unfoldable pub host_tokens : Text → List Text
unfolding is_host_char
host_tokens [] = [] ∷ []
host_tokens (c ∷ s) =
    let rest = host_tokens s in if is_host_char c then extend_first c rest else [] ∷ rest

-- `haystack.contains(needle)`
unfoldable pub text_contains : Text → Text → Bool
unfolding after_first
text_contains haystack needle = is_some (after_first needle haystack)

unfoldable pub message_references_host : Text → Text → Bool
unfolding text_contains host_tokens contains
message_references_host message host =
    text_contains host (codes ".") && contains host (host_tokens message)

abbrev url_or_text : Value → Option Text
url_or_text v = or_else (as_str v) (str_at (codes "url") v)

-- `source.filter(…)`
abbrev source_url : Value → Option Text
source_url source = elim (str_at (codes "type") source) [
  | none ↦ none
  | some t ↦ if text_eq t (codes "url") then str_at (codes "url") source else none
]

abbrev part_url : Option Text → Value → Option Text
part_url none part = none
part_url (some t) part =
    if text_eq t (codes "image_url") || text_eq t (codes "input_image")
    then and_then (get_key (codes "image_url") part) url_or_text
    else if text_eq t (codes "image")
    then and_then (get_key (codes "source") part) source_url
    else none

unfoldable pub image_part_url : Value → Option Text
unfolding get_key as_str text_eq
image_part_url part = part_url (str_at (codes "type") part) part

abbrev pub starts_with : Text → Text → Bool
starts_with url p = is_some (strip_prefix p url)

abbrev pub is_remote : Text → Bool
is_remote url = starts_with url (codes "https://") || starts_with url (codes "http://")

-- The remote URL of a part, in front of the others.
abbrev pub with_url : Option Text → List Text → List Text
with_url none urls = urls
with_url (some url) urls = if is_remote url then url ∷ urls else urls

unfoldable pub part_urls : Items → List Text → List Text
unfolding image_part_url strip_prefix
part_urls nil urls = urls
part_urls (cons part parts) urls = with_url (image_part_url part) (part_urls parts urls)

abbrev pub items_of : Option Value → Items
items_of (some (array items)) = items
items_of v = nil

-- The URLs of an item and of the parts nested in it.
unfoldable pub item_urls : Items → List Text → List Text
unfolding part_urls get_key
item_urls nil urls = urls
item_urls (cons item items) urls =
    let rest = item_urls items urls in
    with_url (image_part_url item) (part_urls (items_of (get_key (codes "content") item)) rest)

unfoldable pub value_urls : Value → List Text
unfolding item_urls
value_urls value =
    item_urls (items_of (get_key (codes "messages") value))
      (item_urls (items_of (get_key (codes "input") value)) [])

abbrev pub urls_of : Option Value → List Text
urls_of none = []
urls_of (some value) = value_urls value

-- `message` names the URL, or its host.
abbrev names_host : Text → Option Text → Bool
names_host message none = false
names_host message (some host) = message_references_host message host

unfoldable pub names_url : Text → Text → Bool
unfolding text_contains url_host message_references_host
names_url message url = text_contains message url || names_host message (url_host url)

unfoldable pub find_named : Text → List Text → Option Text
unfolding names_url
find_named message [] = none
find_named message (url ∷ urls) =
    let rest = find_named message urls in if names_url message url then some url else rest

unfoldable pub image_message : Text → Text
image_message url =
    codes "Failed to fetch the image at the provided URL: "
    ++ (url ++ codes ". Ensure the URL is correct and publicly accessible.")

abbrev pub told : Option Text → Option Text
told none = none
told (some url) = some (image_message url)

abbrev pub is_2xx : ℕ → Bool
is_2xx status = leb 200 status && ltb status 300

module _ (from_slice : Bytes → Option Value) (from_utf8 : Bytes → Option Text)
    (from_str : Text → Option Value) where
  unfoldable pub extract_error_message : Bytes → Option Text
  unfolding get_key as_str
  extract_error_message body =
      and_then (and_then (from_slice body) (get_key (codes "error"))) error_text

  abbrev pub urls_in : Option Text → List Text
  urls_in none = []
  urls_in (some text) = if text_contains text (codes "image") then urls_of (from_str text) else []

  unfoldable pub remote_image_urls : Bytes → List Text
  unfolding text_contains value_urls
  remote_image_urls request_body = urls_in (from_utf8 request_body)

  abbrev pub classified : Option Text → Bytes → Option Text
  classified none received_body = none
  classified (some message) received_body =
      told (find_named message (remote_image_urls received_body))

  unfoldable pub classify_image_input_error : Bytes → ℕ → Bytes → Option Text
  unfolding extract_error_message remote_image_urls find_named image_message
  classify_image_input_error received_body upstream_status upstream_body =
      if is_2xx upstream_status
      then none
      else classified (extract_error_message upstream_body) received_body

  abbrev pub image_parts : Surface → Option Text → Option Text → Option (ℕ × Value)
  image_parts surface request_id none = none
  image_parts surface request_id (some message) =
      some (400, envelope surface (error_type surface 400) message request_id)

  unfoldable pub image_input_error_parts :
      Surface → Bytes → ℕ → Bytes → Option Text → Option (ℕ × Value)
  unfolding classify_image_input_error envelope error_type
  image_input_error_parts surface received_body upstream_status upstream_body request_id =
      image_parts surface request_id
        (classify_image_input_error received_body upstream_status upstream_body)

  abbrev pub sanitized : Surface → ℕ → Option Text → ℕ × Value
  sanitized surface upstream_status request_id =
      let status = map_upstream_status upstream_status in
      (
        status,
        envelope surface (error_type surface status) (upstream_message upstream_status) request_id,
      )

  -- The provider's own message, where there is one.
  abbrev pub actionable : Surface → ℕ → Option Text → Option Text → ℕ × Value
  actionable surface upstream_status none request_id = sanitized surface upstream_status request_id
  actionable surface upstream_status (some message) request_id =
      (upstream_status, envelope surface (error_type surface upstream_status) message request_id)

  abbrev pub provider_error : Surface → ℕ → Bytes → Option Text → ℕ × Value
  provider_error surface upstream_status body request_id =
      if is_actionable_client_error upstream_status
      then actionable surface upstream_status (extract_error_message body) request_id
      else sanitized surface upstream_status request_id

  unfoldable pub normalize_upstream_error_parts :
      Surface → ℕ → Bytes → Bytes → Option Text → ℕ × Value
  unfolding image_input_error_parts is_actionable_client_error map_upstream_status upstream_message
  normalize_upstream_error_parts surface upstream_status body received_body request_id =
      or_default (image_input_error_parts surface received_body upstream_status body request_id)
        (provider_error surface upstream_status body request_id)
