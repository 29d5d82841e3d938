-- ===== src/ErrorResponse/Images/Named.antt =====
-- What the client is told of an image that could not be fetched, and under which status.
use phala_llm_router.Base.{
  ℕ, leb, ◌≤◌, true, false, ◌&&◌, List, [], ◌∷◌, Option, none, some, Text, codes, text_discrete,
  if_pos, ◌≡◌, refl, sym, ◌∙◌, inl, inr, Bool-cases, or_default, if_true, if_false, arith, subst,
}
use phala_llm_router.Canonical.{Bytes}
use phala_llm_router.Dict.{contains}
use phala_llm_router.ErrorResponse.{Surface, is_actionable_client_error, map_upstream_status-bounds}
use phala_llm_router.ErrorResponse.Images.{
  image_parts, with_url, part_urls, item_urls, value_urls, is_remote, names_url, find_named,
  image_message, is_2xx, remote_image_urls, extract_error_message, classify_image_input_error,
  normalize_upstream_error_parts, told, text_contains, image_part_url, urls_of, urls_in, items_of,
  classified, sanitized, actionable, provider_error,
}
use phala_llm_router.Json.{Value, Items, nil, cons, get_key}

-- Every URL is a remote one.
abbrev AllRemote : List Text → Type 0
AllRemote [] = Unit {0}
AllRemote (url ∷ urls) = (is_remote url ≡ true) × AllRemote urls

with_url-AllRemote :
    (o : Option Text) (urls : List Text) → AllRemote urls → AllRemote (with_url o urls)
with_url-AllRemote none urls h = h
with_url-AllRemote (some url) urls h = elim (Bool-cases (is_remote url)) [
  | inl e ↦ subst AllRemote (sym (if_true (is_remote url) _ _ e)) (e, h)
  | inr e ↦ subst AllRemote (sym (if_false (is_remote url) _ _ e)) h
]

part_urls-AllRemote :
    (parts : Items) (urls : List Text) → AllRemote urls → AllRemote (part_urls parts urls)
unfolding part_urls
part_urls-AllRemote nil urls h = h
part_urls-AllRemote (cons part parts) urls h =
    with_url-AllRemote (image_part_url part) _ (part_urls-AllRemote parts urls h)

item_urls-AllRemote :
    (items : Items) (urls : List Text) → AllRemote urls → AllRemote (item_urls items urls)
unfolding item_urls
item_urls-AllRemote nil urls h = h
item_urls-AllRemote (cons item items) urls h = with_url-AllRemote (image_part_url item) _ (
    part_urls-AllRemote (items_of (get_key (codes "content") item)) _
      (item_urls-AllRemote items urls h))

urls_of-AllRemote : (o : Option Value) → AllRemote (urls_of o)
unfolding value_urls
urls_of-AllRemote none = tt
urls_of-AllRemote (some value) =
    item_urls-AllRemote (items_of (get_key (codes "messages") value)) _
      (item_urls-AllRemote (items_of (get_key (codes "input") value)) [] tt)

-- A URL that is found is named by the message, is one of the list, and is remote if all are.
abbrev Found : Text → List Text → Text → Type 0
Found message urls url =
    (names_url message url ≡ true) × (contains url urls ≡ true) × (is_remote url ≡ true)

find_named-Found :
    (message : Text) (urls : List Text) (url : Text)
    → AllRemote urls
    → find_named message urls ≡ some url
    → Found message urls url
unfolding find_named contains
find_named-Found message [] url r h = absurd (cc h)
find_named-Found message (u ∷ urls) url (r, rs) h = elim (Bool-cases (names_url message u)) [
  | inl e ↦
      let same : some u ≡ some url = sym (if_true (names_url message u) _ _ e) ∙ h in
      let same' : u ≡ url = cc same in
      subst (Found message (u ∷ urls)) same' (e, if_pos (text_discrete u u) refl true _, r)
  | inr e ↦
      let (n, c, m) =
        find_named-Found message urls url rs (sym (if_false (names_url message u) _ _ e) ∙ h) in
      (n, ground (arith, c), m)
]

told-some :
    (o : Option Text) (m : Text)
    → told o ≡ some m
    → (url : Text) × (o ≡ some url) × (m ≡ image_message url)
told-some none m h = absurd (cc h)
told-some (some url) m h = (url, refl, cc h)

none-some : (m : Text) → ◌≡◌ {A = Option Text} none (some m) → ⊥
none-some m h = cc h

-- A status that a client may be given for an upstream's error.
abbrev pub Given : ℕ → Type 0
Given status = (400 ≤ status) × (status ≤ 504) × ((leb 401 status && leb status 403) ≡ false)

module _ (from_slice : Bytes → Option Value) (from_utf8 : Bytes → Option Text)
    (from_str : Text → Option Value) where
  urls_in-AllRemote : (o : Option Text) → AllRemote (urls_in from_slice from_utf8 from_str o)
  urls_in-AllRemote none = tt
  urls_in-AllRemote (some text) = elim (Bool-cases (text_contains text (codes "image"))) [
    | inl e ↦ subst AllRemote (sym (if_true _ _ _ e)) (urls_of-AllRemote (from_str text))
    | inr e ↦ subst AllRemote (sym (if_false _ _ _ e)) tt
  ]

  remote_image_urls-AllRemote :
      (body : Bytes) → AllRemote (remote_image_urls from_slice from_utf8 from_str body)
  unfolding remote_image_urls
  remote_image_urls-AllRemote body = urls_in-AllRemote (from_utf8 body)

  classified-Found :
      (o : Option Text) (received_body : Bytes) (m : Text)
      → classified from_slice from_utf8 from_str o received_body ≡ some m
      → (message : Text) × (url : Text) × (o ≡ some message)
        × (m ≡ image_message url)
        × Found message (remote_image_urls from_slice from_utf8 from_str received_body) url
  classified-Found none received_body m h = absurd (cc h)
  classified-Found (some message) received_body m h =
      let urls = remote_image_urls from_slice from_utf8 from_str received_body in
      let (url, e, t) = told-some (find_named message urls) m h in
      (
        message,
        url,
        refl,
        t,
        find_named-Found message urls url (remote_image_urls-AllRemote received_body) e,
      )

  -- If an upstream's error is told as an image that could not be fetched, whatever the parsers, then
  -- the status is not 2xx; the error has a message; and what the client is told names a URL that is
  -- among the image URLs of its own request, that starts with https:// or http://, and that the
  -- upstream's message names, by itself or by its host.
  pub classify_image_input_error-remote_image_urls :
      (received_body : Bytes) (upstream_status : ℕ) (upstream_body : Bytes) (m : Text)
      → classify_image_input_error from_slice from_utf8 from_str received_body upstream_status
          upstream_body
        ≡ some m
      → (is_2xx upstream_status ≡ false)
        × (message : Text) × (url : Text) × (extract_error_message from_slice from_utf8 from_str
              upstream_body
            ≡ some message)
        × (m ≡ image_message url)
        × (names_url message url ≡ true)
        × (contains url (remote_image_urls from_slice from_utf8 from_str received_body) ≡ true)
        × (is_remote url ≡ true)
  unfolding classify_image_input_error
  classify_image_input_error-remote_image_urls received_body upstream_status upstream_body m h =
      elim (Bool-cases (is_2xx upstream_status)) [
        | inl e ↦ absurd (none-some m (sym (if_true (is_2xx upstream_status) _ _ e) ∙ h))
        | inr e ↦
            let (message, url, x, t, (n, c, r)) =
              classified-Found (extract_error_message from_slice from_utf8 from_str upstream_body)
                received_body m (sym (if_false (is_2xx upstream_status) _ _ e) ∙ h) in
            (e, message, url, x, t, n, c, r)
      ]

  image_parts-Given :
      (surface : Surface) (request_id o : Option Text) (d : ℕ × Value)
      → Given d.0
      → Given (or_default (image_parts from_slice from_utf8 from_str surface request_id o) d).0
  image_parts-Given surface request_id none d h = h
  image_parts-Given surface request_id (some m) d h = (omega arith, omega arith, refl)

  sanitized-Given :
      (surface : Surface) (status : ℕ) (request_id : Option Text)
      → Given (sanitized from_slice from_utf8 from_str surface status request_id).0
  sanitized-Given surface status request_id = map_upstream_status-bounds status

  actionable-Given :
      (surface : Surface) (status : ℕ) (o request_id : Option Text)
      → is_actionable_client_error status ≡ true
      → Given (actionable from_slice from_utf8 from_str surface status o request_id).0
  unfolding is_actionable_client_error
  actionable-Given surface status none request_id h = sanitized-Given surface status request_id
  actionable-Given surface status (some m) request_id h =
      (ground (arith, h), ground (arith, h), ground (arith, h))

  provider_error-Given :
      (surface : Surface) (status : ℕ) (body : Bytes) (request_id : Option Text)
      → Given (provider_error from_slice from_utf8 from_str surface status body request_id).0
  provider_error-Given surface status body request_id =
      elim (Bool-cases (is_actionable_client_error status)) [
        | inl e ↦
            subst (λ (p : ℕ × Value). Given p.0) (sym (if_true _ _ _ e))
              (actionable-Given surface status
                (extract_error_message from_slice from_utf8 from_str body) request_id e)
        | inr e ↦
            subst (λ (p : ℕ × Value). Given p.0) (sym (if_false _ _ _ e))
              (sanitized-Given surface status request_id)
      ]

  -- Whatever an upstream answers and whatever its body is, the status that the client is given for it
  -- is at least 400, at most 504 and never one of 401 to 403, which would speak of the gateway's own
  -- account at the upstream.
  pub normalize_upstream_error_parts-Given :
      (surface : Surface) (upstream_status : ℕ) (body received_body : Bytes)
      (request_id : Option Text)
      → Given
          (normalize_upstream_error_parts from_slice from_utf8 from_str surface upstream_status body
            received_body request_id).0
  unfolding normalize_upstream_error_parts
  normalize_upstream_error_parts-Given surface upstream_status body received_body request_id =
      image_parts-Given surface request_id _
        (provider_error from_slice from_utf8 from_str surface upstream_status body request_id)
        (provider_error-Given surface upstream_status body request_id)
