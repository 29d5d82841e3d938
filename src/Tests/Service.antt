-- ===== src/Tests/Service.antt =====
-- What the service states of an upstream, and the images of a request, at concrete inputs.
use phala_llm_router.Base.{
  true, false, List, [], ◌∷◌, none, some, Text, codes, text_eq, text_discrete, ℕ_discrete, ◌≡◌,
  refl,
}
use phala_llm_router.Dict
use phala_llm_router.Dict.{contains}
use phala_llm_router.ErrorResponse.{openai}
use phala_llm_router.ErrorResponse.Images.{
  classify_image_input_error, extract_error_message, remote_image_urls, is_2xx, is_remote,
  names_url, image_message, find_named, value_urls, part_urls, item_urls, image_part_url,
  host_tokens, is_host_char, text_contains, url_host, host_part, message_references_host,
  normalize_upstream_error_parts,
}
use phala_llm_router.ErrorResponse.Images.Named.{
  classify_image_input_error-remote_image_urls, normalize_upstream_error_parts-Given, Given,
}
use phala_llm_router.Json.{
  Value, string, object, array, nil, cons, end, field, Fields, get_field, get_key, as_str,
}
use phala_llm_router.Receipts.Types.{UpstreamVerifiedEvent, verified}
use phala_llm_router.Service.Claims.{no_claims}
use phala_llm_router.Service.Claims.Instance.{
  chutes_instance_id, per_instance_session_claims, chutes_instance_id,
}
use phala_llm_router.Service.Claims.Slice.{SameFor, per_instance_session_claims-SameFor}
use phala_llm_router.Service.Errors.{mapped}
use phala_llm_router.Service.Sessions.{
  SealedSession, in_memory, sealed_with, seal_attested_session, no_evidence,
}
use phala_llm_router.Service.Sessions.Content.{IdOrStoreError, seal_attested_session-seal}
use phala_llm_router.Session.{AttestedSession, e2ee_public_key_sha256, strip_prefix, after_first}
use phala_llm_router.Session.Index.{empty}
use phala_llm_router.Tests.Data.{codecs}

-- A report of two Chutes instances; the second of them differs.
abbrev report : Text → Fields
report other = field (codes "chute_id") (string (codes "c")) (
    field (codes "instance_tcb_statuses")
      (object
        (field (codes "a") (string (codes "UpToDate")) (field (codes "b") (string other) end)))
      end)

abbrev event : Text → UpstreamVerifiedEvent
event other = record {
  upstream_name = codes "up";
  provider_type = some (codes "chutes");
  model_id = codes "m";
  url_origin = none;
  verifier_id = codes "v";
  result = verified;
  required = true;
  reason = none;
  evidence = none;
  channel_bindings =
      e2ee_public_key_sha256 (codes "chutes") (some (codes "a")) (codes "x") (codes "d") ∷ [];
  provider_claims = some (object (report other));
}

abbrev fresh_b : UpstreamVerifiedEvent
fresh_b = event (codes "UpToDate")

abbrev stale_b : UpstreamVerifiedEvent
stale_b = event (codes "Revoked")

only_b_differs : SameFor (codes "a") fresh_b stale_b
unfolding get_field get_key text_discrete ℕ_discrete
only_b_differs = record {
  m = report (codes "UpToDate");
  m' = report (codes "Revoked");
  provider_type = refl;
  verifier_id = refl;
  result = refl;
  claims = refl;
  claims' = refl;
  same = record {
    shared = (refl, (refl, (refl, (refl, tt))));
    tcb = refl;
    measurement = refl;
    gpu = refl;
  };
}

per_instance_session_claims-SameFor_example :
    per_instance_session_claims fresh_b (codes "a")
    ≡ per_instance_session_claims stale_b (codes "a")
per_instance_session_claims-SameFor_example =
    per_instance_session_claims-SameFor (codes "a") fresh_b stale_b only_b_differs

seal_attested_session-seal_example :
    IdOrStoreError in_memory codecs
      (seal_attested_session in_memory codecs empty stale_b none [] no_claims no_evidence 5 9).1
      (mapped
        (λ (s : AttestedSession). s.session_id)
        (sealed_with codecs stale_b none [] no_claims 5 9 no_evidence))
seal_attested_session-seal_example =
    seal_attested_session-seal in_memory codecs empty stale_b none [] no_claims no_evidence 5 9

abbrev sealed : List SealedSession
sealed =
    record {
      instance_key = some (codes "a");
      session_id = codes "as_\"up\"";
      claims = per_instance_session_claims stale_b (codes "a");
    }
    ∷ []

-- A request with the URL of an image, and an upstream that names its host.
abbrev url : Text
url = codes "https://a.co/x"

abbrev image : Value
image = object (
    field (codes "type") (string (codes "input_image"))
      (field (codes "image_url") (string url) end))

abbrev request_value : Value
request_value = object (field (codes "input") (array (cons image nil)) end)

abbrev error_value : Value
error_value = object (field (codes "error") (string (codes "no host a.co:443")) end)

classified :
    classify_image_input_error
      (λ b. some error_value)
      (λ b. some b)
      (λ t. some request_value)
      (codes "image")
      500
      []
    ≡ some (image_message url)
unfolding classify_image_input_error extract_error_message remote_image_urls find_named value_urls
    item_urls part_urls image_part_url names_url text_contains url_host host_part host_tokens
    is_host_char message_references_host contains after_first strip_prefix get_key get_field as_str
    text_eq text_discrete ℕ_discrete
classified = refl

classify_image_input_error-remote_image_urls_example :
    (is_2xx 500 ≡ false)
    × (message : Text) × (url : Text) × (extract_error_message
          (λ b. some error_value)
          (λ b. some b)
          (λ t. some request_value)
          []
        ≡ some message)
    × (image_message (codes "https://a.co/x") ≡ image_message url)
    × (names_url message url ≡ true)
    × (contains url (
          remote_image_urls
            (λ b. some error_value)
            (λ b. some b)
            (λ t. some request_value)
            (codes "image"))
        ≡ true)
    × (is_remote url ≡ true)
classify_image_input_error-remote_image_urls_example =
    classify_image_input_error-remote_image_urls (λ b. some error_value) (λ b. some b)
      (λ t. some request_value) (codes "image") 500 [] (image_message (codes "https://a.co/x"))
      classified

normalize_upstream_error_parts-Given_example :
    Given
      (normalize_upstream_error_parts
        (λ b. some error_value)
        (λ b. some b)
        (λ t. some request_value)
        openai
        401
        []
        (codes "image")
        none).0
normalize_upstream_error_parts-Given_example =
    normalize_upstream_error_parts-Given (λ b. some error_value) (λ b. some b)
      (λ t. some request_value) openai 401 [] (codes "image") none
