-- ===== src/ErrorResponse.antt =====
-- The errors that a client is given: middleware/errors.rs. A body is its JSON value; the writing of
-- headers is left out.
pub mod Images
use phala_llm_router.Base.{
  ℕ, ◌==◌, ◌≤◌, ltb, leb, Bool, false, ◌&&◌, ◌||◌, not, Option, none, some, Text, codes,
  if◌then◌else◌, ◌≡◌, arith,
}
use phala_llm_router.Json.{Value, string, object, end, field}

pub data Surface : Type 0 where
  openai anthropic : Surface

-- The arms that both surfaces have.
abbrev refusal_type : ℕ → Option Text
refusal_type status =
    if status == 401
    then some (codes "authentication_error")
    else if status == 403
    then some (codes "permission_error")
    else if status == 404
    then some (codes "not_found_error")
    else if status == 429
    then some (codes "rate_limit_error")
    else none

abbrev or_text : Option Text → Text → Text
or_text none other = other
or_text (some t) other = t

unfoldable pub error_type : Surface → ℕ → Text
error_type anthropic status = or_text (refusal_type status) (
    if status == 402
    then codes "billing_error"
    else if status == 504
    then codes "timeout_error"
    else if leb 500 status
    then codes "api_error"
    else codes "invalid_request_error")
error_type openai status = or_text (refusal_type status) (
    if status == 402
    then codes "insufficient_quota"
    else if status == 503
    then codes "service_unavailable"
    else if status == 504
    then codes "timeout_error"
    else if leb 500 status
    then codes "upstream_error"
    else codes "invalid_request_error")

unfoldable pub map_upstream_status : ℕ → ℕ
map_upstream_status status =
    if status == 400 || status == 404 || status == 422
    then status
    else if status == 429
    then 429
    else if status == 503
    then 503
    else if status == 504
    then 504
    else 502

unfoldable pub is_actionable_client_error : ℕ → Bool
is_actionable_client_error status =
    leb 400 status && ltb status 500 && not ((leb 401 status && leb status 403) || status == 429)

unfoldable pub upstream_message : ℕ → Text
upstream_message upstream_status =
    if leb 401 upstream_status && leb upstream_status 403
    then codes "The upstream provider is currently unavailable"
    else if upstream_status == 429
    then codes "Rate limit exceeded. Please retry after some time."
    else if upstream_status == 503
    then codes "The model is currently unavailable. Please try again later."
    else if upstream_status == 504
    then codes "The upstream provider timed out"
    else codes "The upstream provider returned an error"

abbrev with_request_id : Option Text → Value → Value → Value
with_request_id none kind error =
    object (field (codes "type") kind (field (codes "error") error end))
with_request_id (some id) kind error = object (
    field (codes "type") kind
      (field (codes "error") error (field (codes "request_id") (string id) end)))

unfoldable pub envelope : Surface → Text → Text → Option Text → Value
envelope anthropic kind message request_id =
    with_request_id request_id (string (codes "error"))
      (object (field (codes "type") (string kind) (field (codes "message") (string message) end)))
envelope openai kind message request_id = object (
    field (codes "error")
      (object (field (codes "message") (string message) (field (codes "type") (string kind) end)))
      end)

-- OpenAI clients get a code too.
unfoldable pub rate_limit_envelope : Surface → Text → Option Text → Value
unfolding envelope
rate_limit_envelope anthropic message request_id =
    envelope anthropic (codes "rate_limit_error") message request_id
rate_limit_envelope openai message request_id = object (
    field (codes "error")
      (object (
        field (codes "message") (string message) (
          field (codes "type") (string (codes "rate_limit_error"))
            (field (codes "code") (string (codes "rate_limit_exceeded")) end))))
      end)

-- A mapped status is between 400 and 504, and not 401, 402 or 403.
pub map_upstream_status-bounds :
    (status : ℕ)
    → (400 ≤ map_upstream_status status)
      × (map_upstream_status status ≤ 504)
      × ((leb 401 (map_upstream_status status) && leb (map_upstream_status status) 403) ≡ false)
unfolding map_upstream_status
map_upstream_status-bounds status = (ground arith, ground arith, ground arith)
