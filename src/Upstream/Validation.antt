-- ===== src/Upstream/Validation.antt =====
-- `validate_config` of aggregator/upstream_config/validation.rs.
use phala_llm_router.Base.{
  ℕ, suc, ◌==◌, ltb, leb, Bool, true, false, ◌&&◌, ◌||◌, not, List, [], ◌∷◌, Option, none, some,
  is_some, Text, length, if◌then◌else◌,
}
use phala_llm_router.Dict.{Dict, contains, add, values}
use phala_llm_router.Upstream.{
  UpstreamConfig, is_blank, is_chutes, is_anthropic, Checked, valid, ◌>>=◌, refuse_if, route_id_of,
  blank_name, blank_base_url, no_models, duplicate_name, duplicate_route, blank_public_model,
  blank_upstream_model, zero_timeout, bad_discovery_rounds, blank_chutes_base, no_chute_ids,
  bad_chute_id, chutes_fields_elsewhere, anthropic_without_path,
}

-- `value == Some(0)`
abbrev is_zero : Option ℕ → Bool
is_zero none = false
is_zero (some n) = n == 0

abbrev is_empty {ℓ} : {A : Type ℓ} → List A → Bool
is_empty [] = true
is_empty (x ∷ xs) = false

-- `c == '-' || c.is_ascii_hexdigit()`
abbrev is_uuid_char : ℕ → Bool
is_uuid_char c =
    c == 45 || (leb 48 c && leb c 57) || (leb 65 c && leb c 70) || (leb 97 c && leb c 102)

abbrev all_uuid_chars : Text → Bool
all_uuid_chars [] = true
all_uuid_chars (c ∷ s) = is_uuid_char c && all_uuid_chars s

abbrev dashes : Text → ℕ
dashes [] = 0
dashes (c ∷ s) = let rest = dashes s in if c == 45 then suc rest else rest

-- `value.len()` counts bytes; a text of these characters has as many bytes as characters.
unfoldable pub looks_like_uuid : Text → Bool
looks_like_uuid s = length s == 36 && dashes s == 4 && all_uuid_chars s

unfoldable pub check_chute_ids : List Text → Dict Text → Checked (Unit {0})
unfolding is_blank looks_like_uuid contains
check_chute_ids upstream_models [] = valid tt
check_chute_ids upstream_models ((model_id, chute_id) ∷ rest) = do
  _ ← refuse_if (is_blank model_id) bad_chute_id
  _ ← refuse_if (not (contains model_id upstream_models)) bad_chute_id
  _ ← refuse_if (not (looks_like_uuid chute_id)) bad_chute_id
  check_chute_ids upstream_models rest

abbrev out_of_rounds : Option ℕ → Bool
out_of_rounds none = false
out_of_rounds (some rounds) = rounds == 0 || ltb 10 rounds

abbrev blank_if_given : Option Text → Bool
blank_if_given none = false
blank_if_given (some s) = is_blank s

unfoldable check_given_chute_ids : UpstreamConfig → Option (Dict Text) → Checked (Unit {0})
unfolding check_chute_ids
check_given_chute_ids upstream none = valid tt
check_given_chute_ids upstream (some chute_ids) = do
  _ ← refuse_if (is_empty chute_ids) no_chute_ids
  check_chute_ids (values upstream.models) chute_ids

-- `upstream.path.as_deref().is_none_or(str::is_empty)`
abbrev no_path : Option Text → Bool
no_path none = true
no_path (some p) = is_empty p

-- The checks of one upstream between its name and its models.
unfoldable pub check_fields : UpstreamConfig → Checked (Unit {0})
unfolding is_blank check_given_chute_ids
check_fields u = do
  _ ← refuse_if (is_blank u.base_url) blank_base_url
  _ ← refuse_if (is_empty u.models) no_models
  _ ←
      refuse_if
        (is_zero u.connect_timeout_seconds
          || is_zero u.read_timeout_seconds
          || is_zero u.verifier_request_timeout_seconds
          || is_zero u.verifier_cache_seconds)
        zero_timeout
  _ ← refuse_if (out_of_rounds u.chutes_e2ee_discovery_rounds) bad_discovery_rounds
  _ ← refuse_if (blank_if_given u.chutes_e2ee_api_base) blank_chutes_base
  _ ← check_given_chute_ids u u.chutes_chute_ids
  _ ←
      refuse_if
        (not (is_chutes u.provider)
          && (is_some u.chutes_e2ee_api_base
              || is_some u.chutes_chute_ids
              || is_some u.chutes_e2ee_discovery_rounds
              || is_some u.chutes_e2ee_discovery_interval_seconds))
        chutes_fields_elsewhere
  refuse_if (is_anthropic u.provider && no_path u.path) anthropic_without_path

-- The loop over the models of an upstream; the route ids seen so far go through it.
unfoldable pub check_models : Text → List Text → Dict Text → Checked (List Text)
unfolding is_blank contains add
check_models name seen [] = valid seen
check_models name seen ((public_model, upstream_model) ∷ models) = do
  _ ← refuse_if (is_blank public_model) (blank_public_model name)
  _ ← refuse_if (is_blank upstream_model) (blank_upstream_model public_model)
  _ ←
      refuse_if (contains (route_id_of name public_model) seen)
        (duplicate_route (route_id_of name public_model))
  check_models name (add (route_id_of name public_model) seen) models

-- The loop over the upstreams, with the names and the route ids seen so far.
unfoldable pub validate_from : List Text → List Text → List UpstreamConfig → Checked (Unit {0})
unfolding check_fields check_models is_blank contains add
validate_from names route_ids [] = valid tt
validate_from names route_ids (u ∷ config) = do
  _ ← refuse_if (is_blank u.name) blank_name
  _ ← refuse_if (contains u.name names) (duplicate_name u.name)
  _ ← check_fields u
  route_ids' ← check_models u.name route_ids u.models
  validate_from (add u.name names) route_ids' config

unfoldable pub validate_config : List UpstreamConfig → Checked (Unit {0})
unfolding validate_from
validate_config config = validate_from [] [] config
