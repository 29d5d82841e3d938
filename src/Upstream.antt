-- ===== src/Upstream.antt =====
-- The configuration of the upstreams: aggregator/upstream_config/mod.rs and validation.rs. A `BTreeMap`
-- is the list of its entries in the order of iteration. An error keeps its cause, not its wording.
pub mod Validation
pub mod Targets
pub mod Router
pub mod Prepare
pub mod Build
use phala_llm_router.Base.{
  ℕ, ◌+◌, ◌==◌, ltb, leb, Bool, true, false, ◌&&◌, ◌||◌, not, List, [], ◌∷◌, ◌++◌, Option, none,
  some, is_some, Text, codes, if◌then◌else◌,
}
use phala_llm_router.Dict.{Dict}

-- `char::is_whitespace`
unfoldable pub is_whitespace : ℕ → Bool
is_whitespace c =
    (leb 9 c && leb c 13)
    || c == 32
    || c == 133
    || c == 160
    || c == 5760
    || (leb 8192 c && leb c 8202)
    || c == 8232
    || c == 8233
    || c == 8239
    || c == 8287
    || c == 12288

-- `s.trim().is_empty()`
unfoldable pub is_blank : Text → Bool
unfolding is_whitespace
is_blank [] = true
is_blank (c ∷ s) = is_whitespace c && is_blank s

pub data UpstreamProvider : Type 0 where
  openai_compatible anthropic aci_service chutes tinfoil near_ai phala_direct : UpstreamProvider

pub data AttestationScope : Type 0 where
  per_router per_model per_instance : AttestationScope

unfoldable pub attestation_scope : UpstreamProvider → AttestationScope
attestation_scope near_ai = per_router
attestation_scope tinfoil = per_router
attestation_scope chutes = per_instance
attestation_scope phala_direct = per_model
attestation_scope openai_compatible = per_model
attestation_scope anthropic = per_model
attestation_scope aci_service = per_model

abbrev pub is_per_router : AttestationScope → Bool
is_per_router per_router = true
is_per_router _ = false

abbrev pub is_chutes : UpstreamProvider → Bool
is_chutes chutes = true
is_chutes _ = false

abbrev pub is_anthropic : UpstreamProvider → Bool
is_anthropic anthropic = true
is_anthropic _ = false

-- `provider_is_tee`
unfoldable pub provider_is_tee : UpstreamProvider → Bool
provider_is_tee openai_compatible = false
provider_is_tee anthropic = false
provider_is_tee _ = true

pub record UpstreamConfig : Type 0 where
  pub name : Text
  pub enabled : Bool
  pub provider : UpstreamProvider
  pub base_url : Text
  pub path : Option Text
  pub models : Dict Text
  pub bearer_token : Option Text
  pub accepted_workload_ids : Option (List Text)
  pub accepted_image_digests : Option (List Text)
  pub accepted_dstack_kms_root_public_keys : Option (List Text)
  pub pccs_url : Option Text
  pub verifier_cache_seconds : Option ℕ
  pub connect_timeout_seconds : Option ℕ
  pub read_timeout_seconds : Option ℕ
  pub verifier_request_timeout_seconds : Option ℕ
  pub verification_refresh_seconds : Option ℕ
  pub session_refresh_seconds : Option ℕ
  pub chutes_e2ee_api_base : Option Text
  pub chutes_chute_ids : Option (Dict Text)
  pub chutes_e2ee_discovery_rounds : Option ℕ
  pub chutes_e2ee_discovery_interval_seconds : Option ℕ

-- What `InvalidConfig` says.
pub data ConfigError : Type 0 where
  blank_name blank_base_url no_models : ConfigError
  duplicate_name duplicate_route blank_public_model blank_upstream_model : Text → ConfigError
  zero_timeout bad_discovery_rounds blank_chutes_base no_chute_ids bad_chute_id : ConfigError
  chutes_fields_elsewhere anthropic_without_path : ConfigError
  -- An error of the router or of a backend that is built.
  routing : Text → ConfigError

pub data Checked {ℓ} (A : Type ℓ) : Type ℓ where
  valid : A → Checked A
  invalid : ConfigError → Checked A

infixl 5 ◌>>=◌
abbrev pub ◌>>=◌ {ℓ κ} : {A : Type ℓ} {B : Type κ} → Checked A → (A → Checked B) → Checked B
valid a >>= f = f a
invalid e >>= f = invalid e

-- An error where the test holds.
abbrev pub refuse_if : Bool → ConfigError → Checked (Unit {0})
refuse_if true e = invalid e
refuse_if false e = valid tt

-- `format!("{}:{public_model}", name)`
abbrev pub route_id_of : Text → Text → Text
route_id_of name public_model = name ++ codes ":" ++ public_model
