-- ===== src/Upstream/Targets.antt =====
-- The verification targets and the refresh intervals of aggregator/upstream_config/validation.rs.
pub mod Distinct
use phala_llm_router.Base.{
  ℕ, ◌-◌, ◌==◌, max, Bool, true, false, ◌&&◌, ◌||◌, not, List, [], ◌∷◌, ◌++◌, map, Option, none,
  some, is_some, or_default, Text, text_eq, if◌then◌else◌,
}
use phala_llm_router.Base.Lists.{take}
use phala_llm_router.Dict.{contains, add, values}
use phala_llm_router.Upstream.{
  UpstreamConfig, attestation_scope, is_per_router, is_chutes, AttestationScope,
}

pub record UpstreamVerificationTarget : Type 0 where
  pub upstream_name : Text
  pub model_id : Text
  pub url_origin : Option Text

-- `UpstreamRuntimeOptions`, of which the interval is read here.
pub record UpstreamRuntimeOptions : Type 0 where
  pub verifier_cache_seconds : ℕ

abbrev pub option_eq : Option Text → Option Text → Bool
option_eq none none = true
option_eq (some s) (some t) = text_eq s t
option_eq _ _ = false

-- `PartialEq` of a target
unfoldable pub target_eq : UpstreamVerificationTarget → UpstreamVerificationTarget → Bool
unfolding text_eq
target_eq t s =
    text_eq t.upstream_name s.upstream_name
    && text_eq t.model_id s.model_id
    && option_eq t.url_origin s.url_origin

-- `trim_end_matches('/')`
unfoldable pub trim_slashes : Text → Text
trim_slashes [] = []
trim_slashes (c ∷ s) = elim (trim_slashes s) [
  | [] ↦ if c == 47 then [] else c ∷ []
  | d ∷ rest ↦ c ∷ d ∷ rest
]

-- Whether a target is among the targets so far: those that `seen` has.
unfoldable pub has_target : UpstreamVerificationTarget → List UpstreamVerificationTarget → Bool
unfolding target_eq
has_target t [] = false
has_target t (s ∷ targets) = let rest = has_target t targets in target_eq t s || rest

-- `if seen.insert(target.clone()) { targets.push(target) }`
unfoldable pub push_new :
    List UpstreamVerificationTarget → UpstreamVerificationTarget → List UpstreamVerificationTarget
unfolding has_target
push_new targets t = if has_target t targets then targets else targets ++ t ∷ []

-- The models of an upstream that are probed.
unfoldable pub probed_models : UpstreamConfig → List Text
unfolding attestation_scope take
probed_models cfg =
    if is_per_router (attestation_scope cfg.provider)
    then take 1 (values cfg.models)
    else values cfg.models

abbrev pub target_of : UpstreamConfig → Text → UpstreamVerificationTarget
target_of cfg model_id = record {
  upstream_name = cfg.name;
  model_id = model_id;
  url_origin = some (trim_slashes cfg.base_url);
}

unfoldable pub push_models :
    UpstreamConfig → List Text → List UpstreamVerificationTarget → List UpstreamVerificationTarget
unfolding push_new trim_slashes
push_models cfg [] targets = targets
push_models cfg (model_id ∷ models) targets =
    push_models cfg models (push_new targets (target_of cfg model_id))

unfoldable pub push_configs :
    List UpstreamConfig → List UpstreamVerificationTarget → List UpstreamVerificationTarget
unfolding push_models probed_models
push_configs [] targets = targets
push_configs (cfg ∷ configs) targets =
    push_configs configs (push_models cfg (probed_models cfg) targets)

unfoldable pub verification_targets_for_configs :
    List UpstreamConfig → List UpstreamVerificationTarget
unfolding push_configs
verification_targets_for_configs configs = push_configs configs []

-- `saturating_sub(60).max(1)`
abbrev pub refresh_by : Option ℕ → ℕ → Option ℕ
refresh_by none cache_seconds = some (max (cache_seconds - 60) 1)
refresh_by (some seconds) cache_seconds = if seconds == 0 then none else some seconds

unfoldable pub verification_refresh_seconds : UpstreamConfig → UpstreamRuntimeOptions → Option ℕ
verification_refresh_seconds cfg options =
    refresh_by cfg.verification_refresh_seconds
      (or_default cfg.verifier_cache_seconds options.verifier_cache_seconds)

unfoldable pub session_refresh_seconds : UpstreamConfig → Option ℕ
session_refresh_seconds cfg = elim cfg.session_refresh_seconds [
  | some seconds ↦ if seconds == 0 then none else some seconds
  | none ↦ if is_chutes cfg.provider then some 45 else none
]

-- The filters of `verification_targets` and of `verification_targets_for_refresh`.
unfoldable pub keep_configs : (UpstreamConfig → Bool) → List UpstreamConfig → List UpstreamConfig
keep_configs keep [] = []
keep_configs keep (cfg ∷ configs) =
    let rest = keep_configs keep configs in if keep cfg then cfg ∷ rest else rest

unfoldable pub verification_targets : List UpstreamConfig → List UpstreamVerificationTarget
unfolding keep_configs verification_targets_for_configs
verification_targets config =
    verification_targets_for_configs (keep_configs (λ cfg. cfg.enabled) config)

unfoldable pub verification_targets_for_refresh :
    List UpstreamConfig → UpstreamRuntimeOptions → List UpstreamVerificationTarget
unfolding keep_configs verification_refresh_seconds verification_targets_for_configs
verification_targets_for_refresh config options =
    verification_targets_for_configs (
      keep_configs (λ cfg. cfg.enabled && is_some (verification_refresh_seconds cfg options))
        config)

-- The filter of `unique_upstream_models`, with the models seen so far.
unfoldable pub unseen : List Text → List Text → List Text
unfolding contains add
unseen seen [] = []
unseen seen (m ∷ models) =
    let rest = unseen seen models in
    let fresh = unseen (add m seen) models in if contains m seen then rest else m ∷ fresh

unfoldable pub unique_upstream_models : UpstreamConfig → List Text
unfolding unseen
unique_upstream_models cfg = unseen [] (values cfg.models)
