-- ===== src/Upstream/Targets/Distinct.antt =====
-- The targets are those of the configuration, each once.
use mathlib.Core.List.{append_assoc, append-nil}
use phala_llm_router.Base.{
  or_default, Bool-cases, inl, inr, subst, ℕ, ◌-◌, ◌<◌, ◌≤◌, max, Bool, true, false, ◌&&◌, ◌||◌,
  List, [], ◌∷◌, ◌++◌, Option, none, some, Text, text_eq, text_eq_iff, ◌≡◌, ◌↔◌, refl, sym, ap, ◌∙◌,
  arith,
}
use phala_llm_router.Upstream.{UpstreamConfig}
use phala_llm_router.Upstream.Targets.{
  refresh_by, UpstreamVerificationTarget, UpstreamRuntimeOptions, option_eq, target_eq, has_target,
  push_new, push_models, push_configs, probed_models, target_of, keep_configs, verification_targets,
  verification_targets_for_configs, verification_refresh_seconds,
}

option_eq_iff : (a b : Option Text) → (option_eq a b ≡ true) ↔ (a ≡ b)
option_eq_iff none none = (λ h. refl, λ h. refl)
option_eq_iff none (some t) = (λ h. absurd (cc h), λ h. absurd (cc h))
option_eq_iff (some s) none = (λ h. absurd (cc h), λ h. absurd (cc h))
option_eq_iff (some s) (some t) =
    (λ h. ap some ((text_eq_iff s t).0 h), λ h. (text_eq_iff s t).1 (cc h))

and_true : (a b : Bool) → (a && b) ≡ true → (a ≡ true) × (b ≡ true)
and_true true b h = (refl, h)
and_true false b h = absurd (cc h)

target_eq_refl : (t : UpstreamVerificationTarget) → target_eq t t ≡ true
unfolding target_eq
target_eq_refl t =
    rw
      (
        (text_eq_iff t.upstream_name t.upstream_name).1 refl,
        (text_eq_iff t.model_id t.model_id).1 refl,
      )
      ((option_eq_iff t.url_origin t.url_origin).1 refl)

target_eq_iff : (t s : UpstreamVerificationTarget) → (target_eq t s ≡ true) ↔ (t ≡ s)
unfolding target_eq
target_eq_iff t s = (
  λ h.
      let (h1, c) =
        and_true (text_eq t.upstream_name s.upstream_name && text_eq t.model_id s.model_id)
          (option_eq t.url_origin s.url_origin) h in
      let (a, b) =
        and_true (text_eq t.upstream_name s.upstream_name) (text_eq t.model_id s.model_id) h1 in
      let a' = (text_eq_iff t.upstream_name s.upstream_name).0 a in
      let b' = (text_eq_iff t.model_id s.model_id).0 b in
      let c' = (option_eq_iff t.url_origin s.url_origin).0 c in cc,
  λ e. ap (target_eq t) (sym e) ∙ target_eq_refl t,
)

target_eq_comm : (t s : UpstreamVerificationTarget) → target_eq t s ≡ target_eq s t
target_eq_comm t s = ground (arith, target_eq_iff t s, target_eq_iff s t)

has_target-append :
    (t : UpstreamVerificationTarget) (xs ys : List UpstreamVerificationTarget)
    → has_target t (xs ++ ys) ≡ (has_target t xs || has_target t ys)
unfolding has_target
has_target-append t [] ys = refl
has_target-append t (x ∷ xs) ys = ground (arith, has_target-append t xs ys)

-- No target twice.
abbrev pub IsDistinct : List UpstreamVerificationTarget → Type 0
IsDistinct [] = Unit {0}
IsDistinct (t ∷ targets) = (has_target t targets ≡ false) × IsDistinct targets

append-IsDistinct :
    (xs : List UpstreamVerificationTarget) (t : UpstreamVerificationTarget)
    → IsDistinct xs
    → has_target t xs ≡ false
    → IsDistinct (xs ++ t ∷ [])
unfolding has_target
append-IsDistinct [] t d h = (refl, tt)
append-IsDistinct (x ∷ xs) t d h = (
  has_target-append x xs (t ∷ []) ∙ ground (arith, target_eq_comm x t, d.0),
  append-IsDistinct xs t d.1 (ground arith),
)

or_absorbs : (a b : Bool) → (b ≡ true → a ≡ true) → (a || (b || false)) ≡ a
or_absorbs true b h = refl
or_absorbs false true h = sym (h refl)
or_absorbs false false h = refl

has_target_absorbs :
    (t s : UpstreamVerificationTarget) (xs : List UpstreamVerificationTarget)
    → has_target s xs ≡ true
    → has_target t (xs ++ s ∷ []) ≡ has_target t xs
unfolding has_target
has_target_absorbs t s xs h =
    has_target-append t xs (s ∷ [])
    ∙ or_absorbs (has_target t xs) (target_eq t s)
        (λ e. subst (λ x. has_target x xs ≡ true) (sym ((target_eq_iff t s).0 e)) h)

-- To push a target is to append it, as far as what is there goes.
has_target-push_new :
    (t s : UpstreamVerificationTarget) (xs : List UpstreamVerificationTarget)
    → has_target t (push_new xs s) ≡ has_target t (xs ++ s ∷ [])
unfolding push_new
has_target-push_new t s xs = elim (Bool-cases (has_target s xs)) [
  | inl h ↦ rw h (sym (has_target_absorbs t s xs h))
  | inr h ↦ rw h refl
]

push_new-IsDistinct :
    (s : UpstreamVerificationTarget) (xs : List UpstreamVerificationTarget)
    → IsDistinct xs
    → IsDistinct (push_new xs s)
unfolding push_new
push_new-IsDistinct s xs d = elim (Bool-cases (has_target s xs)) [
  | inl h ↦ rw h d
  | inr h ↦ rw h (append-IsDistinct xs s d h)
]

-- The targets as the configuration lists them, those of one upstream after those of another.
abbrev pub targets_of : UpstreamConfig → List Text → List UpstreamVerificationTarget
targets_of cfg [] = []
targets_of cfg (m ∷ models) = target_of cfg m ∷ targets_of cfg models

abbrev pub all_targets : List UpstreamConfig → List UpstreamVerificationTarget
all_targets [] = []
all_targets (cfg ∷ configs) = targets_of cfg (probed_models cfg) ++ all_targets configs

-- The targets hold what a list holds, and none twice.
abbrev pub SetOf : List UpstreamVerificationTarget → List UpstreamVerificationTarget → Type 0
SetOf ts xs = IsDistinct ts × ((t : UpstreamVerificationTarget) → has_target t ts ≡ has_target t xs)

push_models-SetOf :
    (cfg : UpstreamConfig) (models : List Text) (ts xs : List UpstreamVerificationTarget)
    → SetOf ts xs
    → SetOf (push_models cfg models ts) (xs ++ targets_of cfg models)
unfolding push_models
push_models-SetOf cfg [] ts xs d = subst (SetOf ts) (sym (append-nil xs)) d
push_models-SetOf cfg (m ∷ models) ts xs (d, e) =
    let s = target_of cfg m in
    subst (SetOf (push_models cfg (m ∷ models) ts))
      (append_assoc xs (s ∷ []) (targets_of cfg models))
      (push_models-SetOf cfg models (push_new ts s) (xs ++ s ∷ []) (
        push_new-IsDistinct s ts d,
        λ t.
            has_target-push_new t s ts
            ∙ has_target-append t ts (s ∷ [])
            ∙ ap (λ x. x || has_target t (s ∷ [])) (e t)
            ∙ sym (has_target-append t xs (s ∷ [])),
      ))

push_configs-SetOf :
    (configs : List UpstreamConfig) (ts xs : List UpstreamVerificationTarget)
    → SetOf ts xs
    → SetOf (push_configs configs ts) (xs ++ all_targets configs)
unfolding push_configs
push_configs-SetOf [] ts xs d = subst (SetOf ts) (sym (append-nil xs)) d
push_configs-SetOf (cfg ∷ configs) ts xs d =
    subst (SetOf (push_configs (cfg ∷ configs) ts))
      (append_assoc xs (targets_of cfg (probed_models cfg)) (all_targets configs))
      (push_configs-SetOf configs (push_models cfg (probed_models cfg) ts)
        (xs ++ targets_of cfg (probed_models cfg))
        (push_models-SetOf cfg (probed_models cfg) ts xs d))

-- The verification targets of a configuration are the probed models of its enabled upstreams, each with
-- its upstream and its origin: none is left out, none is there that the configuration does not list,
-- and none is there twice.
pub verification_targets-SetOf :
    (config : List UpstreamConfig)
    → SetOf (verification_targets config) (all_targets (keep_configs (λ cfg. cfg.enabled) config))
unfolding verification_targets verification_targets_for_configs
verification_targets-SetOf config =
    push_configs-SetOf (keep_configs (λ cfg. cfg.enabled) config) [] [] (tt, λ t. refl)

refresh_by-none :
    (o : Option ℕ) (cache n : ℕ) → o ≡ none → refresh_by o cache ≡ some n → n ≡ max (cache - 60) 1
refresh_by-none none cache n own h = cc h
refresh_by-none (some k) cache n own h = absurd (cc own)

-- An upstream without an interval of its own is verified again before what the verifier caches for it
-- is stale: where the cache lives for two seconds or more, the interval is at least one second and
-- shorter than that.
pub verification_refresh_seconds-bounds :
    (cfg : UpstreamConfig) (options : UpstreamRuntimeOptions) (n : ℕ)
    → cfg.verification_refresh_seconds ≡ none
    → 1 < or_default cfg.verifier_cache_seconds options.verifier_cache_seconds
    → verification_refresh_seconds cfg options ≡ some n
    → (1 ≤ n) × (n < or_default cfg.verifier_cache_seconds options.verifier_cache_seconds)
unfolding verification_refresh_seconds
verification_refresh_seconds-bounds cfg options n own long h =
    let cache = or_default cfg.verifier_cache_seconds options.verifier_cache_seconds in
    let e = refresh_by-none cfg.verification_refresh_seconds cache n own h in
    (omega arith, omega arith)
