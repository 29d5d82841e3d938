-- ===== src/Router/Types.antt =====
-- The types of the router middleware. A float is its bit pattern, and its operations are a parameter;
-- an `Instant` is a count of nanoseconds, read from a clock that the caller passes in.
use phala_llm_router.Base.{ℕ, Bool, List, Option, Text}
use phala_llm_router.Dict.{Dict}

abbrev pub F64 : Type 0
F64 = ℕ

abbrev pub F32 : Type 0
F32 = ℕ

-- The float operations that the router uses.
pub record Floats : Type 0 where
  -- `x.max(0.0)`, and 0.0
  pub max_zero : F64 → F64
  pub zero : F64
  -- `x > 0.0` and `x <= 0.0`
  pub positive : F64 → Bool
  pub at_most_zero : F64 → Bool
  -- `x.ceil() as usize`, `x.ceil() as u64`
  pub ceil : F64 → ℕ
  -- `((x / y) * 1_000.0).max(0.0).round() as u64`
  pub milli : F64 → F64 → ℕ
  -- `n as f32`
  pub of_usize : ℕ → F32
  pub mul : F32 → F32 → F32
  pub div : F32 → F32 → F32
  -- `x > y` and `x == y`
  pub above : F32 → F32 → Bool
  pub same : F32 → F32 → Bool

pub data ProviderFormat : Type 0 where
  openai anthropic : ProviderFormat

pub data Engine : Type 0 where
  sglang vllm : Engine

pub record RouteCandidate : Type 0 where
  pub route_id : Text
  pub format : ProviderFormat
  pub engine : Option Engine

pub record MiddlewareConfig : Type 0 where
  pub public_model : Option Text
  pub cache_threshold : F32
  pub balance_abs_threshold : ℕ
  pub balance_rel_threshold : F32
  pub max_history_per_route : ℕ
  pub metrics_poll_ms : ℕ
  pub metrics_timeout_ms : ℕ
  pub metrics_stale_ms : ℕ
  pub metrics_path : Text
  pub trusted_user_tier_header : Bool
  pub default_engine : Option Engine
  pub sse_keepalive_ms : Option ℕ

pub record RouterRoute : Type 0 where
  pub route_id : Text
  pub upstream_name : Text
  pub candidate : RouteCandidate

pub record RouteStats : Type 0 where
  pub running : ℕ
  pub processed : ℕ
  pub selected_by_cache : ℕ
  pub selected_by_load : ℕ
  pub selected_by_order : ℕ

abbrev pub no_stats : RouteStats
no_stats = record {
  running = 0;
  processed = 0;
  selected_by_cache = 0;
  selected_by_load = 0;
  selected_by_order = 0;
}

pub record UpstreamMetrics : Type 0 where
  pub healthy : Bool
  pub error : Option Text
  pub updated_at : Option ℕ
  pub observed_running : Option F64
  pub observed_waiting : Option F64
  pub global_limit : Option F64
  pub basic_limit : Option F64
  pub basic_inflight : Option F64
  pub premium_inflight : Option F64

pub record RouterState : Type 0 where
  pub stats : Dict RouteStats
  pub history : Dict (Dict (List Text))
  pub upstream_metrics : Dict UpstreamMetrics

pub data UserTier : Type 0 where
  basic premium : UserTier

pub record RoutePressure : Type 0 where
  pub blocked : Bool
  pub metrics_missing : Bool
  pub waiting : ℕ
  pub fullness_milli : ℕ
  pub effective_running : ℕ
  pub processed : ℕ

-- `RouteOrderKey`, a tuple compared from the left.
pub record RouteOrderKey : Type 0 where
  pub blocked : ℕ
  pub metrics_missing : ℕ
  pub waiting : ℕ
  pub fullness_milli : ℕ
  pub effective_running : ℕ
  pub processed : ℕ
  pub route_id : Text

pub data Reason : Type 0 where
  cache single load_imbalance no_text least_running : Reason

pub record RouteSelection : Type 0 where
  pub route_id : Text
  pub reason : Reason
  pub cache_match_rate : F32
  pub running_at_select : ℕ
