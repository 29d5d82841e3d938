-- ===== src/Router/Pressure.antt =====
-- The pressure of a route, the order of routes by it, and the status code made of it.
use phala_llm_router.Base.{
  ℕ, ◌-◌, ◌*◌, ◌==◌, ltb, leb, max, Bool, true, false, ◌&&◌, ◌||◌, not, List, [], ◌∷◌, Option, none,
  some, if◌then◌else◌, or_default,
}
use phala_llm_router.Canonical.{Order, greater, units_compare}
use phala_llm_router.Dict
use phala_llm_router.Router.Types.{
  F64, Floats, MiddlewareConfig, RouterRoute, RouteStats, no_stats, UpstreamMetrics, RouterState,
  UserTier, basic, premium, RoutePressure, RouteOrderKey,
}

-- `UpstreamMetrics::is_stale` at the time `now`
unfoldable pub is_stale : MiddlewareConfig → ℕ → UpstreamMetrics → Bool
is_stale config now m = elim m.updated_at [
  | none ↦ true
  | some updated_at ↦ ltb (config.metrics_stale_ms * 1000000) (now - updated_at)
]

module _ (fl : Floats) where
  -- `value.unwrap_or(0.0).max(0.0)`
  abbrev pub at_least_zero : Option F64 → F64
  at_least_zero o = fl.max_zero (or_default o fl.zero)

  -- `limit.is_some_and(|limit| limit > 0.0)`
  abbrev pub limit_known : Option F64 → Bool
  limit_known none = false
  limit_known (some limit) = fl.positive limit

  unfoldable pub ratio_milli : F64 → Option F64 → ℕ
  ratio_milli value none = 0
  ratio_milli value (some limit) = if fl.at_most_zero limit then 0 else fl.milli value limit

  -- `tier_fullness`
  unfoldable pub tier_fullness : UserTier → UpstreamMetrics → ℕ
  unfolding ratio_milli
  tier_fullness premium m = ratio_milli (at_least_zero m.observed_running) m.global_limit
  tier_fullness basic m =
      max (ratio_milli (at_least_zero m.observed_running) m.global_limit)
        (ratio_milli (at_least_zero m.basic_inflight) m.basic_limit)

  -- The pressure where there are no metrics to go by.
  abbrev pub unmeasured : RouteStats → RoutePressure
  unmeasured stats = record {
    blocked = false;
    metrics_missing = true;
    waiting = 0;
    fullness_milli = 0;
    effective_running = stats.running;
    processed = stats.processed;
  }

  unfoldable pub measured : UserTier → RouteStats → UpstreamMetrics → RoutePressure
  unfolding tier_fullness
  measured tier stats m = record {
    blocked = fl.positive (at_least_zero m.observed_waiting) || leb 1000 (tier_fullness tier m);
    metrics_missing = false;
    waiting = fl.ceil (at_least_zero m.observed_waiting);
    fullness_milli = tier_fullness tier m;
    effective_running = max stats.running (fl.ceil (at_least_zero m.observed_running));
    processed = stats.processed;
  }

  module _ (config : MiddlewareConfig) (tier : UserTier) (now : ℕ) where
    unfoldable pub pressure_of : RouteStats → Option UpstreamMetrics → RoutePressure
    unfolding measured is_stale
    pressure_of stats none = unmeasured stats
    pressure_of stats (some m) =
        if is_stale config now m || not m.healthy then unmeasured stats else measured tier stats m

  module _ (config : MiddlewareConfig) (tier : UserTier) (now : ℕ) (state : RouterState) where
    unfoldable pub route_pressure : RouterRoute → RoutePressure
    route_pressure route =
        pressure_of config tier now (or_default (Dict.get route.route_id state.stats) no_stats)
          (Dict.get route.upstream_name state.upstream_metrics)

    unfoldable pub route_order_key : RouterRoute → RouteOrderKey
    route_order_key route = record {
      blocked = if (route_pressure route).blocked then 1 else 0;
      metrics_missing = if (route_pressure route).metrics_missing then 1 else 0;
      waiting = (route_pressure route).waiting;
      fullness_milli = (route_pressure route).fullness_milli;
      effective_running = (route_pressure route).effective_running;
      processed = (route_pressure route).processed;
      route_id = route.route_id;
    }

-- Two keys are compared as tuples: by their first difference, the id last, by its characters.
unfoldable pub key_units : RouteOrderKey → List ℕ
key_units k =
    k.blocked ∷ k.metrics_missing ∷ k.waiting ∷ k.fullness_milli ∷ k.effective_running ∷ k.processed
    ∷ k.route_id

unfoldable pub compare_key : RouteOrderKey → RouteOrderKey → Order
unfolding key_units
compare_key a b = units_compare (key_units a) (key_units b)

module _ (fl : Floats) (config : MiddlewareConfig) (tier : UserTier) (now : ℕ)
    (state : RouterState) where
  -- `min_by` keeps the first of equals.
  unfoldable pub least_from : RouterRoute → List RouterRoute → RouterRoute
  least_from best [] = best
  least_from best (r ∷ rs) =
      least_from
        (elim (compare_key (route_order_key fl config tier now state best)
          (route_order_key fl config tier now state r)) [ greater ↦ r | _ ↦ best ])
        rs

  unfoldable pub least_loaded : List RouterRoute → Option RouterRoute
  unfolding least_from
  least_loaded [] = none
  least_loaded (r ∷ rs) = some (least_from r rs)

  -- `UPSTREAM_STATUS_GREEN` is 0, yellow 1 and red 2.
  unfoldable pub status_behind : UserTier → Option UpstreamMetrics → ℕ
  status_behind t none = 1
  status_behind premium (some m) = if limit_known fl m.global_limit then 0 else 1
  status_behind basic (some m) =
      if limit_known fl m.global_limit && limit_known fl m.basic_limit then 0 else 1

  unfoldable pub route_status_code : RouterRoute → ℕ
  unfolding status_behind
  route_status_code route =
      let p = route_pressure fl config tier now state route in
      if p.blocked || ltb 0 p.waiting || leb 1000 p.fullness_milli
      then 2
      else if p.metrics_missing || leb 850 p.fullness_milli
      then 1
      else status_behind tier (Dict.get route.upstream_name state.upstream_metrics)

  -- The loop of `upstream_status_code`, with `saw_yellow`.
  unfoldable pub status_loop : Bool → List RouterRoute → ℕ
  status_loop saw_yellow [] = if saw_yellow then 1 else 2
  status_loop saw_yellow (r ∷ rs) =
      let code = route_status_code r in
      let rest = status_loop (saw_yellow || code == 1) rs in if code == 0 then 0 else rest

  unfoldable pub upstream_status_code : List RouterRoute → ℕ
  unfolding status_loop
  upstream_status_code [] = 2
  upstream_status_code (r ∷ rs) = status_loop false (r ∷ rs)
