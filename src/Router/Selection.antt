-- ===== src/Router/Selection.antt =====
-- `RouterState::select`, its history of prompts, and the accounting of requests in flight.
use phala_llm_router.Base.{
  saturating_add, ℕ, ◌-◌, ◌==◌, ltb, min, max, Bool, true, false, ◌&&◌, ◌||◌, not, List, [], ◌∷◌,
  ◌++◌, Option, none, some, Text, if◌then◌else◌, or_default, length, u64_mod,
}
use phala_llm_router.Base.Lists.{drop_first}
use phala_llm_router.Dict
use phala_llm_router.Dict.{Dict}
use phala_llm_router.Canonical.{less}
use phala_llm_router.Router.Types.{
  F32, Floats, MiddlewareConfig, RouterRoute, no_stats, RouterState, UserTier, RouteOrderKey,
  RouteSelection, Reason, cache, single, load_imbalance, no_text, least_running,
}
use phala_llm_router.Router.Pressure.{route_pressure, route_order_key, compare_key, least_loaded}
use phala_llm_router.Router.Text.{
  limit_chars, max_routing_history_chars, common_prefix_chars, is_empty,
}

-- `entry(k).or_default()`
unfoldable pub or_insert {ℓ} : {V : Type ℓ} → Text → V → Dict V → Dict V
or_insert k d m = elim (Dict.get k m) [ none ↦ Dict.insert k d m | some v ↦ m ]

-- The samples of a route after one more: the oldest beyond the limit are drained.
unfoldable pub push_sample : ℕ → Text → List Text → List Text
push_sample max_samples text samples =
    drop_first (length (samples ++ text ∷ []) - max_samples) (samples ++ text ∷ [])

unfoldable pub record_history : RouterState → Text → Text → Text → ℕ → RouterState
unfolding push_sample
record_history state model route_id text max_samples =
    if is_empty text || max_samples == 0 then state else record state {
      history =
          let by_route = or_default (Dict.get model state.history) [] in
          let samples = or_default (Dict.get route_id by_route) [] in
          Dict.insert model
            (Dict.insert route_id
              (push_sample max_samples (limit_chars text max_routing_history_chars) samples)
              by_route)
            state.history;
    }

-- The loop at the head of `select`: every route has an entry in both maps.
unfoldable pub enrol : RouterState → Text → List RouterRoute → RouterState
unfolding or_insert
enrol state model [] = state
enrol state model (r ∷ rs) =
    enrol
      (record state {
        stats = or_insert r.route_id no_stats state.stats;
        history =
            Dict.insert model
              (or_insert r.route_id [] (or_default (Dict.get model state.history) []))
              state.history;
      })
      model rs

-- `samples.iter().map(|sample| common_prefix_chars(sample, text)).max().unwrap_or(0)`
unfoldable pub best_match : Text → List Text → ℕ
best_match text [] = 0
best_match text (s ∷ ss) = max (common_prefix_chars s text) (best_match text ss)

unfoldable pub matched : RouterState → Text → Text → RouterRoute → ℕ
unfolding best_match
matched state model text r =
    best_match text
      (or_default (Dict.get r.route_id (or_default (Dict.get model state.history) [])) [])

pub record Candidate : Type 0 where
  pub route : RouterRoute
  pub rate : F32
  pub key : RouteOrderKey

module _ (fl : Floats) (config : MiddlewareConfig) (tier : UserTier) (now : ℕ) where
  -- `a as f32 > b as f32 * balance_rel_threshold`
  abbrev pub outweighs : ℕ → ℕ → Bool
  outweighs a b = fl.above (fl.of_usize a) (fl.mul (fl.of_usize b) config.balance_rel_threshold)

  -- The least and the greatest load; the fold starts from `usize::MAX`.
  unfoldable pub load_range : RouterState → ℕ × ℕ → List RouterRoute → ℕ × ℕ
  load_range state (lo, hi) [] = (lo, hi)
  load_range state (lo, hi) (r ∷ rs) =
      let load = (route_pressure fl config tier now state r).effective_running in
      load_range state (min lo load, max hi load) rs

  abbrev pub imbalanced_range : ℕ × ℕ → Bool
  imbalanced_range (lo, hi) =
      let least = if lo == u64_mod - 1 then 0 else lo in
      ltb config.balance_abs_threshold (hi - least) && outweighs hi least

  unfoldable pub imbalanced : RouterState → List RouterRoute → Bool
  unfolding load_range
  imbalanced state routes = imbalanced_range (load_range state (u64_mod - 1, 0) routes)

  -- A route and the load that it is selected at.
  abbrev pub selection : RouterState → RouterRoute → Reason → F32 → RouteSelection
  selection state r reason rate = record {
    route_id = r.route_id;
    reason = reason;
    cache_match_rate = rate;
    running_at_select = (route_pressure fl config tier now state r).effective_running;
  }

  unfoldable pub cache_route_is_acceptable : RouterState → RouterRoute → RouterRoute → Bool
  cache_route_is_acceptable state cache_route least_route =
      let c = route_pressure fl config tier now state cache_route in
      let l = route_pressure fl config tier now state least_route in
      let gap = c.effective_running - l.effective_running in
      not (c.blocked && not l.blocked)
      && not (c.metrics_missing && not l.metrics_missing)
      && not (ltb 0 c.waiting && l.waiting == 0)
      && not (ltb (saturating_add l.fullness_milli 250) c.fullness_milli)
      && not (
          ltb config.balance_abs_threshold gap && outweighs c.effective_running l.effective_running)

  module _ (state : RouterState) (model text : Text) where
    unfoldable pub candidate : RouterRoute → Candidate
    unfolding matched
    candidate r = record {
      route = r;
      rate = fl.div (fl.of_usize (matched state model text r)) (fl.of_usize (max (length text) 1));
      key = route_order_key fl config tier now state r;
    }

    -- `replace`
    unfoldable pub beats : Candidate → Candidate → Bool
    beats c best =
        fl.above c.rate best.rate
        || (fl.same c.rate best.rate
            && elim (compare_key c.key best.key) [ less ↦ true | _ ↦ false ])

    unfoldable pub best_from : Candidate → List RouterRoute → Candidate
    best_from best [] = best
    best_from best (r ∷ rs) = best_from (if beats (candidate r) best then candidate r else best) rs

    unfoldable pub choose_cached : Candidate → RouterRoute → RouteSelection
    unfolding cache_route_is_acceptable
    choose_cached best least =
        if fl.above best.rate config.cache_threshold
          && cache_route_is_acceptable state best.route least
        then selection state best.route cache best.rate
        else selection state least least_running best.rate

    unfoldable pub select_cache_aware : List RouterRoute → Option RouteSelection
    unfolding best_from choose_cached candidate
    select_cache_aware [] = none
    select_cache_aware (r ∷ rs) = elim (least_loaded fl config tier now state (r ∷ rs)) [
      | none ↦ none
      | some least ↦ some (choose_cached (best_from (candidate r) rs) least)
    ]

    -- The choice among several routes.
    unfoldable pub choose : List RouterRoute → Option RouteSelection
    unfolding select_cache_aware imbalanced
    choose routes =
        if imbalanced state routes || is_empty text
        then elim (least_loaded fl config tier now state routes) [
          | none ↦ none
          | some r ↦ some (
              selection state r (if imbalanced state routes then load_imbalance else no_text)
                (fl.of_usize 0))
        ]
        else select_cache_aware routes

  unfoldable pub select_among :
      RouterState → Text → Text → List RouterRoute → RouterState × Option RouteSelection
  unfolding record_history
  select_among state model text routes = elim (choose state model text routes) [
    | none ↦ (state, none)
    | some s ↦ (record_history state model s.route_id text config.max_history_per_route, some s)
  ]

  -- `RouterState::select`
  unfoldable pub select :
      RouterState → Text → Text → List RouterRoute → RouterState × Option RouteSelection
  unfolding enrol record_history select_among
  select state model text [] = (state, none)
  select state model text (r ∷ []) =
      let s = enrol state model (r ∷ []) in
      (
        record_history s model r.route_id text config.max_history_per_route,
        some (record {
          route_id = r.route_id;
          reason = single;
          cache_match_rate = fl.of_usize 0;
          running_at_select = (or_default (Dict.get r.route_id s.stats) no_stats).running;
        }),
      )
  select state model text (r ∷ r' ∷ rs) =
      select_among (enrol state model (r ∷ r' ∷ rs)) model text (r ∷ r' ∷ rs)
