-- ===== src/Router/InFlight.antt =====
-- `RouteInFlight`: the guard that counts a request as running on its route, until it is dropped. A
-- guard that was dropped holds no route.
use phala_llm_router.Base.{
  ℕ, zero, suc, ◌+◌, ◌-◌, ◌%◌, List, [], ◌∷◌, ◌++◌, Option, none, some, Text, if◌then◌else◌,
  or_default, u64_mod, text_eq,
}
use phala_llm_router.Dict
use phala_llm_router.Dict.{Dict}
use phala_llm_router.Router.Types.{
  Floats, MiddlewareConfig, RouterRoute, RouteStats, no_stats, RouterState, UpstreamMetrics,
  UserTier, RouteSelection, Reason, cache, single,
}
use phala_llm_router.Router.Selection.{select}

-- `+= 1` on `usize` and `u64`
abbrev pub wrapping_suc : ℕ → ℕ
wrapping_suc n = (n + 1) % u64_mod

unfoldable pub count_reason : Reason → RouteStats → RouteStats
count_reason cache s = record s { selected_by_cache = wrapping_suc s.selected_by_cache }
count_reason single s = record s { selected_by_order = wrapping_suc s.selected_by_order }
count_reason _ s = record s { selected_by_load = wrapping_suc s.selected_by_load }

unfoldable pub stats_of : RouterState → Text → RouteStats
stats_of state route_id = or_default (Dict.get route_id state.stats) no_stats

unfoldable pub mark_started : RouterState → RouteSelection → RouterState
unfolding count_reason stats_of
mark_started state selection =
    let s = stats_of state selection.route_id in
    record state {
      stats =
          Dict.insert selection.route_id
            (count_reason selection.reason
              (record s { running = wrapping_suc s.running; processed = wrapping_suc s.processed }))
            state.stats;
    }

unfoldable pub decrement_running : RouterState → Text → RouterState
decrement_running state route_id = record state {
  stats = Dict.adjust route_id (λ s. record s { running = s.running - 1 }) state.stats;
}

-- `state.stats.entry(route_id).or_default().running += 1`
unfoldable pub increment_running : RouterState → Text → RouterState
unfolding stats_of
increment_running state route_id =
    let s = stats_of state route_id in
    record state {
      stats = Dict.insert route_id (record s { running = wrapping_suc s.running }) state.stats;
    }

-- `RouteInFlight::retarget` on a guard that holds `previous`.
unfoldable pub retarget : RouterState → Text → Text → RouterState
unfolding decrement_running increment_running
retarget state previous route_id =
    if text_eq previous route_id
    then state
    else increment_running (decrement_running state previous) route_id

-- `update_upstream_metrics`
unfoldable pub update_upstream_metrics : RouterState → Text → UpstreamMetrics → RouterState
update_upstream_metrics state name m = record state {
  upstream_metrics = Dict.insert name m state.upstream_metrics;
}

-- `retain_upstream_metrics`
unfoldable pub retain_upstream_metrics : RouterState → List Text → RouterState
retain_upstream_metrics state names = record state {
  upstream_metrics = Dict.retain (λ name. Dict.contains name names) state.upstream_metrics;
}

-- The router's state, and the guards in the order of their creation.
pub record System : Type 0 where
  pub state : RouterState
  pub guards : List (Option Text)

module _ {ℓ} {A : Type ℓ} where
  unfoldable pub get_elem? : List A → ℕ → Option A
  get_elem? [] i = none
  get_elem? (x ∷ xs) zero = some x
  get_elem? (x ∷ xs) (suc i) = get_elem? xs i

  unfoldable pub set : List A → ℕ → A → List A
  set [] i v = []
  set (x ∷ xs) zero v = v ∷ xs
  set (x ∷ xs) (suc i) v = x ∷ set xs i v

-- What happens to the router's state, each under its lock.
pub data Event : Type 0 where
  starts : RouteSelection → Event
  retargets : ℕ → Text → Event
  drops : ℕ → Event
  selects : MiddlewareConfig → UserTier → ℕ → Text → Text → List RouterRoute → Event
  polls : Text → UpstreamMetrics → Event
  forgets : List Text → Event

-- The guard of that number, if it is there and was not dropped.
abbrev pub held : Option (Option Text) → Option Text
held none = none
held (some g) = g

abbrev pub retarget_held : System → ℕ → Text → Option Text → System
retarget_held y i route_id none = y
retarget_held y i route_id (some previous) = record {
  state = retarget y.state previous route_id;
  guards = set y.guards i (some route_id);
}

abbrev pub drop_held : System → ℕ → Option Text → System
drop_held y i none = y
drop_held y i (some route_id) = record {
  state = decrement_running y.state route_id;
  guards = set y.guards i none;
}

module _ (fl : Floats) where
  unfoldable pub step : System → Event → System
  unfolding mark_started retarget decrement_running update_upstream_metrics retain_upstream_metrics
      get_elem? set
  step y (starts s) = record {
    state = mark_started y.state s;
    guards = y.guards ++ some s.route_id ∷ [];
  }
  step y (retargets i route_id) = retarget_held y i route_id (held (get_elem? y.guards i))
  step y (drops i) = drop_held y i (held (get_elem? y.guards i))
  step y (selects config tier now model text routes) = record y {
    state = (select fl config tier now y.state model text routes).0;
  }
  step y (polls name m) = record y { state = update_upstream_metrics y.state name m }
  step y (forgets names) = record y { state = retain_upstream_metrics y.state names }

  unfoldable pub run : System → List Event → System
  run y [] = y
  run y (e ∷ es) = run (step y e) es

-- `RouterState::default()` and no request.
abbrev pub idle : System
idle = record { state = record { stats = []; history = []; upstream_metrics = [] }; guards = [] }
