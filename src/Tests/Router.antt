-- ===== src/Tests/Router.antt =====
-- Runs of the router's state, and its theorems at concrete inputs. The floats are natural numbers.
use mathlib.Core.List.{reverse}
use phala_llm_router.Base.{
  suc, text_eq, ℕ_discrete, ◌≤◌, ◌*◌, ◌/◌, ◌==◌, ltb, true, false, List, [], ◌∷◌, none, some, Text,
  codes, ite, text_discrete, ◌≡◌, refl, arith,
}
use phala_llm_router.Base.Lists.{take}
use phala_llm_router.Json.{Value, string, array, object, nil, cons, end, field}
use phala_llm_router.Router.Types.{
  premium, Floats, MiddlewareConfig, RouterRoute, ProviderFormat, RouterState, basic,
  RouteSelection, single,
}
use phala_llm_router.Router.Pressure.{least_loaded, route_pressure, upstream_status_code}
use phala_llm_router.Router.Text.{chat_complete, bounded_routing_text, max_routing_history_chars}
use phala_llm_router.Router.Selection.{select, record_history}
use phala_llm_router.Router.InFlight.{Event, starts, retargets, drops, selects, run, idle}
use phala_llm_router.Router.Accounting.{running, holders}
use phala_llm_router.Router.Accounting.Counts.{running-holders}
use phala_llm_router.Router.Choice.{select-unblocked}
use phala_llm_router.Router.Text.{common_prefix_chars}
use phala_llm_router.Router.CommonPrefix.{common_prefix_chars-longest}
use phala_llm_router.Router.Order.{order_routes, occurrences, heads, order_routes-heads}
use phala_llm_router.Router.Least.{In, Prefers, least_loaded-Prefers}
use phala_llm_router.Router.History.{samples, recent, samples-record_history}
use phala_llm_router.Router.Status.{best_code, upstream_status_code-best}
use phala_llm_router.Router.Prefix.Request.{full_request, bounded-full_request}

abbrev floats : Floats
floats = record {
  max_zero = λ x. x;
  zero = 0;
  positive = λ x. ltb 0 x;
  at_most_zero = λ x. x == 0;
  ceil = λ x. x;
  milli = λ x y. (x * 1000) / y;
  of_usize = λ n. n;
  mul = λ x y. x * y;
  div = λ x y. x / y;
  above = λ x y. ltb y x;
  same = λ x y. x == y;
}

abbrev config : MiddlewareConfig
config = record {
  public_model = none;
  cache_threshold = 0;
  balance_abs_threshold = 32;
  balance_rel_threshold = 1;
  max_history_per_route = 2;
  metrics_poll_ms = 0;
  metrics_timeout_ms = 1000;
  metrics_stale_ms = 5000;
  metrics_path = codes "/v1/metrics";
  trusted_user_tier_header = false;
  default_engine = none;
  sse_keepalive_ms = none;
}

abbrev route : Text → RouterRoute
route id = record {
  route_id = id;
  upstream_name = id;
  candidate = record { route_id = id; format = ProviderFormat.openai; engine = none };
}

abbrev a : RouterRoute
a = route (codes "a")

abbrev b : RouterRoute
b = route (codes "b")

abbrev no_state : RouterState
no_state = record { stats = []; history = []; upstream_metrics = [] }

-- The upstream of `a` reports a queue.
abbrev queue_at_a : RouterState
queue_at_a = record {
  stats = [];
  history = [];
  upstream_metrics =
      (
        codes "a",
        record {
          healthy = true;
          error = none;
          updated_at = some 0;
          observed_running = some 1;
          observed_waiting = some 3;
          global_limit = some 8;
          basic_limit = none;
          basic_inflight = none;
          premium_inflight = none;
        },
      )
      ∷ [];
}

abbrev to_a : RouteSelection
to_a = record { route_id = codes "a"; reason = single; cache_match_rate = 0; running_at_select = 0 }

-- Two requests start on `a`; the first moves to `b`, the second ends.
abbrev events : List Event
events =
    starts to_a
    ∷ starts to_a
    ∷ retargets 0 (codes "b")
    ∷ selects config basic 0 (codes "m") (codes "hello") (a ∷ b ∷ [])
    ∷ drops 1
    ∷ []

running-holders_example :
    running (run floats idle events).state (codes "b")
    ≡ holders (codes "b") (run floats idle events).guards
running-holders_example = running-holders floats events (codes "b") (omega arith)

select-unblocked_example :
    (s : RouteSelection) × (r : RouterRoute) × ((select floats config basic 0 queue_at_a
        (codes "m")
        (codes "hi")
        (a ∷ b ∷ [])).1
      ≡ some s)
    × In r (a ∷ b ∷ [])
    × (s.route_id ≡ r.route_id)
    × ((route_pressure floats config basic 0 queue_at_a r).blocked ≡ true
        → (q : RouterRoute) → In q (a ∷ b ∷ [])
        → (route_pressure floats config basic 0 queue_at_a q).blocked ≡ true)
select-unblocked_example =
    select-unblocked floats config basic 0 (codes "m") (codes "hi") queue_at_a a (b ∷ [])

least_loaded-Prefers_example :
    (r : RouterRoute) × (least_loaded floats config premium 0 queue_at_a (a ∷ b ∷ []) ≡ some r)
    × In r (a ∷ b ∷ [])
    × ((q : RouterRoute)
        → In q (a ∷ b ∷ [])
        → Prefers
            (route_pressure floats config premium 0 queue_at_a r)
            (route_pressure floats config premium 0 queue_at_a q))
least_loaded-Prefers_example = least_loaded-Prefers floats config premium 0 queue_at_a a (b ∷ [])

upstream_status_code-best_example :
    upstream_status_code floats config basic 0 queue_at_a (a ∷ b ∷ [])
    ≡ best_code floats config basic 0 queue_at_a (a ∷ b ∷ [])
upstream_status_code-best_example =
    upstream_status_code-best floats config basic 0 queue_at_a (a ∷ b ∷ [])

abbrev recorded : RouterState
recorded = record_history no_state (codes "m") (codes "a") (codes "one") 2

samples-record_history_example :
    reverse (
      samples
        (record_history recorded (codes "m") (codes "a") (codes "two") 2)
        (codes "m")
        (codes "b"))
    ≡ ite
        (text_discrete (codes "m") (codes "m"))
        (ite
          (text_discrete (codes "a") (codes "b"))
          (recent 2 (codes "two") (samples recorded (codes "m") (codes "a")))
          (reverse (samples recorded (codes "m") (codes "b"))))
        (reverse (samples recorded (codes "m") (codes "b")))
samples-record_history_example =
    samples-record_history recorded (codes "m") (codes "a") (codes "two") 2 (codes "m") (codes "b")
      refl (omega arith)

-- { "messages": [{ "role": "user", "content": "hi" }] }
abbrev chat : Value
chat = object (
    field (codes "messages")
      (array (
        cons
          (object (
            field (codes "role") (string (codes "user"))
              (field (codes "content") (string (codes "hi")) end)))
          nil))
      end)

bounded-full_request_example :
    bounded_routing_text chat chat_complete
    ≡ take max_routing_history_chars (full_request chat chat_complete)
bounded-full_request_example = bounded-full_request chat chat_complete

same_start : take 2 (codes "hello") ≡ take 2 (codes "help")
unfolding take
same_start = refl

common_prefix_chars-longest_example :
    (take (common_prefix_chars (codes "hello") (codes "help")) (codes "hello")
      ≡ take (common_prefix_chars (codes "hello") (codes "help")) (codes "help"))
    × (2 ≤ common_prefix_chars (codes "hello") (codes "help"))
common_prefix_chars-longest_example =
    common_prefix_chars-longest 2 (codes "hello") (codes "help") (omega arith) (omega arith)
      same_start

one_b : occurrences (codes "b") (a ∷ b ∷ []) ≡ suc 0
unfolding occurrences text_eq text_discrete ℕ_discrete
one_b = refl

order_routes-heads_example :
    (heads (codes "b") (order_routes floats config basic 0 queue_at_a (codes "b") (a ∷ b ∷ []))
      ≡ true)
    × (occurrences
          (codes "a")
          (order_routes floats config basic 0 queue_at_a (codes "b") (a ∷ b ∷ []))
        ≡ occurrences (codes "a") (a ∷ b ∷ []))
order_routes-heads_example =
    order_routes-heads floats config basic 0 queue_at_a (codes "b") (codes "a") (a ∷ b ∷ []) 0 one_b
