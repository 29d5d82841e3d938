-- ===== src/Router/Accounting.antt =====
-- What each operation does to the running count of a route, and the guards that hold a route.
pub mod Counts
use phala_llm_router.Base.{
  ℕ, zero, suc, ◌+◌, ◌-◌, ◌%◌, ◌<◌, ◌≤◌, Bool, true, false, List, [], ◌∷◌, ◌++◌, Option, none, some,
  Text, text_discrete, ite, if◌then◌else◌, or_default, u64_mod, text_eq, text_eq_iff, length, ◌≡◌,
  refl, sym, ap, ◌∙◌, arith, Option-cases, Bool-cases, inl, inr, length-append, if_pos, if_neg,
}
use phala_llm_router.Dict
use phala_llm_router.Dict.{get-insert, get-adjust, get-retain}
use phala_llm_router.Router.Types.{
  Floats, MiddlewareConfig, RouterRoute, RouteStats, no_stats, RouterState, UpstreamMetrics,
  UserTier, RouteSelection, Reason, cache, single, load_imbalance, no_text, least_running,
}
use phala_llm_router.Router.Selection.{
  select, select_among, enrol, record_history, or_insert, choose,
}
use phala_llm_router.Router.InFlight.{
  System, Event, starts, retargets, drops, selects, polls, forgets, stats_of, count_reason,
  mark_started, decrement_running, increment_running, retarget, step, run, idle, get_elem?, set,
  held, retarget_held, drop_held, update_upstream_metrics, retain_upstream_metrics, wrapping_suc,
}

unfoldable pub running : RouterState → Text → ℕ
running state q = (stats_of state q).running

abbrev pub one_if : Text → Option Text → ℕ
one_if q none = 0
one_if q (some r) = ite (text_discrete r q) 1 0

-- How many guards hold the route.
unfoldable pub holders : Text → List (Option Text) → ℕ
holders q [] = 0
holders q (g ∷ gs) = one_if q g + holders q gs

pub holders-append :
    (q : Text) (gs : List (Option Text)) (g : Option Text)
    → holders q (gs ++ g ∷ []) ≡ holders q gs + one_if q g
unfolding holders
holders-append q [] g = omega arith
holders-append q (h ∷ gs) g = omega (arith, holders-append q gs g)

pub holders-set :
    (q : Text) (gs : List (Option Text)) (i : ℕ) (g h : Option Text)
    → get_elem? gs i ≡ some g
    → holders q (set gs i h) + one_if q g ≡ holders q gs + one_if q h
unfolding holders get_elem? set
holders-set q [] i g h e = absurd (cc e)
holders-set q (x ∷ gs) zero g h e = let p : x ≡ g = cc e in rw p (omega arith)
holders-set q (x ∷ gs) (suc i) g h e = omega (arith, holders-set q gs i g h e)

pub length-set :
    (gs : List (Option Text)) (i : ℕ) (g : Option Text) → length (set gs i g) ≡ length gs
unfolding set
length-set [] i g = refl
length-set (x ∷ gs) zero g = refl
length-set (x ∷ gs) (suc i) g = ap suc (length-set gs i g)

pub holders-le-length : (q : Text) (gs : List (Option Text)) → holders q gs ≤ length gs
unfolding holders
holders-le-length q [] = omega arith
holders-le-length q (none ∷ gs) = omega (arith, holders-le-length q gs)
holders-le-length q (some r ∷ gs) = ground (arith, holders-le-length q gs)

running_insert :
    (state : RouterState) (k q : Text) (s : RouteStats) (h : Dict.Dict (Dict.Dict (List Text)))
    → running (record state { stats = Dict.insert k s state.stats; history = h }) q
      ≡ (ite (text_discrete k q) s.running (running state q))
unfolding running stats_of
running_insert state k q s h =
    ap (λ o. (or_default o no_stats).running) (get-insert q k s state.stats)
    ∙ elim (text_discrete k q) [
      | yes p ↦ rw (if_pos _ p, if_pos _ p)
      | no p ↦ rw (if_neg _ p, if_neg _ p)
    ]

running-count_reason : (r : Reason) (s : RouteStats) → (count_reason r s).running ≡ s.running
unfolding count_reason
running-count_reason cache s = refl
running-count_reason single s = refl
running-count_reason _ s = refl

pub running-mark_started :
    (state : RouterState) (s : RouteSelection) (q : Text)
    → running (mark_started state s) q ≡ (
        ite
          (text_discrete s.route_id q)
          ((running state s.route_id + 1) % u64_mod)
          (running state q))
unfolding mark_started running
running-mark_started state s q =
    running_insert state s.route_id q _ state.history
    ∙ ap (λ n. ite (text_discrete s.route_id q) n (running state q))
        (running-count_reason s.reason _)

pub running-decrement :
    (state : RouterState) (r q : Text)
    → running (decrement_running state r) q
      ≡ (ite (text_discrete r q) (running state q - 1) (running state q))
unfolding running decrement_running stats_of
running-decrement state r q =
    ground (arith, get-adjust q r (λ s. record s { running = s.running - 1 }) state.stats)

pub running-increment :
    (state : RouterState) (r q : Text)
    → running (increment_running state r) q
      ≡ (ite (text_discrete r q) ((running state r + 1) % u64_mod) (running state q))
unfolding running increment_running stats_of
running-increment state r q = ground (
  arith,
  get-insert q r (record (stats_of state r) { running = wrapping_suc (stats_of state r).running })
      state.stats,
)

running_absent :
    (k q : Text) (state : RouterState) (h : Dict.Dict (Dict.Dict (List Text)))
    → Dict.get k state.stats ≡ none
    → running (record state { stats = Dict.insert k no_stats state.stats; history = h }) q
      ≡ running state q
unfolding running stats_of
running_absent k q state h e = ground (arith, running_insert state k q no_stats h)

running-or_insert :
    (k q : Text) (state : RouterState) (h : Dict.Dict (Dict.Dict (List Text)))
    → running (record state { stats = or_insert k no_stats state.stats; history = h }) q
      ≡ running state q
unfolding running stats_of or_insert
running-or_insert k q state h = elim (Option-cases (Dict.get k state.stats)) [
  | inl e ↦ rw (e, or_insert) (unfold running stats_of or_insert in running_absent k q state h e)
  | inr (s, e) ↦ rw (e, or_insert)
]

running-enrol :
    (rs : List RouterRoute) (state : RouterState) (model q : Text)
    → running (enrol state model rs) q ≡ running state q
unfolding enrol
running-enrol [] state model q = refl
running-enrol (r ∷ rs) state model q =
    running-enrol rs _ model q ∙ running-or_insert r.route_id q state _

running-record_history :
    (state : RouterState) (model r text q : Text) (n : ℕ)
    → running (record_history state model r text n) q ≡ running state q
unfolding running stats_of record_history
running-record_history state model r text q n = ground arith

pub running-select :
    (fl : Floats) (config : MiddlewareConfig) (tier : UserTier) (now : ℕ) (state : RouterState)
    (model text q : Text) (rs : List RouterRoute)
    → running (select fl config tier now state model text rs).0 q ≡ running state q
unfolding select select_among
running-select fl config tier now state model text q [] = refl
running-select fl config tier now state model text q (r ∷ []) =
    running-record_history _ model r.route_id text q config.max_history_per_route
    ∙ running-enrol (r ∷ []) state model q
running-select fl config tier now state model text q (r ∷ r' ∷ rs) =
    let among = enrol state model (r ∷ r' ∷ rs) in
    elim (Option-cases (choose fl config tier now among model text (r ∷ r' ∷ rs))) [
      | inl e ↦ rw (e, select_among) (running-enrol (r ∷ r' ∷ rs) state model q)
      | inr (s, e) ↦
          rw (e, select_among)
            (running-record_history among model s.route_id text q config.max_history_per_route
              ∙ running-enrol (r ∷ r' ∷ rs) state model q)
    ]
