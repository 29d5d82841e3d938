-- ===== src/Router/Status.antt =====
-- `upstream_status_code` stops at the first green route, and still finds the best code.
use phala_llm_router.Base.{
  ℕ, ◌≤◌, ◌==◌, min, Bool, true, false, ◌||◌, List, [], ◌∷◌, Option, none, some, if◌then◌else◌, ◌≡◌,
  refl, arith,
}
use phala_llm_router.Dict
use phala_llm_router.Router.Types.{
  Floats, MiddlewareConfig, RouterRoute, RouterState, UserTier, UpstreamMetrics, basic, premium,
}
use phala_llm_router.Router.Pressure.{
  route_status_code, status_behind, status_loop, upstream_status_code,
}

module _ (fl : Floats) (config : MiddlewareConfig) (tier : UserTier) (now : ℕ)
    (state : RouterState) where
  abbrev pub code_of : RouterRoute → ℕ
  code_of = route_status_code fl config tier now state

  -- The least of the codes, 2 if there is no route.
  unfoldable pub best_code : List RouterRoute → ℕ
  best_code [] = 2
  best_code (r ∷ rs) = min (code_of r) (best_code rs)

  best_code-le : (rs : List RouterRoute) → best_code rs ≤ 2
  unfolding best_code
  best_code-le [] = omega arith
  best_code-le (r ∷ rs) = omega (arith, best_code-le rs)

  behind-le :
      (t : UserTier) (m : Option UpstreamMetrics) → status_behind fl config tier now state t m ≤ 2
  unfolding status_behind
  behind-le t none = omega arith
  behind-le premium (some m) = ground arith
  behind-le basic (some m) = ground arith

  code_of-le : (r : RouterRoute) → code_of r ≤ 2
  unfolding route_status_code
  code_of-le r = ground (arith, behind-le tier (Dict.get r.upstream_name state.upstream_metrics))

  status_loop-best :
      (rs : List RouterRoute) (saw : Bool)
      → status_loop fl config tier now state saw rs
        ≡ (if saw then min 1 (best_code rs) else best_code rs)
  unfolding status_loop best_code
  status_loop-best [] true = refl
  status_loop-best [] false = refl
  status_loop-best (r ∷ rs) saw =
      ground (arith, status_loop-best rs (saw || code_of r == 1), code_of-le r, best_code-le rs)

  -- The code of a list of routes is the least of the codes of its routes, and 2 (red) if it has none:
  -- green as soon as one route is green, red if every one is.
  pub upstream_status_code-best :
      (rs : List RouterRoute) → upstream_status_code fl config tier now state rs ≡ best_code rs
  unfolding upstream_status_code best_code
  upstream_status_code-best [] = refl
  upstream_status_code-best (r ∷ rs) = unfold best_code in status_loop-best (r ∷ rs) false
