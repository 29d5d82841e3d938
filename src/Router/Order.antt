-- ===== src/Router/Order.antt =====
-- The order in which `ordered_routes` hands the routes on: the selected one, then by load.
use phala_llm_router.Base.{
  ℕ, suc, ltb, Bool, true, false, List, [], ◌∷◌, Text, text_eq, if◌then◌else◌, or_default, ◌≡◌,
  refl, ◌∙◌, arith, Bool-cases, inl, inr,
}
use phala_llm_router.Dict
use phala_llm_router.Dict.{Dict}
use phala_llm_router.Canonical.{Order, less, greater, units_compare}
use phala_llm_router.Router.Types.{Floats, MiddlewareConfig, RouterRoute, RouterState, UserTier}
use phala_llm_router.Router.Pressure.{route_pressure}

module _ (selected : Text) (loads : Dict ℕ) where
  abbrev load : RouterRoute → ℕ
  load r = or_default (Dict.get r.route_id loads) 0

  -- The closure of `sort_by`.
  unfoldable pub compare_routes : RouterRoute → RouterRoute → Order
  compare_routes a b =
      if text_eq a.route_id selected
      then less
      else if text_eq b.route_id selected
      then greater
      else if ltb (load a) (load b)
      then less
      else if ltb (load b) (load a)
      then greater
      else units_compare a.route_id b.route_id

  unfoldable pub insert_route : RouterRoute → List RouterRoute → List RouterRoute
  insert_route r [] = r ∷ []
  insert_route r (x ∷ xs) =
      let later = x ∷ insert_route r xs in
      elim (compare_routes r x) [ greater ↦ later | _ ↦ r ∷ x ∷ xs ]

  -- `sort_by`, which keeps the order of equals
  unfoldable pub sort_routes : List RouterRoute → List RouterRoute
  unfolding insert_route compare_routes
  sort_routes [] = []
  sort_routes (r ∷ rs) = insert_route r (sort_routes rs)

module _ (fl : Floats) (config : MiddlewareConfig) (tier : UserTier) (now : ℕ)
    (state : RouterState) where
  -- The map of loads, by route id.
  unfoldable pub route_loads : Dict ℕ → List RouterRoute → Dict ℕ
  route_loads loads [] = loads
  route_loads loads (r ∷ rs) =
      route_loads
        (Dict.insert r.route_id (route_pressure fl config tier now state r).effective_running loads)
        rs

  -- `ordered_routes` from the selection on
  unfoldable pub order_routes : Text → List RouterRoute → List RouterRoute
  unfolding sort_routes route_loads
  order_routes selected routes = sort_routes selected (route_loads [] routes) routes

-- How many routes of the list have the id.
unfoldable pub occurrences : Text → List RouterRoute → ℕ
occurrences q [] = 0
occurrences q (r ∷ rs) =
    let rest = occurrences q rs in if text_eq r.route_id q then suc rest else rest

-- The id of the first route is this one.
abbrev pub heads : Text → List RouterRoute → Bool
heads q [] = false
heads q (r ∷ rs) = text_eq r.route_id q

module _ (selected : Text) (loads : Dict ℕ) where
  insert_route-occurrences :
      (q : Text) (r : RouterRoute) (xs : List RouterRoute)
      → occurrences q (insert_route selected loads r xs) ≡ occurrences q (r ∷ xs)
  unfolding insert_route occurrences
  insert_route-occurrences q r [] = refl
  insert_route-occurrences q r (x ∷ xs) = ground (arith, insert_route-occurrences q r xs)

  sort_routes-occurrences :
      (q : Text) (rs : List RouterRoute)
      → occurrences q (sort_routes selected loads rs) ≡ occurrences q rs
  unfolding sort_routes occurrences
  sort_routes-occurrences q [] = refl
  sort_routes-occurrences q (r ∷ rs) =
      insert_route-occurrences q r (sort_routes selected loads rs)
      ∙ (unfold occurrences in ground (arith, sort_routes-occurrences q rs))

  insert_route-heads :
      (r : RouterRoute) (xs : List RouterRoute)
      → (if text_eq r.route_id selected then true else heads selected xs) ≡ true
      → heads selected (insert_route selected loads r xs) ≡ true
  unfolding insert_route compare_routes
  insert_route-heads r [] h = ground arith
  insert_route-heads r (x ∷ xs) h = ground arith

  sort_routes-heads :
      (rs : List RouterRoute) (n : ℕ)
      → occurrences selected rs ≡ suc n
      → heads selected (sort_routes selected loads rs) ≡ true
  unfolding sort_routes occurrences
  sort_routes-heads [] n h = absurd (omega arith)
  sort_routes-heads (r ∷ rs) n h = elim (Bool-cases (text_eq r.route_id selected)) [
    | inl e ↦ insert_route-heads r (sort_routes selected loads rs) (rw e refl)
    | inr e ↦
        insert_route-heads r (sort_routes selected loads rs)
          (rw e (sort_routes-heads rs n (ground arith)))
  ]

-- Where the list has a route of the selected id, the routes are handed on with such a one first, and
-- every id stands among them as often as before.
pub order_routes-heads :
    (fl : Floats) (config : MiddlewareConfig) (tier : UserTier) (now : ℕ) (state : RouterState)
    (selected q : Text) (routes : List RouterRoute) (n : ℕ)
    → occurrences selected routes ≡ suc n
    → (heads selected (order_routes fl config tier now state selected routes) ≡ true)
      × (occurrences q (order_routes fl config tier now state selected routes)
          ≡ occurrences q routes)
unfolding order_routes
order_routes-heads fl config tier now state selected q routes n h = (
  sort_routes-heads selected (route_loads fl config tier now state [] routes) routes n h,
  sort_routes-occurrences selected (route_loads fl config tier now state [] routes) q routes,
)
