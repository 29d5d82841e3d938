-- ===== src/Router/Choice.antt =====
-- What `select` answers: always a route of the list, and a blocked one only where all are blocked.
use phala_llm_router.Base.{
  ℕ, Bool, true, ◌&&◌, ◌||◌, List, [], ◌∷◌, Option, some, Text, ◌≡◌, refl, sym, subst, ap, ◌∙◌,
  arith, ◌⊎◌, inl, inr, if◌then◌else◌, Bool-cases, Option-cases, or_default,
}
use phala_llm_router.Dict
use phala_llm_router.Dict.{Dict, get-insert}
use phala_llm_router.Router.Text.{is_empty}
use phala_llm_router.Router.Types.{
  Floats, MiddlewareConfig, RouterRoute, RouterState, UserTier, RouteSelection, no_stats,
  RouteStats,
}
use phala_llm_router.Router.Pressure.{
  route_order_key, pressure_of, route_pressure, least_from, least_loaded,
}
use phala_llm_router.Router.Least.{In, blocked-le, least-NotAfter, least-In}
use phala_llm_router.Router.Selection.{
  Candidate, select, select_among, choose, choose_cached, select_cache_aware,
  cache_route_is_acceptable, imbalanced, best_from, candidate, beats, enrol, or_insert,
}

module _ (fl : Floats) (config : MiddlewareConfig) (tier : UserTier) (now : ℕ)
    (state : RouterState) where
  abbrev blocked : RouterRoute → Bool
  blocked r = (route_pressure fl config tier now state r).blocked

  -- If the route is blocked, all of the list are.
  abbrev Spares : List RouterRoute → RouterRoute → Type 0
  Spares rs b = blocked b ≡ true → (q : RouterRoute) → In q rs → blocked q ≡ true

  least-Spares :
      (best : RouterRoute) (rs : List RouterRoute)
      → Spares (best ∷ rs) (least_from fl config tier now state best rs)
  unfolding route_order_key
  least-Spares best rs h q i =
      ground (arith, blocked-le _ _ (least-NotAfter fl config tier now state rs best q i))

  acceptable_unblocked :
      (c l : RouterRoute)
      → cache_route_is_acceptable fl config tier now state c l ≡ true
      → blocked c ≡ true
      → blocked l ≡ true
  unfolding cache_route_is_acceptable
  acceptable_unblocked c l h b = ground arith

  module _ (model text : Text) where
    -- One round of the loop.
    better : Candidate → RouterRoute → Candidate
    better best r =
        if beats fl config tier now state model text
          (candidate fl config tier now state model text r) best
        then candidate fl config tier now state model text r
        else best

    better-route :
        (best : Candidate) (r : RouterRoute)
        → ((better best r).route ≡ best.route) ⊎ ((better best r).route ≡ r)
    unfolding better candidate
    better-route best r =
        elim (Bool-cases (
          beats fl config tier now state model text
            (candidate fl config tier now state model text r) best)) [
              | inl won ↦ rw (won, better) (inr refl)
              | inr lost ↦ rw (lost, better) (inl refl)
            ]

    best_from-In :
        (rs : List RouterRoute) (best : Candidate)
        → ((best_from fl config tier now state model text best rs).route ≡ best.route)
          ⊎ In (best_from fl config tier now state model text best rs).route rs
    unfolding best_from better
    best_from-In [] best = inl refl
    best_from-In (r ∷ rs) best = elim (best_from-In rs (better best r)) [
      | inr i ↦ inr (inr i)
      | inl e ↦ elim (better-route best r) [ inl k ↦ inl (e ∙ k) | inr k ↦ inr (inl (sym (e ∙ k))) ]
    ]

    -- The answer names a route of the list, which is spared if any is.
    abbrev Chosen : List RouterRoute → Option RouteSelection → Type 0
    Chosen rs o =
        (s : RouteSelection) × (b : RouterRoute) × (o ≡ some s)
        × In b rs
        × (s.route_id ≡ b.route_id)
        × Spares rs b

    choose_cached-Chosen :
        (best : Candidate) (least : RouterRoute) (rs : List RouterRoute)
        → In best.route rs
        → In least rs
        → Spares rs least
        → Chosen rs (some (choose_cached fl config tier now state model text best least))
    unfolding choose_cached
    choose_cached-Chosen best least rs i j spares =
        elim (Bool-cases (
          fl.above best.rate config.cache_threshold
          && cache_route_is_acceptable fl config tier now state best.route least)) [
            | inl yes_cached ↦ (
              _,
              best.route,
              refl,
              i,
              rw yes_cached,
              λ b q k. spares (acceptable_unblocked best.route least (ground arith) b) q k,
            )
            | inr no_cache ↦ (_, least, refl, j, rw no_cache, spares)
          ]

    choose-Chosen :
        (r : RouterRoute) (rs : List RouterRoute)
        → Chosen (r ∷ rs) (choose fl config tier now state model text (r ∷ rs))
    unfolding choose select_cache_aware least_loaded candidate
    choose-Chosen r rs =
        let i = least-In fl config tier now state r rs in
        let spares = least-Spares r rs in
        elim (Bool-cases (imbalanced fl config tier now state (r ∷ rs) || is_empty text)) [
          | inl direct ↦
              rw (direct, choose)
                (_, least_from fl config tier now state r rs, refl, i, refl, spares)
          | inr cached ↦
              rw (cached, choose)
                (choose_cached-Chosen
                  (best_from fl config tier now state model text
                    (candidate fl config tier now state model text r) rs)
                  (least_from fl config tier now state r rs) (r ∷ rs)
                  (elim (best_from-In rs (candidate fl config tier now state model text r)) [
                    | inl e ↦ inl (sym e)
                    | inr k ↦ inr k
                  ])
                  i spares)
        ]

stats-or_insert :
    (q k : Text) (m : Dict RouteStats)
    → or_default (Dict.get q (or_insert k no_stats m)) no_stats ≡ or_default (Dict.get q m) no_stats
unfolding or_insert
stats-or_insert q k m = elim (Option-cases (Dict.get k m)) [
  | inl e ↦ rw (e, or_insert) (ground (arith, get-insert q k no_stats m))
  | inr (s, e) ↦ rw (e, or_insert)
]

module _ (fl : Floats) (config : MiddlewareConfig) (tier : UserTier) (now : ℕ)
    (model text : Text) where
  -- A route that was not seen before presses like one that never ran.
  route_pressure-enrol :
      (rs : List RouterRoute) (state : RouterState) (r : RouterRoute)
      → route_pressure fl config tier now (enrol state model rs) r
        ≡ route_pressure fl config tier now state r
  unfolding enrol
  route_pressure-enrol [] state r = refl
  route_pressure-enrol (x ∷ rs) state r =
      route_pressure-enrol rs _ r
      ∙ (unfold route_pressure in
          ap
            (λ s.
              pressure_of fl config tier now s (Dict.get r.upstream_name state.upstream_metrics))
            (stats-or_insert r.route_id x.route_id state.stats))

  -- Among one or more routes `select` always answers; the answer names a route of the list, and if
  -- that route is blocked, in the state that `select` found, then so is every route of the list.
  pub select-unblocked :
      (state : RouterState) (r : RouterRoute) (rs : List RouterRoute)
      → (s : RouteSelection) × (b : RouterRoute) × ((select fl config tier now state model text
            (r ∷ rs)).1
          ≡ some s)
        × In b (r ∷ rs)
        × (s.route_id ≡ b.route_id)
        × ((route_pressure fl config tier now state b).blocked ≡ true
            → (q : RouterRoute) → In q (r ∷ rs)
            → (route_pressure fl config tier now state q).blocked ≡ true)
  unfolding select
  select-unblocked state r [] = (
    _,
    r,
    refl,
    inl refl,
    refl,
    λ h q i. elim i [
      | inl e ↦ subst (λ x. (route_pressure fl config tier now state x).blocked ≡ true) e h
      | inr j ↦ absurd j
    ],
  )
  select-unblocked state r (r' ∷ rs) =
      let all = r ∷ r' ∷ rs in
      let (s, b, e, i, k, spares) =
        choose-Chosen fl config tier now (enrol state model all) model text r (r' ∷ rs) in
      (
        s,
        b,
        answered s e,
        i,
        k,
        λ h q j.
            sym (ap (λ p. p.blocked) (route_pressure-enrol all state q))
            ∙ spares (ap (λ p. p.blocked) (route_pressure-enrol all state b) ∙ h) q j,
      )
    where
      answered :
          (s : RouteSelection)
          → choose fl config tier now (enrol state model (r ∷ r' ∷ rs)) model text (r ∷ r' ∷ rs)
            ≡ some s
          → (select fl config tier now state model text (r ∷ r' ∷ rs)).1 ≡ some s
      answered s e = rw (e, select_among)
