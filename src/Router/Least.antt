-- ===== src/Router/Least.antt =====
-- `least_loaded` finds a least route by `RouteOrderKey`.
use phala_llm_router.Base.{
  Bool, true, false, some, if◌then◌else◌, ap, ℕ, ◌≤◌, List, [], ◌∷◌, ◌≡◌, ◌≢◌, refl, sym, subst,
  ◌∙◌, arith, ◌⊎◌, inl, inr,
}
use phala_llm_router.Canonical.{Order, less, equal, greater, units_compare}
use phala_llm_router.Canonical.Units.{
  flip, units_compare_self, units_compare-flip, units_compare_trans,
}
use phala_llm_router.Router.Types.{
  Floats, MiddlewareConfig, RouterRoute, RouterState, UserTier, RoutePressure, RouteOrderKey,
}
use phala_llm_router.Router.Pressure.{
  key_units, compare_key, route_order_key, route_pressure, least_from, least_loaded,
}

-- The route stands in the list.
abbrev pub In : RouterRoute → List RouterRoute → Type 0
In r [] = ⊥
In r (x ∷ xs) = (x ≡ r) ⊎ In r xs

abbrev pub NotAfter : RouteOrderKey → RouteOrderKey → Type 0
NotAfter a b = compare_key a b ≢ greater

NotAfter-refl : (a : RouteOrderKey) → NotAfter a a
unfolding compare_key
NotAfter-refl a e = cc (units_compare_self (key_units a))

NotAfter-trans : (a b c : RouteOrderKey) → NotAfter a b → NotAfter b c → NotAfter a c
unfolding compare_key
NotAfter-trans a b c = units_compare_trans (key_units a) (key_units b) (key_units c)

NotAfter-of_greater : (a b : RouteOrderKey) → compare_key a b ≡ greater → NotAfter b a
unfolding compare_key flip
NotAfter-of_greater a b h e = ground (arith, units_compare-flip (key_units a) (key_units b))

pub blocked-le : (a b : RouteOrderKey) → NotAfter a b → a.blocked ≤ b.blocked
unfolding compare_key key_units units_compare
blocked-le a b h = ground arith

module _ (fl : Floats) (config : MiddlewareConfig) (tier : UserTier) (now : ℕ)
    (state : RouterState) where
  abbrev pub key : RouterRoute → RouteOrderKey
  key = route_order_key fl config tier now state

  abbrev least : RouterRoute → List RouterRoute → RouterRoute
  least = least_from fl config tier now state

  -- One round of `min_by` keeps a route that is not after either of the two.
  kept : RouterRoute → RouterRoute → RouterRoute
  kept best r = elim (compare_key (key best) (key r)) [ greater ↦ r | _ ↦ best ]

  kept-NotAfter :
      (best r : RouterRoute)
      → NotAfter (key (kept best r)) (key best)
        × NotAfter (key (kept best r)) (key r)
        × ((kept best r ≡ best) ⊎ (kept best r ≡ r))
  unfolding kept
  kept-NotAfter best r = go (compare_key (key best) (key r)) refl
    where
      go :
          (o : Order)
          → compare_key (key best) (key r) ≡ o
          → NotAfter (key (kept best r)) (key best)
            × NotAfter (key (kept best r)) (key r)
            × ((kept best r ≡ best) ⊎ (kept best r ≡ r))
      go less e = rw (e, kept) (NotAfter-refl (key best), (λ f. cc), inl refl)
      go equal e = rw (e, kept) (NotAfter-refl (key best), (λ f. cc), inl refl)
      go greater e =
          rw (e, kept) (NotAfter-of_greater (key best) (key r) e, NotAfter-refl (key r), inr refl)

  least-NotAfter_best :
      (rs : List RouterRoute) (best : RouterRoute) → NotAfter (key (least best rs)) (key best)
  unfolding least_from kept
  least-NotAfter_best [] best = NotAfter-refl (key best)
  least-NotAfter_best (r ∷ rs) best =
      NotAfter-trans _ _ _ (least-NotAfter_best rs (kept best r)) (kept-NotAfter best r).0

  -- `least_loaded` finds a route of the list whose key is not after any other's.
  pub least-NotAfter :
      (rs : List RouterRoute) (best q : RouterRoute)
      → In q (best ∷ rs)
      → NotAfter (key (least best rs)) (key q)
  unfolding least_from kept
  least-NotAfter rs best q (inl e) =
      subst (λ x. NotAfter (key (least best rs)) (key x)) e (least-NotAfter_best rs best)
  least-NotAfter [] best q (inr i) = absurd i
  least-NotAfter (r ∷ rs) best q (inr (inl e)) =
      NotAfter-trans _ (key r) _
        (NotAfter-trans _ _ _ (least-NotAfter_best rs (kept best r)) (kept-NotAfter best r).1)
        (subst (λ x. NotAfter (key r) (key x)) e (NotAfter-refl (key r)))
  least-NotAfter (r ∷ rs) best q (inr (inr i)) = least-NotAfter rs (kept best r) q (inr i)

  least-In_rest :
      (rs : List RouterRoute) (best : RouterRoute) → (least best rs ≡ best) ⊎ In (least best rs) rs
  unfolding least_from kept
  least-In_rest [] best = inl refl
  least-In_rest (r ∷ rs) best = elim (least-In_rest rs (kept best r)) [
    | inr i ↦ inr (inr i)
    | inl e ↦ elim (kept-NotAfter best r).2 [
      | inl k ↦ inl (e ∙ k)
      | inr k ↦ inr (inl (sym (e ∙ k)))
    ]
  ]

  pub least-In : (best : RouterRoute) (rs : List RouterRoute) → In (least best rs) (best ∷ rs)
  least-In best rs = elim (least-In_rest rs best) [ inl e ↦ inl (sym e) | inr i ↦ inr i ]

-- The first entries of two lists in order, and the others if the first are equal.
head-NotAfter :
    (x y : ℕ) (xs ys : List ℕ)
    → units_compare (x ∷ xs) (y ∷ ys) ≢ greater
    → (x ≤ y) × (x ≡ y → units_compare xs ys ≢ greater)
unfolding units_compare
head-NotAfter x y xs ys h = (ground arith, λ e. ground arith)

truth : (a b : Bool) → (if a then 1 else 0) ≤ (if b then 1 else 0) → a ≡ true → b ≡ true
truth a true h e = refl
truth a false h e = absurd (ground (arith, h, e))

same_truth : (a b : Bool) → a ≡ b → ◌≡◌ {A = ℕ} (if a then 1 else 0) (if b then 1 else 0)
same_truth a b e = ap (λ t. if t then 1 else 0) e

-- One pressure is to be preferred to the other, or they are as good: by the first difference of whether
-- they are blocked, whether metrics are missing, those waiting, the fullness, the running and the
-- processed requests.
abbrev pub Prefers : RoutePressure → RoutePressure → Type 0
Prefers p q =
    (p.blocked ≡ true → q.blocked ≡ true)
    × (p.blocked ≡ q.blocked
        → (p.metrics_missing ≡ true → q.metrics_missing ≡ true)
          × (p.metrics_missing ≡ q.metrics_missing
              → (p.waiting ≤ q.waiting)
                × (p.waiting ≡ q.waiting
                    → (p.fullness_milli ≤ q.fullness_milli)
                      × (p.fullness_milli ≡ q.fullness_milli
                          → (p.effective_running ≤ q.effective_running)
                            × (p.effective_running ≡ q.effective_running
                                → p.processed ≤ q.processed)))))

module _ (fl : Floats) (config : MiddlewareConfig) (tier : UserTier) (now : ℕ)
    (state : RouterState) where
  NotAfter-Prefers :
      (r q : RouterRoute)
      → NotAfter (key fl config tier now state r) (key fl config tier now state q)
      → Prefers
          (route_pressure fl config tier now state r)
          (route_pressure fl config tier now state q)
  unfolding compare_key key_units route_order_key
  NotAfter-Prefers r q h =
      let p = route_pressure fl config tier now state r in
      let p' = route_pressure fl config tier now state q in
      let (a, ha) = head-NotAfter _ _ _ _ h in
      (
        truth p.blocked p'.blocked a,
        λ e.
            let (b, hb) = head-NotAfter _ _ _ _ (ha (same_truth p.blocked p'.blocked e)) in
            (
              truth p.metrics_missing p'.metrics_missing b,
              λ e.
                  let (c, hc) =
                    head-NotAfter _ _ _ _
                      (hb (same_truth p.metrics_missing p'.metrics_missing e)) in
                  (
                    c,
                    λ e.
                        let (d, hd) = head-NotAfter _ _ _ _ (hc e) in
                        (
                          d,
                          λ e.
                              let (f, hf) = head-NotAfter _ _ _ _ (hd e) in
                              (f, λ e. (head-NotAfter _ _ _ _ (hf e)).0),
                        ),
                  ),
            ),
      )

  -- Among one or more routes `least_loaded` answers, with one of them whose pressure is to be preferred
  -- to that of any other or is as good: an unblocked one if there is one; among those as blocked, one
  -- with metrics; then the least waiting, the least fullness, the fewest running and the fewest
  -- processed requests, each among those that are equal so far.
  pub least_loaded-Prefers :
      (r : RouterRoute) (rs : List RouterRoute)
      → (b : RouterRoute) × (least_loaded fl config tier now state (r ∷ rs) ≡ some b)
        × In b (r ∷ rs)
        × ((q : RouterRoute)
            → In q (r ∷ rs)
            → Prefers
                (route_pressure fl config tier now state b)
                (route_pressure fl config tier now state q))
  unfolding least_loaded
  least_loaded-Prefers r rs = (
    least fl config tier now state r rs,
    refl,
    least-In fl config tier now state r rs,
    λ q i.
        NotAfter-Prefers (least fl config tier now state r rs) q
          (least-NotAfter fl config tier now state rs r q i),
  )
