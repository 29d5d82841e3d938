-- ===== src/Upstream/Build/Models.antt =====
-- One upstream of the configuration: what the validation of its models lets pass gets its routes.
use phala_llm_router.Base.{
  Bool, true, false, ◌&&◌, List, [], ◌∷◌, ◌++◌, none, some, Text, codes, text_eq, text_eq_iff, ◌≡◌,
  refl, ap, ◌∙◌, subst, arith, Option-cases, inl, inr,
}
use phala_llm_router.Dict
use phala_llm_router.Dict.{Dict, contains, add, contains-add, get-insert}
use phala_llm_router.Upstream.{
  is_whitespace, UpstreamConfig, Checked, valid, invalid, ◌>>=◌, ConfigError, refuse_if, is_blank,
  route_id_of, provider_is_tee,
}
use phala_llm_router.Upstream.Router.{
  Backend, ModelRoute, ModelRouterBackend, routed, new_route, with_path, add_route, enlist,
  route_for_id,
}
use phala_llm_router.Upstream.Validation.{check_models}
use phala_llm_router.Upstream.Build.{configured_route, add_models}

-- A successful bind, taken apart.
pub bind-valid {ℓ κ} :
    {A : Type ℓ} {B : Type κ} (m : Checked A) (f : A → Checked B) (b : B)
    → (m >>= f) ≡ valid b
    → (a : A) × (m ≡ valid a) × (f a ≡ valid b)
bind-valid (valid a) f b h = (a, refl, h)
bind-valid (invalid e) f b h = absurd (cc h)

refuse_if-valid : (t : Bool) (e : ConfigError) (u : Unit {0}) → refuse_if t e ≡ valid u → t ≡ false
refuse_if-valid true e u h = absurd (cc h)
refuse_if-valid false e u h = refl

-- Whatever the router routes was seen by the validation.
abbrev pub Seen : List Text → ModelRouterBackend → Type 0
Seen ids b = (q : Text) → contains q ids ≡ false → Dict.get q b.routes ≡ none

-- What the second router adds to the first, it leaves the rest as it was.
abbrev pub Keeps : ModelRouterBackend → ModelRouterBackend → Type 0
Keeps b b' =
    (q : Text) (r : ModelRoute) → Dict.get q b.routes ≡ some r → Dict.get q b'.routes ≡ some r

-- The route is there, with its public and upstream model, its backend and its class.
abbrev pub Routes : UpstreamConfig → Backend → Text → Text → ModelRouterBackend → Type 0
Routes u backend public_model upstream_model b =
    (r : ModelRoute) × (route_for_id b (route_id_of u.name public_model) ≡ routed r)
    × (r.public_model_id ≡ public_model)
    × (r.upstream_model_id ≡ upstream_model)
    × (r.upstream ≡ backend)
    × (r.is_tee ≡ some (provider_is_tee u.provider))

abbrev pub RoutesAll : UpstreamConfig → Backend → Dict Text → ModelRouterBackend → Type 0
RoutesAll u backend [] b = Unit {0}
RoutesAll u backend ((m, t) ∷ models) b = Routes u backend m t b × RoutesAll u backend models b

Routes-Keeps :
    (u : UpstreamConfig) (backend : Backend) (m t : Text) (b b' : ModelRouterBackend)
    → Keeps b b'
    → Routes u backend m t b
    → Routes u backend m t b'
unfolding route_for_id
Routes-Keeps u backend m t b b' k (r, e, a1, a2, a3, a4) =
    elim (Option-cases (Dict.get (route_id_of u.name m) b.routes)) [
      | inl f ↦ absurd (cc (rw f at e))
      | inr (s, f) ↦
          let same : s ≡ r = cc (rw f at e) in (r, rw (k _ s f) (ap routed same), a1, a2, a3, a4)
    ]

-- One model: validation lets it pass, so it gets a route.
add_route-ok :
    (b : ModelRouterBackend) (r : ModelRoute)
    → Dict.get r.route_id b.routes ≡ none
    → (b' : ModelRouterBackend) × (add_route b r ≡ routed b')
      × (Dict.get r.route_id b'.routes ≡ some r)
      × Keeps b b'
      × ((q : Text) → text_eq r.route_id q ≡ false → Dict.get q b'.routes ≡ Dict.get q b.routes)
unfolding add_route
add_route-ok b r e = (
  record (enlist b r) { routes = Dict.insert r.route_id r b.routes },
  rw e refl,
  ground (arith, get-insert r.route_id r.route_id r b.routes),
  λ q s h. ground (arith, get-insert q r.route_id r b.routes),
  λ q h. ground (arith, get-insert q r.route_id r b.routes, text_eq_iff r.route_id q),
)

is_blank-append : (a c : Text) → is_blank (a ++ c) ≡ (is_blank a && is_blank c)
unfolding is_blank
is_blank-append [] c = refl
is_blank-append (x ∷ a) c = ground (arith, is_blank-append a c)

and_false : (t : Bool) → (t && false) ≡ false
and_false true = refl
and_false false = refl

-- A route id is never blank, for its colon.
is_blank-route_id_of : (name m : Text) → is_blank (route_id_of name m) ≡ false
unfolding is_blank is_whitespace
is_blank-route_id_of name m =
    is_blank-append (name ++ codes ":") m
    ∙ ap (λ t. t && is_blank m) (is_blank-append name (codes ":") ∙ and_false (is_blank name))

abbrev bare : Text → Text → Backend → Text → ModelRoute
bare m t backend id = record {
  public_model_id = m;
  upstream_model_id = t;
  upstream = backend;
  route_id = id;
  path = none;
  is_tee = none;
}

new_route-ok :
    (m t id : Text) (backend : Backend)
    → is_blank m ≡ false
    → is_blank t ≡ false
    → is_blank id ≡ false
    → new_route m t backend id ≡ routed (bare m t backend id)
unfolding new_route
new_route-ok m t id backend a b c = rw (a, b, c) refl

-- Before and after the models of an upstream are added.
abbrev Added : UpstreamConfig → Backend → Dict Text → List Text → ModelRouterBackend → Type 0
Added u backend models seen b =
    (b' : ModelRouterBackend) × (add_models u backend models b ≡ valid b')
    × RoutesAll u backend models b'
    × Keeps b b'
    × Seen seen b'

add_models-one :
    (u : UpstreamConfig) (backend : Backend) (m t : Text) (models : Dict Text)
    (b b' : ModelRouterBackend)
    → is_blank m ≡ false
    → is_blank t ≡ false
    → add_route b (configured_route u backend m (bare m t backend (route_id_of u.name m)))
      ≡ routed b'
    → add_models u backend ((m, t) ∷ models) b ≡ add_models u backend models b'
unfolding add_models
add_models-one u backend m t models b b' p q e =
    rw (new_route-ok m t (route_id_of u.name m) backend p q (is_blank-route_id_of u.name m), e) refl

Seen-add :
    (seen : List Text) (id : Text) (b b' : ModelRouterBackend)
    → Seen seen b
    → ((q : Text) → text_eq id q ≡ false → Dict.get q b'.routes ≡ Dict.get q b.routes)
    → Seen (add id seen) b'
unfolding text_eq
Seen-add seen id b b' s other q h =
    let c = contains-add q id seen in other q (ground arith) ∙ s q (ground arith)

pub add_models-ok :
    (u : UpstreamConfig) (backend : Backend) (models : Dict Text) (seen seen' : List Text)
    (b : ModelRouterBackend)
    → check_models u.name seen models ≡ valid seen'
    → Seen seen b
    → Added u backend models seen' b
unfolding check_models
add_models-ok u backend [] seen seen' b h s =
    (b, unfold add_models in refl, tt, λ q r e. e, subst (λ x. Seen x b) (cc h) s)
add_models-ok u backend ((m, t) ∷ models) seen seen' b h s =
    let (u1, p1, h1) = bind-valid (refuse_if (is_blank m) _) _ seen' h in
    let (u2, p2, h2) = bind-valid (refuse_if (is_blank t) _) _ seen' h1 in
    let (u3, p3, h3) = bind-valid (refuse_if (contains (route_id_of u.name m) seen) _) _ seen' h2 in
    let r = configured_route u backend m (bare m t backend (route_id_of u.name m)) in
    let (b1, e1, g1, k1, o1) =
      add_route-ok b r (
        unfold configured_route with_path in
        s (route_id_of u.name m) (refuse_if-valid _ _ u3 p3)) in
    let seen1 =
      Seen-add seen (route_id_of u.name m) b b1 s (unfold configured_route with_path in o1) in
    let (b2, e2, g2, k2, s2) =
      add_models-ok u backend models (add (route_id_of u.name m) seen) seen' b1 h3 seen1 in
    (
      b2,
      add_models-one u backend m t models b b1 (refuse_if-valid _ _ u1 p1)
            (refuse_if-valid _ _ u2 p2) e1
          ∙ e2,
      (
        Routes-Keeps u backend m t b1 b2 k2 (
            unfold configured_route with_path route_for_id in
            (r, rw g1 refl, refl, refl, refl, refl)),
        g2,
      ),
      λ q x e. k2 q x (k1 q x e),
      s2,
    )

pub RoutesAll-Keeps :
    (u : UpstreamConfig) (backend : Backend) (models : Dict Text) (b b' : ModelRouterBackend)
    → Keeps b b'
    → RoutesAll u backend models b
    → RoutesAll u backend models b'
RoutesAll-Keeps u backend [] b b' k h = tt
RoutesAll-Keeps u backend ((m, t) ∷ models) b b' k h =
    (Routes-Keeps u backend m t b b' k h.0, RoutesAll-Keeps u backend models b b' k h.1)

Seen-more :
    (seen : List Text) (id : Text) (b : ModelRouterBackend) → Seen seen b → Seen (add id seen) b
Seen-more seen id b s q h = let c = contains-add q id seen in s q (ground arith)

-- The models of an upstream that is not enabled only add to what was seen.
pub check_models-Seen :
    (name : Text) (models : Dict Text) (seen seen' : List Text) (b : ModelRouterBackend)
    → check_models name seen models ≡ valid seen'
    → Seen seen b
    → Seen seen' b
unfolding check_models
check_models-Seen name [] seen seen' b h s = subst (λ x. Seen x b) (cc h) s
check_models-Seen name ((m, t) ∷ models) seen seen' b h s =
    let id = route_id_of name m in
    let (_, _, h1) = bind-valid (refuse_if (is_blank m) _) _ seen' h in
    let (_, _, h2) = bind-valid (refuse_if (is_blank t) _) _ seen' h1 in
    let (_, _, h3) = bind-valid (refuse_if (contains id seen) _) _ seen' h2 in
    check_models-Seen name models (add id seen) seen' b h3 (Seen-more seen id b s)
