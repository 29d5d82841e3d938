-- ===== src/Upstream/Prepare/Same.antt =====
-- What is prepared is what is sent: the route that a request is prepared for is the one it is
-- forwarded on; the model of its body changes, and of the other fields at most the floats.
use phala_llm_router.Base.{
  if_pos, if_neg, true, Option, none, some, is_some, Text, codes, text_discrete, ◌≡◌, ◌≢◌, refl,
  sym, ap, ◌∙◌, subst, arith,
}
use phala_llm_router.Dict
use phala_llm_router.Dict.{get-insert}
use phala_llm_router.Json.{
  Value, null, bool, number, string, array, object, Fields, get_field, get_key, insert_field,
  get_field-insert,
}
use phala_llm_router.Json.Alike.{Alike, AlikeOption, get_key-Alike, string-Alike}
use phala_llm_router.Upstream.Prepare.{
  prepared_request, UpstreamRequest, PreparedUpstreamRequest, and_then, is_chat_surface, set_model,
  rewrite_model, request_model_id, rewrite_request_model, chosen_route, resolved_path, prepare,
  route_from_prepared,
}
use phala_llm_router.Upstream.Router.{
  no_upstream_route, ModelRoute, ModelRouterBackend, Routed, routed, unrouted, ◌>>=◌, or_unrouted,
  enlist, add_route, route_for_id, route_for, no_model_field, invalid_body, unserializable,
  RoutingError,
}

-- Every route stands under its own id.
abbrev pub IsKeyed : ModelRouterBackend → Type 0
IsKeyed b = (q : Text) (r : ModelRoute) → Dict.get q b.routes ≡ some r → r.route_id ≡ q

bind-routed {ℓ κ} :
    {A : Type ℓ} {B : Type κ} (m : Routed A) (f : A → Routed B) (b : B)
    → (m >>= f) ≡ routed b
    → (a : A) × (m ≡ routed a) × (f a ≡ routed b)
bind-routed (routed a) f b h = (a, refl, h)
bind-routed (unrouted e) f b h = absurd (cc h)

or_unrouted-routed {ℓ} :
    {A : Type ℓ} (o : Option A) (e : RoutingError) (a : A) → or_unrouted o e ≡ routed a → o ≡ some a
or_unrouted-routed none e a h = absurd (cc h)
or_unrouted-routed (some x) e a h = cc h

route_for_id-IsKeyed :
    (b : ModelRouterBackend) (q : Text) (r : ModelRoute)
    → IsKeyed b
    → route_for_id b q ≡ routed r
    → (r.route_id ≡ q) × (route_for_id b r.route_id ≡ routed r)
unfolding route_for_id
route_for_id-IsKeyed b q r k h =
    let own = k q r (or_unrouted-routed (Dict.get q b.routes) _ r h) in
    (own, subst (λ x. route_for_id b x ≡ routed r) (sym own) h)

is_some-resolved_path :
    (r : ModelRoute) (path : Option Text) → is_some (resolved_path r path) ≡ true
unfolding is_chat_surface
is_some-resolved_path r none = refl
is_some-resolved_path r (some p) = ground arith

pub add_route-IsKeyed :
    (b b' : ModelRouterBackend) (r : ModelRoute)
    → IsKeyed b
    → add_route b r ≡ routed b'
    → IsKeyed b'
unfolding add_route enlist
add_route-IsKeyed b b' r k h q x e = ground (arith, get-insert q r.route_id r b.routes, k q x)

chosen_route-IsKeyed :
    (b : ModelRouterBackend) (model : Text) (target : Option Text) (r : ModelRoute)
    → IsKeyed b
    → chosen_route b model target ≡ routed r
    → route_for_id b r.route_id ≡ routed r
unfolding route_for
chosen_route-IsKeyed b model (some q) r k h = (route_for_id-IsKeyed b q r k h).1
chosen_route-IsKeyed b model none r k h =
    let (q, p, h1) =
      bind-routed (or_unrouted (Dict.get model b.default_routes) (no_upstream_route model))
        (route_for_id b) r h in
    (route_for_id-IsKeyed b q r k h1).1

set_model-routed :
    (model : Text) (obj : Fields) (o : Option Value) (w : Value)
    → set_model model obj o ≡ routed w
    → w ≡ object (insert_field (codes "model") (string model) obj)
set_model-routed model obj (some (string s)) w h = cc h
set_model-routed model obj (some null) w h = absurd (cc h)
set_model-routed model obj (some (bool x)) w h = absurd (cc h)
set_model-routed model obj (some (number x)) w h = absurd (cc h)
set_model-routed model obj (some (array x)) w h = absurd (cc h)
set_model-routed model obj (some (object x)) w h = absurd (cc h)
set_model-routed model obj none w h = absurd (cc h)

rewrite_model-routed :
    (model : Text) (v w : Value)
    → rewrite_model model v ≡ routed w
    → (obj : Fields) × (v ≡ object obj)
      × (w ≡ object (insert_field (codes "model") (string model) obj))
rewrite_model-routed model (object obj) w h =
    (obj, refl, set_model-routed model obj (get_field (codes "model") obj) w h)
rewrite_model-routed model null w h = absurd (cc h)
rewrite_model-routed model (bool x) w h = absurd (cc h)
rewrite_model-routed model (number x) w h = absurd (cc h)
rewrite_model-routed model (string x) w h = absurd (cc h)
rewrite_model-routed model (array x) w h = absurd (cc h)

module _ (from_slice : Text → Option Value) (to_vec : Value → Option Text) where
  -- A field of a body.
  abbrev pub body_field : Text → Text → Option Value
  body_field body k = and_then (from_slice body) (get_key k)

  -- The model of a body becomes the one that is asked for; the other fields are there as before, up to
  -- the floats in them.
  abbrev pub Rewrites : Text → Text → Text → Type 0
  Rewrites model body body' =
      (body_field body' (codes "model") ≡ some (string model))
      × ((k : Text) → k ≢ codes "model" → AlikeOption (body_field body k) (body_field body' k))

  -- What a request that is prepared for a route has.
  abbrev pub PreparedFor :
      ModelRouterBackend → UpstreamRequest → ModelRoute → PreparedUpstreamRequest → Type 0
  PreparedFor b req r p =
      (route_from_prepared from_slice to_vec b p ≡ routed r)
      × Rewrites r.upstream_model_id req.body p.request.body
      × (p.url_origin ≡ r.upstream.url_origin)
      × (p.upstream_name ≡ r.upstream.name)
      × (p.is_tee ≡ r.is_tee)
      × (is_some p.request.path ≡ true)

  -- `serde_json` reads back what it prints of an object that it has read and of which one field was
  -- given a text, up to the floats: without its feature `float_roundtrip` they may be rounded.
  abbrev pub ReadsBack : Type 0
  ReadsBack =
      (body body' k x : Text) (obj : Fields)
      → from_slice body ≡ some (object obj)
      → to_vec (object (insert_field k (string x) obj)) ≡ some body'
      → (w : Value) × (from_slice body' ≡ some w) × Alike (object (insert_field k (string x) obj)) w

module _ (from_slice : Text → Option Value) (to_vec : Value → Option Text)
    (reads : ReadsBack from_slice to_vec) where
  rewrite_request_model-Rewrites :
      (body body' model : Text)
      → rewrite_request_model from_slice to_vec body model ≡ routed body'
      → Rewrites from_slice to_vec model body body'
  unfolding rewrite_request_model get_key
  rewrite_request_model-Rewrites body body' model h =
      let (v, p1, h1) = bind-routed (or_unrouted (from_slice body) invalid_body) _ body' h in
      let (w, p2, h2) = bind-routed (rewrite_model model v) _ body' h1 in
      let (obj, is_obj, changed) = rewrite_model-routed model v w p2 in
      let got : from_slice body ≡ some (object obj) =
        or_unrouted-routed (from_slice body) invalid_body v p1 ∙ ap some is_obj in
      let put : to_vec (object (insert_field (codes "model") (string model) obj)) ≡ some body' =
        ap to_vec (sym changed) ∙ or_unrouted-routed (to_vec w) unserializable body' h2 in
      let (back, read, same) = reads body body' (codes "model") model obj got put in
      let field_of : (k : Text)
          → AlikeOption (get_field k (insert_field (codes "model") (string model) obj))
              (body_field from_slice to_vec body' k) =
        λ k.
          subst
            (λ o.
              AlikeOption (get_field k (insert_field (codes "model") (string model) obj))
                (and_then o (get_key k)))
            (sym read)
            (get_key-Alike k (insert_field (codes "model") (string model) obj) back same) in
      (
        string-Alike model (body_field from_slice to_vec body' (codes "model")) (
            subst (λ o. AlikeOption o (body_field from_slice to_vec body' (codes "model")))
              (get_field-insert (codes "model") (codes "model") (string model) obj
                ∙ if_pos (text_discrete (codes "model") (codes "model")) refl _ _)
              (field_of (codes "model"))),
        λ k n.
            subst (λ o. AlikeOption o (body_field from_slice to_vec body' k))
              (get_field-insert k (codes "model") (string model) obj
                ∙ if_neg (text_discrete (codes "model") k) (λ x. n (sym x)) _ _
                ∙ ap (λ o. and_then o (get_key k)) (sym got))
              (field_of k),
      )

  prepared_request-PreparedFor :
      (b : ModelRouterBackend) (req : UpstreamRequest) (r : ModelRoute) (body : Text)
      → route_for_id b r.route_id ≡ routed r
      → rewrite_request_model from_slice to_vec req.body r.upstream_model_id ≡ routed body
      → PreparedFor from_slice to_vec b req r (prepared_request r req body)
  unfolding route_from_prepared
  prepared_request-PreparedFor b req r body found h = (
    found,
    rewrite_request_model-Rewrites req.body body r.upstream_model_id h,
    refl,
    refl,
    refl,
    is_some-resolved_path r req.path,
  )

  -- In a router whose routes stand under their own ids, as `add_route` keeps them, and with a JSON
  -- library that reads back what it prints of a value it has read, up to floats: a request that
  -- `prepare` accepts is prepared for the route that its target id, or else its body's model, names;
  -- `forward_prepared` finds that very route again; the prepared body has the upstream's model id and
  -- the caller's other fields, in which only floats may differ; and the upstream, the origin and the
  -- trusted hardware class of the request are those of the route.
  pub prepare-route_from_prepared :
      (b : ModelRouterBackend) (req : UpstreamRequest) (p : PreparedUpstreamRequest)
      → IsKeyed b
      → prepare from_slice to_vec b req ≡ routed p
      → (model : Text) × (r : ModelRoute) × (request_model_id from_slice to_vec req.body
          ≡ some model)
        × (chosen_route b model req.target_route_id ≡ routed r)
        × PreparedFor from_slice to_vec b req r p
  unfolding prepare
  prepare-route_from_prepared b req p k h =
      let (model, p1, h1) =
        bind-routed (or_unrouted (request_model_id from_slice to_vec req.body) no_model_field) _ p
          h in
      let (r, p2, h2) = bind-routed (chosen_route b model req.target_route_id) _ p h1 in
      let (body, p3, h3) =
        bind-routed (rewrite_request_model from_slice to_vec req.body r.upstream_model_id) _ p h2 in
      (
        model,
        r,
        or_unrouted-routed _ no_model_field model p1,
        p2,
        subst (PreparedFor from_slice to_vec b req r) (cc h3)
            (prepared_request-PreparedFor b req r body (chosen_route-IsKeyed b model _ r k p2) p3),
      )
