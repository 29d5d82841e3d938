-- ===== src/Service/Claims/Slice.antt =====
-- The claims of one instance do not depend on the other instances.
use phala_llm_router.Base.{List, [], ◌∷◌, some, Text, codes, ◌≡◌, refl, sym, ap, ◌∙◌}
use phala_llm_router.Json.{object, Fields, end, get_field}
use phala_llm_router.Receipts.Types.{UpstreamVerifiedEvent}
use phala_llm_router.Service.Claims.{session_claims_for_event}
use phala_llm_router.Service.Claims.Instance.{
  copy_fields, insert_some, instance_entry, shared_keys, slice_fields, slice_of,
  per_instance_provider_claims, per_instance_session_claims,
}

-- Two maps have the same under the keys.
abbrev pub Agree : List Text → Fields → Fields → Type 0
Agree [] m m' = Unit {0}
Agree (key ∷ keys) m m' = (get_field key m ≡ get_field key m') × Agree keys m m'

-- Two reports that agree on what is shared and on one instance, and on nothing else.
pub record SameInstance (instance_id : Text) (m m' : Fields) : Type 0 where
  pub shared : Agree shared_keys m m'
  pub tcb :
      instance_entry (codes "instance_tcb_statuses") instance_id m
      ≡ instance_entry (codes "instance_tcb_statuses") instance_id m'
  pub measurement :
      instance_entry (codes "instance_measurements") instance_id m
      ≡ instance_entry (codes "instance_measurements") instance_id m'
  pub gpu :
      instance_entry (codes "instance_gpu") instance_id m
      ≡ instance_entry (codes "instance_gpu") instance_id m'

copy_fields-Agree :
    (keys : List Text) (m m' pc : Fields)
    → Agree keys m m'
    → copy_fields keys m pc ≡ copy_fields keys m' pc
unfolding copy_fields
copy_fields-Agree [] m m' pc h = refl
copy_fields-Agree (key ∷ keys) m m' pc (e, h) =
    ap (λ o. copy_fields keys m (insert_some key o pc)) e
    ∙ copy_fields-Agree keys m m' (insert_some key (get_field key m') pc) h

slice_fields-SameInstance :
    (id : Text) (m m' : Fields) → SameInstance id m m' → slice_fields m id ≡ slice_fields m' id
slice_fields-SameInstance id m m' s =
    let shared = copy_fields-Agree shared_keys m m' end s.shared in
    cc (shared, s.tcb, s.measurement, s.gpu)

-- Two events of one provider and verifier whose reports agree on one instance.
pub record SameFor (instance_id : Text) (e e' : UpstreamVerifiedEvent) : Type 0 where
  pub m : Fields
  pub m' : Fields
  pub provider_type : e.provider_type ≡ e'.provider_type
  pub verifier_id : e.verifier_id ≡ e'.verifier_id
  pub result : e.result ≡ e'.result
  pub claims : e.provider_claims ≡ some (object m)
  pub claims' : e'.provider_claims ≡ some (object m')
  pub same : SameInstance instance_id m m'

per_instance_provider_claims-SameFor :
    (id : Text) (e e' : UpstreamVerifiedEvent)
    → SameFor id e e'
    → per_instance_provider_claims e.provider_claims id
      ≡ per_instance_provider_claims e'.provider_claims id
unfolding per_instance_provider_claims
per_instance_provider_claims-SameFor id e e' s =
    ap (λ o. object (slice_of o id)) s.claims
    ∙ ap object (slice_fields-SameInstance id s.m s.m' s.same)
    ∙ sym (ap (λ o. object (slice_of o id)) s.claims')

-- Let two events of one provider type, verifier and result have reports that agree on what is shared
-- and on what they say of one instance, and that may differ in all else, as on the other instances.
-- Then the claims of the session of that instance are the same.
pub per_instance_session_claims-SameFor :
    (id : Text) (e e' : UpstreamVerifiedEvent)
    → SameFor id e e'
    → per_instance_session_claims e id ≡ per_instance_session_claims e' id
unfolding per_instance_session_claims
per_instance_session_claims-SameFor id e e' s =
    let p = per_instance_provider_claims-SameFor id e e' s in
    ap session_claims_for_event (cc (s.provider_type, s.verifier_id, s.result, p))
