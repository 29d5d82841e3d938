-- ===== src/Service/Claims/Instance.antt =====
-- The claims of one Chutes instance: `chutes_instance_id` to `per_instance_provider_claims` of
-- aggregator/service/claims.rs.
use phala_llm_router.Base.{
  Bool, false, List, [], ◌∷◌, Option, none, some, Text, codes, text_eq, if◌then◌else◌,
}
use phala_llm_router.Json.{Value, string, object, Fields, end, get_field, get_key, insert_field}
use phala_llm_router.Receipts.Types.{UpstreamVerifiedEvent}
use phala_llm_router.Service.Claims.{session_claims_for_event}
use phala_llm_router.Session.{SessionClaims, ChannelBinding, e2ee_public_key_sha256}
use phala_llm_router.Upstream.Prepare.{and_then}

abbrev pub is_chutes_type : Option Text → Bool
is_chutes_type none = false
is_chutes_type (some t) = text_eq t (codes "chutes")

abbrev key_id_of : ChannelBinding → Option Text
key_id_of (e2ee_public_key_sha256 provider key_id algo digest) = key_id
key_id_of binding = none

unfoldable pub chutes_instance_id : UpstreamVerifiedEvent → ChannelBinding → Option Text
unfolding text_eq
chutes_instance_id event binding =
    if is_chutes_type event.provider_type then key_id_of binding else none

-- `if let Some(value) = … { pc.insert(key, value) }`
unfoldable pub insert_some : Text → Option Value → Fields → Fields
unfolding insert_field
insert_some key none pc = pc
insert_some key (some value) pc = insert_field key value pc

-- The fields of those keys that a map has, inserted in the order of the keys.
unfoldable pub copy_fields : List Text → Fields → Fields → Fields
unfolding insert_some get_field
copy_fields [] map pc = pc
copy_fields (key ∷ keys) map pc = copy_fields keys map (insert_some key (get_field key map) pc)

-- What a map by instance has for an instance.
abbrev pub instance_entry : Text → Text → Fields → Option Value
instance_entry key instance_id map = and_then (get_field key map) (get_key instance_id)

abbrev gpu_keys : List Text
gpu_keys = codes "gpu_verified" ∷ codes "gpu_arch" ∷ codes "gpu_evidence_present" ∷ []

abbrev pub copy_gpu : Option Value → Fields → Fields
copy_gpu (some (object gpu)) pc = copy_fields gpu_keys gpu pc
copy_gpu v pc = pc

abbrev pub shared_keys : List Text
shared_keys =
    codes "trust_boundary"
    ∷ codes "evidence_scope"
    ∷ codes "chute_id"
    ∷ codes "canonical_model_id"
    ∷ []

abbrev pub slice_fields : Fields → Text → Fields
slice_fields map instance_id = copy_gpu (instance_entry (codes "instance_gpu") instance_id map) (
    insert_some (codes "measurement")
      (instance_entry (codes "instance_measurements") instance_id map)
      (insert_some (codes "tcb_status")
        (instance_entry (codes "instance_tcb_statuses") instance_id map)
        (insert_field (codes "instance_id") (string instance_id)
          (copy_fields shared_keys map end))))

abbrev pub slice_of : Option Value → Text → Fields
slice_of (some (object map)) instance_id = slice_fields map instance_id
slice_of v instance_id = end

unfoldable pub per_instance_provider_claims : Option Value → Text → Value
unfolding copy_fields insert_some insert_field get_field get_key
per_instance_provider_claims full instance_id = object (slice_of full instance_id)

-- The event of one instance; the fields that are left out are those of `Default`.
abbrev pub instance_event : UpstreamVerifiedEvent → Text → UpstreamVerifiedEvent
instance_event event instance_id = record {
  upstream_name = [];
  provider_type = event.provider_type;
  model_id = [];
  url_origin = none;
  verifier_id = event.verifier_id;
  result = event.result;
  required = false;
  reason = none;
  evidence = none;
  channel_bindings = [];
  provider_claims = some (per_instance_provider_claims event.provider_claims instance_id);
}

unfoldable pub per_instance_session_claims : UpstreamVerifiedEvent → Text → SessionClaims
unfolding per_instance_provider_claims session_claims_for_event
per_instance_session_claims event instance_id =
    session_claims_for_event (instance_event event instance_id)
