-- ===== src/Keyset.antt =====
-- The epoch of the keyset that a launch serves: aggregator/keyset_epoch.rs, the revocations of
-- aggregator/revocation_store.rs, and the keyset of aci/types.rs with its digests of aci/identity.rs.

pub mod Roll
pub mod Revocations
use phala_llm_router.Base.{
  ℕ, zero, suc, ◌+◌, ◌%◌, ltb, Bool, true, false, ◌&&◌, List, [], ◌∷◌, ◌++◌, map, Option, none,
  some, Text, codes, text_eq, text_discrete, ite, if◌then◌else◌, length, u64_mod, saturating_add,
  ◌≡◌, ℕ_discrete,
}
use phala_llm_router.Canonical.{Bytes, Result, ok, err, CanonicalError, jcs_sha256_hex, ◌>>=◌}
use phala_llm_router.Json.{
  items, text_or_null, Value, Items, Fields, null, number, string, array, object, nil, cons, end,
  field, pos_int,
}

pub record PublicKeyMaterial : Type 0 where
  pub algo : Text
  pub public_key_hex : Text

pub record KeyedPublicKey : Type 0 where
  pub key_id : Text
  pub algo : Text
  pub public_key_hex : Text

pub record TlsSpki : Type 0 where
  pub domain : Option Text
  pub spki_sha256_hex : Text

pub record WorkloadIdentity : Type 0 where
  pub public_key : PublicKeyMaterial
  pub subject : Option Text

pub record KeysetEpoch : Type 0 where
  pub version : ℕ
  pub not_after : ℕ

pub record WorkloadKeyset : Type 0 where
  pub workload_identity : WorkloadIdentity
  pub keyset_epoch : KeysetEpoch
  pub receipt_signing_keys : List KeyedPublicKey
  pub e2ee_public_keys : List KeyedPublicKey
  pub tls_public_keys : List TlsSpki

-- `to_canonical_value` of each
abbrev public_key_value : PublicKeyMaterial → Value
public_key_value k = object (
    field (codes "algo") (string k.algo) (field (codes "public_key") (string k.public_key_hex) end))

abbrev keyed_value : KeyedPublicKey → Value
keyed_value k = object (
    field (codes "key_id") (string k.key_id) (
      field (codes "algo") (string k.algo)
        (field (codes "public_key") (string k.public_key_hex) end)))

abbrev domain_field : Option Text → Fields
domain_field none = end
domain_field (some domain) = field (codes "domain") (string domain) end

abbrev tls_value : TlsSpki → Value
tls_value t =
    object (field (codes "spki_sha256") (string t.spki_sha256_hex) (domain_field t.domain))

abbrev identity_value : WorkloadIdentity → Value
identity_value i = object (
    field (codes "public_key") (public_key_value i.public_key)
      (field (codes "subject") (text_or_null i.subject) end))

abbrev epoch_value : KeysetEpoch → Value
epoch_value e = object (
    field (codes "version") (number (pos_int e.version))
      (field (codes "not_after") (number (pos_int e.not_after)) end))

abbrev keyset_fields : WorkloadKeyset → Fields → Fields
keyset_fields k epoch = field (codes "workload_identity") (identity_value k.workload_identity) epoch

abbrev key_fields : WorkloadKeyset → Fields
key_fields k =
    field (codes "receipt_signing_keys") (array (items (map keyed_value k.receipt_signing_keys))) (
      field (codes "e2ee_public_keys") (array (items (map keyed_value k.e2ee_public_keys)))
        (field (codes "tls_public_keys") (array (items (map tls_value k.tls_public_keys))) end))

unfoldable keyset_value : WorkloadKeyset → Value
keyset_value k =
    object
      (keyset_fields k (field (codes "keyset_epoch") (epoch_value k.keyset_epoch) (key_fields k)))

-- The value without the field "keyset_epoch".
unfoldable material_value : WorkloadKeyset → Value
material_value k = object (keyset_fields k (key_fields k))

-- The first argument is SHA-256, as hex.
unfoldable pub workload_keyset_digest : (Bytes → Text) → WorkloadKeyset → Result Text
unfolding keyset_value jcs_sha256_hex
workload_keyset_digest sha256 k = jcs_sha256_hex sha256 (keyset_value k)

unfoldable pub keyset_material_fingerprint : (Bytes → Text) → WorkloadKeyset → Result Text
unfolding material_value jcs_sha256_hex
keyset_material_fingerprint sha256 k = jcs_sha256_hex sha256 (material_value k)

pub record PersistedKeysetEpoch : Type 0 where
  pub version : ℕ
  pub not_after : ℕ
  pub material_fingerprint : Text

abbrev pub epoch : PersistedKeysetEpoch → KeysetEpoch
epoch p = record { version = p.version; not_after = p.not_after }

abbrev fresh : ℕ → Text → ℕ → ℕ → PersistedKeysetEpoch
fresh version fingerprint now window_seconds = record {
  version = version;
  not_after = saturating_add now window_seconds;
  material_fingerprint = fingerprint;
}

unfoldable pub resolve_epoch : Option PersistedKeysetEpoch → Text → ℕ → ℕ → PersistedKeysetEpoch
resolve_epoch none fingerprint now window = fresh 1 fingerprint now window
resolve_epoch (some prev) fingerprint now window =
    if text_eq prev.material_fingerprint fingerprint && ltb now prev.not_after
    then prev
    else fresh ((prev.version + 1) % u64_mod) fingerprint now window

unfoldable pub roll_forward : PersistedKeysetEpoch → ℕ → ℕ → PersistedKeysetEpoch
roll_forward previous now window =
    fresh ((previous.version + 1) % u64_mod) previous.material_fingerprint now window

pub record RevocationSignature : Type 0 where
  pub algo : Text
  pub value_hex : Text

pub record RevocationStatement : Type 0 where
  pub workload_id : Text
  pub workload_keyset_digest : Text
  pub purpose : Text
  pub revocation : RevocationSignature
  pub revoked_at : ℕ

-- `RevocationStore::is_revoked`
unfoldable pub is_revoked : List RevocationStatement → Text → Bool
is_revoked [] d = false
is_revoked (s ∷ ss) d =
    let rest = is_revoked ss d in if text_eq s.workload_keyset_digest d then true else rest

-- The loop of `resolve_launcher_epoch`, with the rounds that are left.
unfoldable pub roll_loop :
    (KeysetEpoch → Result Text)
    → List RevocationStatement
    → ℕ
    → ℕ
    → ℕ
    → PersistedKeysetEpoch
    → Result PersistedKeysetEpoch
unfolding roll_forward is_revoked
roll_loop digest revocations now window zero resolved = ok resolved
roll_loop digest revocations now window (suc rounds) resolved =
    let rest = roll_loop digest revocations now window rounds (roll_forward resolved now window) in
    elim (digest (epoch resolved)) [
      | err e ↦ err e
      | ok d ↦ if is_revoked revocations d then rest else ok resolved
    ]

pub data LaunchError : Type 0 where
  invalid_data io : LaunchError

-- What `load` finds at the path, an empty or absent file being no state.
pub data Loaded : Type 0 where
  unreadable malformed : Loaded
  state : Option PersistedKeysetEpoch → Loaded

-- The epoch that is served and the state that was written, if any.
pub data Launch : Type 0 where
  refused : LaunchError → Launch
  launched : KeysetEpoch → Option PersistedKeysetEpoch → Launch

pub persisted_discrete : Discrete PersistedKeysetEpoch
persisted_discrete = hlevel ℕ_discrete

-- `previous.as_ref() != Some(&resolved)`, the write, and whether the file system lets it pass.
unfoldable pub finish : Option PersistedKeysetEpoch → Bool → PersistedKeysetEpoch → Launch
finish none true p = launched (epoch p) (some p)
finish none false p = refused io
finish (some previous) stores p =
    ite (persisted_discrete previous p) (launched (epoch p) none)
      (if stores then launched (epoch p) (some p) else refused io)

module _ (sha256 : Bytes → Text) (make_keyset : KeysetEpoch → WorkloadKeyset)
    (revocations : List RevocationStatement) (now window : ℕ) where
  abbrev pub digest_at : KeysetEpoch → Result Text
  digest_at e = workload_keyset_digest sha256 (make_keyset e)

  unfoldable pub resolve_with : Text → Option PersistedKeysetEpoch → Bool → Launch
  unfolding resolve_epoch roll_loop finish
  resolve_with fingerprint previous stores =
      elim (roll_loop digest_at revocations now window (length revocations + 2)
        (resolve_epoch previous fingerprint now window)) [
          | err e ↦ refused invalid_data
          | ok resolved ↦ finish previous stores resolved
        ]

  unfoldable pub resolve_launcher_epoch : Loaded → Bool → Launch
  unfolding resolve_with keyset_material_fingerprint
  resolve_launcher_epoch loaded stores =
      elim (keyset_material_fingerprint sha256
        (make_keyset (record { version = 0; not_after = 0 }))) [
          | err e ↦ refused invalid_data
          | ok fingerprint ↦ elim loaded [
            | unreadable ↦ refused io
            | malformed ↦ refused invalid_data
            | state previous ↦ resolve_with fingerprint previous stores
          ]
        ]
