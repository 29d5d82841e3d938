-- ===== src/Session.antt =====
-- aggregator/session.rs and `ChannelBinding` of aci/receipt.rs: the record of an attested session and
-- its content-addressed id. What `serde` makes of the hashed material and the SHA-256 digest are
-- parameters; base64 decoding is one too.
pub mod Index
pub mod Coherent
pub mod Eviction
pub mod Refinement
pub mod Log
use phala_llm_router.Base.{
  ℕ, Bool, true, false, ◌&&◌, List, [], ◌∷◌, ◌++◌, Option, none, some, Text, codes, text_eq,
  if◌then◌else◌, ◌==◌, or_default,
}
use phala_llm_router.Canonical.{
  Bytes, CanonicalError, Result, ok, err, ◌>>=◌, jcs_sha256_hex, sha256_hex,
}
use phala_llm_router.Json.{Value}

pub data ClaimStatus : Type 0 where
  asserted refuted unknown : ClaimStatus

pub data ClaimSource : Type 0 where
  hardware_proven verifier_derived provider_asserted operator_asserted : ClaimSource

pub record Claim : Type 0 where
  pub status : ClaimStatus
  pub source : Option ClaimSource
  pub reason : Option Text

pub record SessionClaims : Type 0 where
  pub tee_attested : Claim
  pub gpu_attested : Claim
  pub tcb_up_to_date : Claim
  pub os_known_good : Claim
  pub serving_software_known_good : Claim
  pub model_weights_provenance : Claim
  pub extra : List (Text × Value)

pub record EvidenceRef : Type 0 where
  pub digest : Option Text
  pub data_uri : Option Text

pub record WorkloadIdentityRef : Type 0 where
  pub signing_address : Option Text
  pub extra : List (Text × Value)

pub data ChannelBinding : Type 0 where
  -- origin, SPKI digest
  tls_spki_sha256 : Text → Text → ChannelBinding
  -- origin, certificate digest
  tls_certificate_sha256 : Text → Text → ChannelBinding
  -- provider, key id, algorithm, public key digest
  e2ee_public_key_sha256 : Text → Option Text → Text → Text → ChannelBinding

pub record AttestedSession : Type 0 where
  pub api_version : Text
  pub session_id : Text
  pub upstream_name : Text
  pub endpoint : Option Text
  pub verifier_id : Text
  pub established_at : ℕ
  pub expires_at : ℕ
  pub identity : Option WorkloadIdentityRef
  pub channel_binding : List ChannelBinding
  pub claims : SessionClaims
  pub evidence : EvidenceRef

-- The fields that the content id commits to.
pub record ContentMaterial : Type 0 where
  pub upstream_name : Text
  pub endpoint : Option Text
  pub verifier_id : Text
  pub identity : Option WorkloadIdentityRef
  pub channel_binding : List ChannelBinding
  pub claims : SessionClaims
  pub evidence_digest : Option Text

-- What the code takes from `serde_json`, `sha2`, `hex` and `base64`.
pub record Codecs : Type 0 where
  -- `serde_json::to_value` of the material, by its derived `Serialize`.
  pub to_value : ContentMaterial → Option Value
  -- `hex::encode(Sha256::digest(bytes))`
  pub sha256 : Bytes → Text
  -- `BASE64.decode`
  pub base64_decode : Text → Option Bytes

-- `s.strip_prefix(p)`
unfoldable pub strip_prefix : Text → Text → Option Text
strip_prefix [] s = some s
strip_prefix (p ∷ ps) [] = none
strip_prefix (p ∷ ps) (c ∷ s) = if p == c then strip_prefix ps s else none

-- `s.split_once(p)`, the part behind the first occurrence.
unfoldable pub after_first : Text → Text → Option Text
unfolding strip_prefix
after_first p [] = strip_prefix p []
after_first p (c ∷ s) =
    let later = after_first p s in
    elim (strip_prefix p (c ∷ s)) [ some rest ↦ some rest | none ↦ later ]

unfoldable pub material : AttestedSession → ContentMaterial
material s = record {
  upstream_name = s.upstream_name;
  endpoint = s.endpoint;
  verifier_id = s.verifier_id;
  identity = s.identity;
  channel_binding = s.channel_binding;
  claims = s.claims;
  evidence_digest = s.evidence.digest;
}

-- `?` on the result of `to_value`
abbrev serialized : Option Value → Result Value
serialized none = err CanonicalError.serialize
serialized (some v) = ok v

-- `AttestedSession::content_id`
unfoldable pub content_id : Codecs → AttestedSession → Result Text
unfolding material jcs_sha256_hex strip_prefix
content_id c s = do
  value ← serialized (c.to_value (material s))
  digest ← jcs_sha256_hex c.sha256 value
  ok (codes "as_" ++ or_default (strip_prefix (codes "sha256:") digest) digest)

-- `AttestedSession::seal`
unfoldable pub seal :
    Codecs
    → Text
    → Option Text
    → Text
    → Option WorkloadIdentityRef
    → List ChannelBinding
    → SessionClaims
    → EvidenceRef
    → ℕ
    → ℕ
    → Result AttestedSession
seal c upstream_name endpoint verifier_id identity channel_binding claims evidence established_at
      expires_at =
    let session : AttestedSession = record {
      api_version = codes "aci/1";
      session_id = [];
      upstream_name = upstream_name;
      endpoint = endpoint;
      verifier_id = verifier_id;
      established_at = established_at;
      expires_at = expires_at;
      identity = identity;
      channel_binding = channel_binding;
      claims = claims;
      evidence = evidence;
    } in
    do id ← content_id c session; ok (record session { session_id = id })

-- `EvidenceRef::digest_matches_data`
unfoldable pub digest_matches_data : Codecs → EvidenceRef → Bool
unfolding after_first sha256_hex
digest_matches_data c e = elim e.digest [
  | none ↦ true
  | some digest ↦ elim e.data_uri [
    | none ↦ true
    | some data_uri ↦ elim (after_first (codes ";base64,") data_uri) [
      | none ↦ true
      | some b64 ↦ elim (c.base64_decode b64) [
        | none ↦ false
        | some bytes ↦ text_eq (sha256_hex c.sha256 bytes) digest
      ]
    ]
  ]
]
