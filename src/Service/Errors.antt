-- ===== src/Service/Errors.antt =====
-- aggregator/service/errors.rs and `UpstreamError` of aci/upstream/mod.rs: why the service refuses, and
-- its results.
use phala_llm_router.Base.{ℕ, Text, ◌≡◌, refl, ap}
use phala_llm_router.Canonical.{CanonicalError, Result, ok, err}
use phala_llm_router.Receipts.Types.{Built, KeyError, ReceiptError, done, refused}

pub data UpstreamVerificationError : Type 0 where
  no_verifier_result : UpstreamVerificationError
  verifier_failed : Text → UpstreamVerificationError

pub data E2eeError : Type 0 where
  header_missing invalid_signing_algo invalid_version invalid_public_key : E2eeError
  model_key_mismatch invalid_nonce replay_detected invalid_timestamp : E2eeError
  invalid_payload_model decryption_failed encryption_failed : E2eeError

pub data UpstreamError : Type 0 where
  routing transport channel_binding_mismatch : Text → UpstreamError
  -- status, body
  rejected : ℕ → Text → UpstreamError

pub data ServiceError : Type 0 where
  test_keys_in_production invalid_source_provenance : ServiceError
  upstream_verification : UpstreamVerificationError → ServiceError
  e2ee : E2eeError → ServiceError
  canonical : CanonicalError → ServiceError
  key : KeyError → ServiceError
  receipt : ReceiptError → ServiceError
  upstream : UpstreamError → ServiceError
  session_store revocation_store metrics : Text → ServiceError
  keyset_revoked no_receipt_key downstream_tls_domain_missing : ServiceError
  downstream_tls_domain_unknown : Text → ServiceError

-- `Result` with a `ServiceError`
pub data Served {ℓ} (A : Type ℓ) : Type ℓ where
  served : A → Served A
  failing : ServiceError → Served A

infixl 5 ◌>>=◌
abbrev pub ◌>>=◌ {ℓ κ} : {A : Type ℓ} {B : Type κ} → Served A → (A → Served B) → Served B
served a >>= f = f a
failing e >>= f = failing e

-- `?` on the errors that `ServiceError` is made from.
abbrev pub of_canonical {ℓ} : {A : Type ℓ} → Result A → Served A
of_canonical (ok a) = served a
of_canonical (err e) = failing (canonical e)

abbrev pub of_built {ℓ} : {A : Type ℓ} → Built A → Served A
of_built (done a) = served a
of_built (refused e) = failing (receipt e)

-- Applied to what is served.
abbrev pub mapped {ℓ κ} : {A : Type ℓ} {B : Type κ} → (A → B) → Served A → Served B
mapped f (served a) = served (f a)
mapped f (failing e) = failing e

pub bind-served {ℓ κ} :
    {A : Type ℓ} {B : Type κ} (m : Served A) (f : A → Served B) (b : B)
    → (m >>= f) ≡ served b
    → (a : A) × (m ≡ served a) × (f a ≡ served b)
bind-served (served a) f b h = (a, refl, h)
bind-served (failing e) f b h = absurd (cc h)

pub of_canonical-ok {ℓ} : {A : Type ℓ} (r : Result A) (a : A) → of_canonical r ≡ served a → r ≡ ok a
of_canonical-ok (ok b) a h = ap ok (cc h)
of_canonical-ok (err e) a h = absurd (cc h)
