-- ===== src/Service/Claims/Honest.antt =====
-- What a claim of a session rests on.
use phala_llm_router.Base.{true, false, List, [], ◌∷◌, some, Text, codes, if◌then◌else◌, ◌≡◌, ◌⊎◌}
use phala_llm_router.Receipts.Types.{UpstreamVerifiedEvent}
use phala_llm_router.Service.Claims.{provider_text, provider_bool, eq_ignore_ascii_case}
use phala_llm_router.Session.{Claim, SessionClaims, asserted, refuted, unknown, verifier_derived}

abbrev pub OfTinfoil : UpstreamVerifiedEvent → Type 0
OfTinfoil event = event.provider_type ≡ some (codes "tinfoil")

abbrev pub OneOf : Text → List Text → Type 0
OneOf t [] = ⊥
OneOf t (x ∷ xs) = (t ≡ x) ⊎ OneOf t xs

-- The provider is one whose verification includes a TEE quote.
abbrev pub OfQuotedProvider : UpstreamVerifiedEvent → Type 0
OfQuotedProvider event =
    (t : Text) × (event.provider_type ≡ some t)
    × OneOf t (codes "tinfoil" ∷ codes "near-ai" ∷ codes "chutes" ∷ codes "phala-direct" ∷ [])

-- An attested TEE is the verifier's word, or that of a provider with a quote.
abbrev pub TeeRests : UpstreamVerifiedEvent → Claim → Type 0
TeeRests event c =
    (c.status ≡ unknown) ⊎ ((c.source ≡ some verifier_derived) ⊎ OfQuotedProvider event)

-- The TCB is as its reported status says; without a report it is Tinfoil's word or unknown.
abbrev pub TcbRests : UpstreamVerifiedEvent → Claim → Type 0
TcbRests event c =
    (c.status ≡ unknown)
    ⊎ (((status : Text) × (provider_text (codes "tcb_status") event ≡ some status)
          × (c.status
              ≡ (if eq_ignore_ascii_case status (codes "uptodate") then asserted else refuted)))
        ⊎ (OfTinfoil event × (c.source ≡ some verifier_derived)))

abbrev pub OsRests : UpstreamVerifiedEvent → Claim → Type 0
OsRests event c =
    (c.status ≡ unknown)
    ⊎ (((c.status ≡ asserted) × (provider_bool (codes "production_os_image") event ≡ some true))
        ⊎ ((c.status ≡ refuted) × (provider_bool (codes "production_os_image") event ≡ some false)))

abbrev pub GpuRests : UpstreamVerifiedEvent → Claim → Type 0
GpuRests event c =
    (c.status ≡ unknown)
    ⊎ ((c.source ≡ some verifier_derived)
        × (provider_bool (codes "gpu_verified") event ≡ some true))

-- What the typed claims of an event rest on.
pub record RestOn (event : UpstreamVerifiedEvent) (claims : SessionClaims) : Type 0 where
  pub tee : TeeRests event claims.tee_attested
  pub tcb : TcbRests event claims.tcb_up_to_date
  pub os : OsRests event claims.os_known_good
  pub gpu : GpuRests event claims.gpu_attested
  pub software :
      (claims.serving_software_known_good.status ≡ unknown)
      ⊎ (OfTinfoil event × (claims.serving_software_known_good.source ≡ some verifier_derived))
  pub weights : claims.model_weights_provenance.status ≡ unknown
