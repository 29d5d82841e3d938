-- ===== src/Service/Claims.antt =====
-- aggregator/service/claims.rs: the claims that a verification event supports.
pub mod Instance
pub mod Honest
pub mod Slice
use phala_llm_router.Base.{
  ℕ, ◌+◌, ◌==◌, ltb, leb, Bool, true, false, ◌&&◌, ◌||◌, List, [], ◌∷◌, ◌++◌, Option, none, some,
  Text, codes, text_eq, if◌then◌else◌,
}
use phala_llm_router.Json.{
  Value, bool, string, object, Fields, end, field, get_field, get_key, as_str, insert_field,
}
use phala_llm_router.Receipts.Types.{UpstreamVerifiedEvent, VerificationResult, verified, failed}
use phala_llm_router.Session.{
  Claim, ClaimStatus, ClaimSource, SessionClaims, ChannelBinding, tls_spki_sha256,
  tls_certificate_sha256, e2ee_public_key_sha256, asserted, refuted, unknown, hardware_proven,
  verifier_derived,
}
use phala_llm_router.Upstream.Prepare.{and_then}

abbrev pub unknown_claim : Claim
unknown_claim = record { status = unknown; source = none; reason = none }

abbrev pub asserted_claim : ClaimSource → Text → Claim
asserted_claim source reason = record {
  status = asserted;
  source = some source;
  reason = some reason;
}

abbrev pub refuted_claim : ClaimSource → Text → Claim
refuted_claim source reason = record {
  status = refuted;
  source = some source;
  reason = some reason;
}

-- `SessionClaims::default()`
abbrev pub no_claims : SessionClaims
no_claims = record {
  tee_attested = unknown_claim;
  gpu_attested = unknown_claim;
  tcb_up_to_date = unknown_claim;
  os_known_good = unknown_claim;
  serving_software_known_good = unknown_claim;
  model_weights_provenance = unknown_claim;
  extra = [];
}

-- A claim that the provider made.
abbrev pub provider_claim : Text → UpstreamVerifiedEvent → Option Value
provider_claim key event = and_then event.provider_claims (get_key key)

abbrev pub provider_text : Text → UpstreamVerifiedEvent → Option Text
provider_text key event = and_then (provider_claim key event) as_str

-- `Value::as_bool`
abbrev pub as_bool : Value → Option Bool
as_bool (bool b) = some b
as_bool v = none

abbrev pub provider_bool : Text → UpstreamVerifiedEvent → Option Bool
provider_bool key event = and_then (provider_claim key event) as_bool

abbrev to_lower : ℕ → ℕ
to_lower c = if leb 65 c && leb c 90 then c + 32 else c

-- `str::eq_ignore_ascii_case`
unfoldable pub eq_ignore_ascii_case : Text → Text → Bool
eq_ignore_ascii_case [] [] = true
eq_ignore_ascii_case (c ∷ s) (d ∷ t) =
    let rest = eq_ignore_ascii_case s t in to_lower c == to_lower d && rest
eq_ignore_ascii_case s t = false

unfoldable pub hardware_tee_attested : UpstreamVerifiedEvent → Claim
hardware_tee_attested event =
    asserted_claim hardware_proven
      (event.verifier_id ++ codes " verified the TEE quote and bound the request channel")

abbrev pub tcb_claim : Option Text → Claim
tcb_claim none = unknown_claim
tcb_claim (some status) =
    let reason = codes "platform TCB status " ++ status in
    if eq_ignore_ascii_case status (codes "uptodate")
    then asserted_claim hardware_proven reason
    else refuted_claim hardware_proven reason

unfoldable pub tcb_up_to_date_claim : UpstreamVerifiedEvent → Claim
unfolding eq_ignore_ascii_case get_key as_str
tcb_up_to_date_claim event = tcb_claim (provider_text (codes "tcb_status") event)

abbrev pub os_claim : Option Bool → Claim
os_claim none = unknown_claim
os_claim (some true) =
    asserted_claim verifier_derived (codes "attested OS image resolves to a known production image")
os_claim (some false) =
    refuted_claim verifier_derived
      (codes "attested OS image is a dev image (SSH / serial console enabled), not production")

unfoldable pub os_known_good_claim : UpstreamVerifiedEvent → Claim
unfolding get_key
os_known_good_claim event = os_claim (provider_bool (codes "production_os_image") event)

abbrev gpu_reason : Option Text → Text
gpu_reason none =
    codes "NVIDIA confidential-computing GPU attestation verified and nonce-bound; "
    ++ codes "attests a genuine CC GPU, not its binding to the serving CPU TEE"
gpu_reason (some arch) =
    codes "NVIDIA confidential-computing GPU attestation verified and nonce-bound "
    ++ (codes "(arch "
        ++ (arch ++ codes "); attests a genuine CC GPU, not its binding to the serving CPU TEE"))

abbrev pub gpu_claim : Option Bool → Option Text → Claim
gpu_claim (some true) arch = asserted_claim verifier_derived (gpu_reason arch)
gpu_claim (some false) arch = unknown_claim
gpu_claim none arch = unknown_claim

unfoldable pub gpu_attested_claim : UpstreamVerifiedEvent → Claim
unfolding get_key as_str
gpu_attested_claim event =
    gpu_claim (provider_bool (codes "gpu_verified") event) (provider_text (codes "gpu_arch") event)

abbrev software_reason : Option Text → Option Text → Text
software_reason (some repo) (some digest) =
    codes "Sigstore-verified code measurement matches "
    ++ (repo ++ (codes " (release " ++ (digest ++ codes ")")))
software_reason (some repo) none = codes "Sigstore-verified code measurement matches " ++ repo
software_reason none digest =
    codes "Sigstore-verified code measurement matches the published golden values"

unfoldable pub tinfoil_software_claim : UpstreamVerifiedEvent → Claim
unfolding get_key as_str
tinfoil_software_claim event = asserted_claim verifier_derived (
    software_reason (provider_text (codes "config_repo") event)
      (provider_text (codes "release_digest") event))

unfoldable pub intel_tdx_claims : UpstreamVerifiedEvent → SessionClaims
unfolding hardware_tee_attested tcb_up_to_date_claim os_known_good_claim gpu_attested_claim
intel_tdx_claims event = record no_claims {
  tee_attested = hardware_tee_attested event;
  tcb_up_to_date = tcb_up_to_date_claim event;
  os_known_good = os_known_good_claim event;
  gpu_attested = gpu_attested_claim event;
}

unfoldable pub tinfoil_claims : UpstreamVerifiedEvent → SessionClaims
unfolding hardware_tee_attested tinfoil_software_claim os_known_good_claim
tinfoil_claims event = record no_claims {
  tee_attested = hardware_tee_attested event;
  tcb_up_to_date = asserted_claim verifier_derived (
      codes "Tinfoil's verifier requires an up-to-date TCB for a verified "
      ++ codes "result; no separable TcbStatus is surfaced");
  serving_software_known_good = tinfoil_software_claim event;
  os_known_good = os_known_good_claim event;
}

unfoldable pub generic_claims : UpstreamVerifiedEvent → SessionClaims
generic_claims event = record no_claims {
  tee_attested =
      asserted_claim verifier_derived
        (event.verifier_id ++ codes " verified the workload identity and bound the channel");
}

abbrev pub is_intel_tdx : Text → Bool
is_intel_tdx t =
    text_eq t (codes "near-ai") || text_eq t (codes "chutes") || text_eq t (codes "phala-direct")

abbrev pub mapped_claims : Option Text → UpstreamVerifiedEvent → SessionClaims
mapped_claims none event = generic_claims event
mapped_claims (some t) event =
    if text_eq t (codes "tinfoil")
    then tinfoil_claims event
    else if is_intel_tdx t
    then intel_tdx_claims event
    else generic_claims event

-- The claims that are typed, of a verified event.
abbrev pub typed_claims : VerificationResult → UpstreamVerifiedEvent → SessionClaims
typed_claims verified event = mapped_claims event.provider_type event
typed_claims failed event = no_claims

-- `Ord` of `str`
unfoldable pub text_less : Text → Text → Bool
text_less s [] = false
text_less [] (d ∷ t) = true
text_less (c ∷ s) (d ∷ t) = let rest = text_less s t in ltb c d || (c == d && rest)

-- `BTreeMap::insert`, the entries being in the order of their keys.
unfoldable pub insert_entry : Text → Value → List (Text × Value) → List (Text × Value)
unfolding text_less text_eq
insert_entry k v [] = (k, v) ∷ []
insert_entry k v ((j, w) ∷ es) =
    let rest = insert_entry k v es in
    if text_eq k j
    then (k, v) ∷ es
    else if text_less k j
    then (k, v) ∷ (j, w) ∷ es
    else (j, w) ∷ rest

unfoldable pub insert_entries : Fields → List (Text × Value) → List (Text × Value)
unfolding insert_entry
insert_entries end es = es
insert_entries (field k v fs) es = insert_entries fs (insert_entry k v es)

abbrev pub extra_of : Option Value → List (Text × Value)
extra_of (some (object map)) = insert_entries map []
extra_of v = []

unfoldable pub session_claims_for_event : UpstreamVerifiedEvent → SessionClaims
unfolding intel_tdx_claims tinfoil_claims generic_claims insert_entries text_eq
session_claims_for_event event = record (typed_claims event.result event) {
  extra = extra_of event.provider_claims;
}
