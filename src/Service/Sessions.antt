-- ===== src/Service/Sessions.antt =====
-- The attested sessions of a verified upstream: `record_attested_upstream_session` and what it calls,
-- of aggregator/service/forward.rs, over the `SessionStore` interface of aggregator/session_store.rs.
pub mod Content
pub mod Hashed
pub mod Live
pub mod Origin
pub mod Cited
use phala_llm_router.Base.{
  ℕ, Bool, true, false, List, [], ◌∷◌, ◌++◌, Option, none, some, Text, codes, text_eq,
  if◌then◌else◌, saturating_add,
}
use phala_llm_router.Json.{Value, object, Fields, get_field, get_key, as_str}
use phala_llm_router.Receipts.Builder.{
  ReceiptBuilder, add_upstream_verified, add_upstream_verified_with_session,
}
use phala_llm_router.Receipts.Types.{
  Built, UpstreamVerifiedEvent, VerificationResult, verified, failed,
}
use phala_llm_router.Service.Claims.{session_claims_for_event}
use phala_llm_router.Service.Claims.Instance.{chutes_instance_id, per_instance_session_claims}
use phala_llm_router.Service.Errors.{
  ServiceError, session_store, Served, served, failing, ◌>>=◌, of_canonical, mapped,
}
use phala_llm_router.Session.{
  AttestedSession, ChannelBinding, Codecs, EvidenceRef, SessionClaims, WorkloadIdentityRef, seal,
}
use phala_llm_router.Session.Index.{SessionIndex, put_and_evict, renew, get}
use phala_llm_router.Upstream.Prepare.{and_then}

-- The trait `SessionStore`, on the state of a store. `put_session` answers with the text of its error.
pub record SessionStore (S : Type 0) : Type 0 where
  pub put_session : S → AttestedSession → ℕ → S × Option Text
  pub renew_session : S → Text → ℕ → ℕ → S × Bool
  pub get_session : S → Text → ℕ → S × Option AttestedSession

-- `InMemorySessionStore`
unfoldable pub in_memory : SessionStore SessionIndex
in_memory = record {
  put_session = λ ix s ts. (put_and_evict ix s ts, none);
  renew_session = λ ix id new_expires_at now. renew ix id new_expires_at now;
  get_session = λ ix id now. get ix id now;
}

pub record SealedSession : Type 0 where
  pub instance_key : Option Text
  pub session_id : Text
  pub claims : SessionClaims

abbrev pub is_instance : Text → Option Text → Bool
is_instance id none = false
is_instance id (some k) = text_eq k id

-- `sealed.iter().find(…)`
unfoldable pub find_instance : Text → List SealedSession → Option SealedSession
unfolding text_eq
find_instance id [] = none
find_instance id (s ∷ l) =
    let rest = find_instance id l in if is_instance id s.instance_key then some s else rest

abbrev pub first : List SealedSession → Option SealedSession
first [] = none
first (s ∷ l) = some s

abbrev pub chosen : List SealedSession → Option Text → Option SealedSession
chosen sealed none = first sealed
chosen sealed (some id) = find_instance id sealed

abbrev pub cited : Option SealedSession → Option (Text × SessionClaims)
cited none = none
cited (some s) = some (s.session_id, s.claims)

unfoldable pub cite_served_session :
    List SealedSession → Option Text → Option (Text × SessionClaims)
unfolding find_instance
cite_served_session sealed served_instance_id = cited (chosen sealed served_instance_id)

-- `EvidenceRef::from_value`
unfoldable pub from_value : Value → EvidenceRef
unfolding get_key as_str
from_value v = record {
  digest = and_then (get_key (codes "digest") v) as_str;
  data_uri = and_then (get_key (codes "data") v) as_str;
}

abbrev pub no_evidence : EvidenceRef
no_evidence = record { digest = none; data_uri = none }

abbrev evidence_of : Option Value → EvidenceRef
evidence_of none = no_evidence
evidence_of (some v) = from_value v

-- An identity with an address, where there is one.
abbrev identity_of : Option Text → Option WorkloadIdentityRef
identity_of none = none
identity_of (some addr) = some (record { signing_address = some addr; extra = [] })

abbrev signing_address : Option Value → Option Text
signing_address (some (object map)) = and_then (get_field (codes "signing_address") map) as_str
signing_address v = none

unfoldable pub identity_from_provider_claims : Option Value → Option WorkloadIdentityRef
unfolding get_field as_str
identity_from_provider_claims provider_claims = identity_of (signing_address provider_claims)

-- The seal of an event's session with this evidence.
abbrev pub sealed_with :
    Codecs
    → UpstreamVerifiedEvent
    → Option WorkloadIdentityRef
    → List ChannelBinding
    → SessionClaims
    → ℕ
    → ℕ
    → EvidenceRef
    → Served AttestedSession
sealed_with c event identity channel_bindings claims now expires_at evidence = of_canonical (
    seal c event.upstream_name event.url_origin event.verifier_id identity channel_bindings claims
      evidence now expires_at)

abbrev pub digest_only : EvidenceRef → EvidenceRef
digest_only e = record { digest = e.digest; data_uri = none }

abbrev pub claims_of : UpstreamVerifiedEvent → Option Text → SessionClaims
claims_of event none = session_claims_for_event event
claims_of event (some instance_id) = per_instance_session_claims event instance_id

abbrev pub evidence_for : UpstreamVerifiedEvent → Option Text → EvidenceRef
evidence_for event none = evidence_of event.evidence
evidence_for event (some instance_id) = no_evidence

abbrev pub sealed_as : UpstreamVerifiedEvent → Option Text → Text → SealedSession
sealed_as event instance session_id = record {
  instance_key = instance;
  session_id = session_id;
  claims = claims_of event instance;
}

module _ {S : Type 0} (store : SessionStore S) (c : Codecs) where
  abbrev pub persisted : Text → S × Option Text → S × Served Text
  persisted id (st, none) = (st, served id)
  persisted id (st, some e) = (
    st,
    failing (session_store (codes "failed to persist attested session " ++ id ++ codes ": " ++ e)),
  )

  -- The end of `seal_attested_session`: the full seal is stored under the id of the probe.
  abbrev pub put_sealed : S → Text → ℕ → Served AttestedSession → S × Served Text
  put_sealed st id now (failing e) = (st, failing e)
  put_sealed st id now (served s) = persisted id (store.put_session st s now)

  abbrev pub renewed_or : Text → S × Bool → (S → S × Served Text) → S × Served Text
  renewed_or id (st, true) f = (st, served id)
  renewed_or id (st, false) f = f st

  abbrev pub probed : S → ℕ → ℕ → Served AttestedSession → Served AttestedSession → S × Served Text
  probed st now expires_at (failing e) full = (st, failing e)
  probed st now expires_at (served p) full =
      renewed_or p.session_id (store.renew_session st p.session_id expires_at now)
        (λ st'. put_sealed st' p.session_id now full)

  unfoldable pub seal_attested_session :
      S
      → UpstreamVerifiedEvent
      → Option WorkloadIdentityRef
      → List ChannelBinding
      → SessionClaims
      → EvidenceRef
      → ℕ
      → ℕ
      → S × Served Text
  unfolding seal
  seal_attested_session st event identity channel_bindings claims evidence now expires_at =
      let full = sealed_with c event identity channel_bindings claims now expires_at in
      probed st now expires_at (full (digest_only evidence)) (full evidence)

  -- One round of the loop.
  abbrev pub seal_binding :
      UpstreamVerifiedEvent → ℕ → ℕ → ChannelBinding → S → S × Served SealedSession
  seal_binding event now expires_at binding st =
      let instance = chutes_instance_id event binding in
      let (st', r) =
        seal_attested_session st event (identity_from_provider_claims event.provider_claims)
          (binding ∷ []) (claims_of event instance) (evidence_for event instance) now expires_at in
      (st', mapped (sealed_as event instance) r)

  abbrev then_rest :
      S × Served SealedSession
      → (S → S × Served (List SealedSession))
      → S × Served (List SealedSession)
  then_rest (st, failing e) f = (st, failing e)
  then_rest (st, served s) f = let (st', r) = f st in (st', mapped (λ l. s ∷ l) r)

  unfoldable pub seal_bindings :
      UpstreamVerifiedEvent → ℕ → ℕ → List ChannelBinding → S → S × Served (List SealedSession)
  unfolding seal_attested_session
  seal_bindings event now expires_at [] st = (st, served [])
  seal_bindings event now expires_at (binding ∷ bs) st =
      then_rest (seal_binding event now expires_at binding st)
        (seal_bindings event now expires_at bs)

  -- Nothing is sealed for an upstream that is not verified.
  abbrev pub recorded_for :
      VerificationResult → ℕ → ℕ → UpstreamVerifiedEvent → S → S × Served (List SealedSession)
  recorded_for failed now expires_at event st = (st, served [])
  recorded_for verified now expires_at event st =
      seal_bindings event now expires_at event.channel_bindings st

  -- On the clock's `now` and the configuration's `receipt_ttl_seconds`.
  unfoldable pub record_attested_upstream_session :
      ℕ → ℕ → UpstreamVerifiedEvent → S → S × Served (List SealedSession)
  unfolding seal_bindings
  record_attested_upstream_session now receipt_ttl_seconds event st =
      recorded_for event.result now (saturating_add now receipt_ttl_seconds) event st

-- `append_upstream_verified`; serde's bindings and claims are parameters.
unfoldable pub append_upstream_verified :
    (List ChannelBinding → Value)
    → (SessionClaims → Option Value)
    → ReceiptBuilder
    → UpstreamVerifiedEvent
    → Option (Text × SessionClaims)
    → Built ReceiptBuilder
unfolding add_upstream_verified add_upstream_verified_with_session
append_upstream_verified bindings to_value b event none = add_upstream_verified bindings b event
append_upstream_verified bindings to_value b event (some (session_id, claims)) =
    add_upstream_verified_with_session bindings b event session_id (to_value claims)
