-- ===== src/Service/Sessions/Content.antt =====
-- The id of a sealed session does not depend on the bytes of its evidence.
use phala_llm_router.Base.{
  ℕ, Bool, true, false, List, Option, none, some, Text, [], codes, subst, ◌≡◌, ◌⊎◌, refl, sym, ap,
  ◌∙◌, inl, inr,
}
use phala_llm_router.Canonical.{Result, ok, err, CanonicalError, ◌>>=◌}
use phala_llm_router.Receipts.Types.{UpstreamVerifiedEvent}
use phala_llm_router.Service.Errors.{
  session_store, Served, served, failing, of_canonical, mapped, canonical,
}
use phala_llm_router.Service.Sessions.{
  SessionStore, sealed_with, digest_only, seal_attested_session, put_sealed, probed, renewed_or,
  persisted,
}
use phala_llm_router.Session.{
  AttestedSession, ChannelBinding, Codecs, EvidenceRef, SessionClaims, WorkloadIdentityRef, seal,
  content_id, material,
}

-- What a probe and the full seal can come to: two sessions of one id, or one error.
pub record SealedBoth (expires_at : ℕ) (probe full : Served AttestedSession) : Type 0 where
  pub p : AttestedSession
  pub s : AttestedSession
  pub of_probe : probe ≡ served p
  pub of_full : full ≡ served s
  pub same_id : p.session_id ≡ s.session_id
  pub deadline : s.expires_at ≡ expires_at

abbrev pub SealedAlike : ℕ → Served AttestedSession → Served AttestedSession → Type 0
SealedAlike expires_at probe full =
    SealedBoth expires_at probe full
    ⊎ ((e : CanonicalError) × (probe ≡ failing (canonical e)) × (full ≡ failing (canonical e)))

alike :
    (r : Result Text) (a b : AttestedSession) (expires_at : ℕ)
    → b.expires_at ≡ expires_at
    → SealedAlike expires_at
        (of_canonical (do id ← r; ok (record a { session_id = id })))
        (of_canonical (do id ← r; ok (record b { session_id = id })))
alike (ok id) a b expires_at h = inl (record {
  p = record a { session_id = id };
  s = record b { session_id = id };
  of_probe = refl;
  of_full = refl;
  same_id = refl;
  deadline = h;
})
alike (err e) a b expires_at h = inr (e, refl, refl)

-- The session that `seal` gives its id.
abbrev unnamed :
    UpstreamVerifiedEvent
    → Option WorkloadIdentityRef
    → List ChannelBinding
    → SessionClaims
    → ℕ
    → ℕ
    → EvidenceRef
    → AttestedSession
unnamed event identity channel_bindings claims now expires_at evidence = record {
  api_version = codes "aci/1";
  session_id = [];
  upstream_name = event.upstream_name;
  endpoint = event.url_origin;
  verifier_id = event.verifier_id;
  established_at = now;
  expires_at = expires_at;
  identity = identity;
  channel_binding = channel_bindings;
  claims = claims;
  evidence = evidence;
}

pub seal-SealedAlike :
    (c : Codecs) (event : UpstreamVerifiedEvent) (identity : Option WorkloadIdentityRef)
    (channel_bindings : List ChannelBinding) (claims : SessionClaims) (evidence : EvidenceRef)
    (now expires_at : ℕ)
    → SealedAlike expires_at
        (sealed_with c event identity channel_bindings claims now expires_at (digest_only evidence))
        (sealed_with c event identity channel_bindings claims now expires_at evidence)
unfolding seal content_id material
seal-SealedAlike c event identity channel_bindings claims evidence now expires_at =
    let raw = unnamed event identity channel_bindings claims now expires_at in
    alike (content_id c (raw evidence)) (raw (digest_only evidence)) (raw evidence) expires_at refl

module _ {S : Type 0} (store : SessionStore S) (c : Codecs) where
  -- The store's own error, or this id.
  abbrev pub IdOrStoreError : Served Text → Served Text → Type 0
  IdOrStoreError got want = (got ≡ want) ⊎ ((e : Text) × (got ≡ failing (session_store e)))

  persisted-id :
      (id : Text) (p : S × Option Text) → IdOrStoreError (persisted store c id p).1 (served id)
  persisted-id id (st, none) = inl refl
  persisted-id id (st, some e) = inr (_, refl)

  renewed_or-id :
      (id : Text) (p : S × Bool) (f : S → S × Served Text)
      → ((st : S) → IdOrStoreError (f st).1 (served id))
      → IdOrStoreError (renewed_or store c id p f).1 (served id)
  renewed_or-id id (st, true) f h = inl refl
  renewed_or-id id (st, false) f h = h st

  probed-id :
      (st : S) (now expires_at : ℕ) (probe full : Served AttestedSession)
      → SealedAlike expires_at probe full
      → IdOrStoreError
          (probed store c st now expires_at probe full).1
          (mapped (λ (s : AttestedSession). s.session_id) full)
  probed-id st now expires_at probe full (inl b) =
      subst
        (λ q.
          IdOrStoreError (probed store c st now expires_at q full).1
            (mapped (λ (s : AttestedSession). s.session_id) full))
        (sym b.of_probe)
        (subst
          (λ q.
            IdOrStoreError (probed store c st now expires_at (served b.p) q).1
              (mapped (λ (s : AttestedSession). s.session_id) q))
          (sym b.of_full)
          (subst
            (λ q.
              IdOrStoreError (probed store c st now expires_at (served b.p) (served b.s)).1
                (served q))
            b.same_id
            (renewed_or-id b.p.session_id (store.renew_session st b.p.session_id expires_at now)
              (λ st'. put_sealed store c st' b.p.session_id now (served b.s))
              (λ st'. persisted-id b.p.session_id (store.put_session st' b.s now)))))
  probed-id st now expires_at probe full (inr (e, p, q)) = inl (
      ap (λ r. (probed store c st now expires_at r full).1) p
      ∙ ap (mapped (λ (s : AttestedSession). s.session_id)) (sym q))

  -- For every store, whether it renews the session of the digest-only probe or the full one is stored:
  -- what `seal_attested_session` answers is the id that the full seal of the session has, with the
  -- bytes of its evidence, or the error of that seal; or else the store's own error.
  pub seal_attested_session-seal :
      (st : S) (event : UpstreamVerifiedEvent) (identity : Option WorkloadIdentityRef)
      (channel_bindings : List ChannelBinding) (claims : SessionClaims) (evidence : EvidenceRef)
      (now expires_at : ℕ)
      → IdOrStoreError
          (seal_attested_session store c st event identity channel_bindings claims evidence now
            expires_at).1
          (mapped
            (λ (s : AttestedSession). s.session_id)
            (sealed_with c event identity channel_bindings claims now expires_at evidence))
  unfolding seal_attested_session
  seal_attested_session-seal st event identity channel_bindings claims evidence now expires_at =
      probed-id st now expires_at _ _
        (seal-SealedAlike c event identity channel_bindings claims evidence now expires_at)
