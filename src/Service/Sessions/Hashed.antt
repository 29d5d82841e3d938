-- ===== src/Service/Sessions/Hashed.antt =====
-- A registry whose sessions stand under the hashes of their own contents stays one.
use phala_llm_router.Base.{
  ℕ, List, Option, none, some, Text, text_discrete, if_pos, if_neg, subst, ◌≡◌, refl, sym, ap, ◌∙◌,
  arith,
}
use phala_llm_router.Canonical.{Result, ok, err, ◌>>=◌}
use phala_llm_router.Dict
use phala_llm_router.Dict.{get-insert, get-adjust}
use phala_llm_router.Receipts.Types.{UpstreamVerifiedEvent}
use phala_llm_router.Service.Errors.{served, of_canonical}
use phala_llm_router.Service.Sessions.{sealed_with}
use phala_llm_router.Session.{
  AttestedSession, ChannelBinding, Codecs, EvidenceRef, SessionClaims, WorkloadIdentityRef, seal,
  content_id, material,
}
use phala_llm_router.Session.Coherent.{IsCoherent, moved}
use phala_llm_router.Session.Eviction.{unexpired, get-evict_expired}
use phala_llm_router.Session.Index.{SessionIndex, insert, evict_expired}

-- Each session stands under the hash of its own content.
abbrev pub IsHashed : Codecs → SessionIndex → Type 0
IsHashed c ix =
    (q : Text) (s : AttestedSession) → Dict.get q ix.by_id ≡ some s → content_id c s ≡ ok q

unexpired-some :
    (now : ℕ) (o : Option AttestedSession) (s : AttestedSession)
    → unexpired now o ≡ some s
    → o ≡ some s
unfolding unexpired
unexpired-some now none s h = absurd (cc h)
unexpired-some now (some t) s h = ground (arith, h)

module _ (c : Codecs) (ix : SessionIndex) (v : IsCoherent ix) (h : IsHashed c ix) where
  pub evict_expired-IsHashed : (now : ℕ) → IsHashed c (evict_expired ix now)
  evict_expired-IsHashed now q s e =
      h q s (unexpired-some now (Dict.get q ix.by_id) s (sym (get-evict_expired ix v now q) ∙ e))

  pub insert-IsHashed :
      (s : AttestedSession) → content_id c s ≡ ok s.session_id → IsHashed c (insert ix s)
  unfolding insert
  insert-IsHashed s own q t e = elim (text_discrete s.session_id q) [
    | yes p ↦
        let same : s ≡ t = cc (
          sym (get-insert q s.session_id s ix.by_id ∙ if_pos (text_discrete s.session_id q) p _ _)
          ∙ e) in
        ap (content_id c) (sym same) ∙ own ∙ ap ok p
    | no p ↦ h q t (
        sym (get-insert q s.session_id s ix.by_id ∙ if_neg (text_discrete s.session_id q) p _ _)
        ∙ e)
  ]

  pub moved-IsHashed :
      (id : Text) (s : AttestedSession) (d : ℕ)
      → Dict.get id ix.by_id ≡ some s
      → IsHashed c (moved ix v s id d)
  unfolding moved content_id material
  moved-IsHashed id s d there q t e = elim (text_discrete id q) [
    | yes p ↦
        let there' = subst (λ x. Dict.get x ix.by_id ≡ some s) p there in
        let same : record s { expires_at = d } ≡ t = cc (
          sym (
            get-adjust q id (λ x. record x { expires_at = d }) ix.by_id
            ∙ if_pos (text_discrete id q) p _ _
            ∙ ap (renewed d) there')
          ∙ e) in
        ap (content_id c) (sym same) ∙ h q s there'
    | no p ↦ h q t (
        sym (
          get-adjust q id (λ x. record x { expires_at = d }) ix.by_id
          ∙ if_neg (text_discrete id q) p _ _)
        ∙ e)
  ]
    where
      renewed : ℕ → Option AttestedSession → Option AttestedSession
      renewed d none = none
      renewed d (some x) = some (record x { expires_at = d })

named :
    (c : Codecs) (r : Result Text) (a s : AttestedSession)
    → content_id c a ≡ r
    → of_canonical (do id ← r; ok (record a { session_id = id })) ≡ served s
    → content_id c s ≡ ok s.session_id
unfolding content_id material
named c (err x) a s e h = absurd (cc h)
named c (ok id) a s e h =
    let same : record a { session_id = id } ≡ s = cc h in
    ap (content_id c) (sym same) ∙ e ∙ ap (λ (x : AttestedSession). ok x.session_id) same

-- A seal has the hash of its own content.
pub sealed_with-content_id :
    (c : Codecs) (event : UpstreamVerifiedEvent) (identity : Option WorkloadIdentityRef)
    (channel_bindings : List ChannelBinding) (claims : SessionClaims) (now expires_at : ℕ)
    (evidence : EvidenceRef) (s : AttestedSession)
    → sealed_with c event identity channel_bindings claims now expires_at evidence ≡ served s
    → content_id c s ≡ ok s.session_id
unfolding seal
sealed_with-content_id c event identity channel_bindings claims now expires_at evidence s h =
    named c _ _ s refl h
