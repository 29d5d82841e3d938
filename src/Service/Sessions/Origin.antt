-- ===== src/Service/Sessions/Origin.antt =====
-- The sessions that are sealed for an event are live, and their ids are those of their seals.
use phala_llm_router.Base.{
  ℕ, ◌<◌, List, [], ◌∷◌, Option, none, some, Text, subst, ◌≡◌, ◌⊎◌, refl, sym, ◌∙◌, inl, inr,
}
use phala_llm_router.Receipts.Types.{UpstreamVerifiedEvent}
use phala_llm_router.Service.Claims.Instance.{chutes_instance_id}
use phala_llm_router.Service.Errors.{Served, served, failing, mapped}
use phala_llm_router.Service.Sessions.{
  SealedSession, in_memory, seal_attested_session, seal_bindings, then_rest, sealed_as, claims_of,
  evidence_for, sealed_with, identity_from_provider_claims,
}
use phala_llm_router.Service.Sessions.Content.{seal_attested_session-seal}
use phala_llm_router.Service.Sessions.Live.{
  Live, Keeps, Keeps-then, Recorded, same_index, seal_attested_session-Recorded,
}
use phala_llm_router.Session.{AttestedSession, ChannelBinding, Codecs, EvidenceRef, SessionClaims}
use phala_llm_router.Session.Coherent.{IsCoherent}
use phala_llm_router.Session.Index.{SessionIndex}

-- The binding is one of the list.
abbrev pub IsBindingOf : List ChannelBinding → ChannelBinding → Type 0
IsBindingOf [] b = ⊥
IsBindingOf (x ∷ bs) b = (x ≡ b) ⊎ IsBindingOf bs b

-- The binding is that of the instance, if one is named.
abbrev pub BindsTo : UpstreamVerifiedEvent → Option Text → ChannelBinding → Type 0
BindsTo event none b = Unit {0}
BindsTo event (some instance) b = chutes_instance_id event b ≡ some instance

-- The id is that of the seal, at the event's upstream and identity, of one channel binding of the event,
-- which is the instance's, with these claims.
pub record SealOf (c : Codecs) (now e : ℕ) (event : UpstreamVerifiedEvent) (instance : Option Text)
    (claims : SessionClaims) (id : Text) : Type 0 where
  pub binding : ChannelBinding
  pub among : IsBindingOf event.channel_bindings binding
  pub binds : BindsTo event instance binding
  pub evidence : EvidenceRef
  pub session : AttestedSession
  pub seals :
      sealed_with c event
        (identity_from_provider_claims event.provider_claims)
        (binding ∷ [])
        claims
        now
        e
        evidence
      ≡ served session
  pub own_id : session.session_id ≡ id

-- Any instance's seal is a seal of the event.
pub SealOf-any :
    (c : Codecs) (now e : ℕ) (event : UpstreamVerifiedEvent) (instance : Option Text)
    (claims : SessionClaims) (id : Text)
    → SealOf c now e event instance claims id
    → SealOf c now e event none claims id
SealOf-any c now e event instance claims id o = record {
  binding = o.binding;
  among = o.among;
  binds = tt;
  evidence = o.evidence;
  session = o.session;
  seals = o.seals;
  own_id = o.own_id;
}

BindsTo-own :
    (event : UpstreamVerifiedEvent) (b : ChannelBinding) (o : Option Text)
    → chutes_instance_id event b ≡ o
    → BindsTo event o b
BindsTo-own event b none h = tt
BindsTo-own event b (some i) h = h

mapped-served :
    (m : Served AttestedSession) (id : Text)
    → mapped (λ (s : AttestedSession). s.session_id) m ≡ served id
    → (s : AttestedSession) × (m ≡ served s) × (s.session_id ≡ id)
mapped-served (served s) id h = (s, refl, cc h)
mapped-served (failing e) id h = absurd (cc h)

-- A session that was sealed for the event: it is live, its claims are those of its instance, and its
-- id is that of its seal.
pub record Good (c : Codecs) (now e : ℕ) (event : UpstreamVerifiedEvent) (ix : SessionIndex)
    (s : SealedSession) : Type 0 where
  pub live : Live e ix s.session_id
  pub claims : s.claims ≡ claims_of event s.instance_key
  pub origin : SealOf c now e event s.instance_key s.claims s.session_id

abbrev pub AllGood :
    Codecs → ℕ → ℕ → UpstreamVerifiedEvent → SessionIndex → List SealedSession → Type 0
AllGood c now e event ix [] = Unit {0}
AllGood c now e event ix (s ∷ l) = Good c now e event ix s × AllGood c now e event ix l

pub record Sealed (c : Codecs) (now e : ℕ) (event : UpstreamVerifiedEvent) (ix : SessionIndex)
    (r : SessionIndex × Served (List SealedSession)) : Type 0 where
  pub keeps : Keeps c e ix r.0
  pub good : (l : List SealedSession) → r.1 ≡ served l → AllGood c now e event r.0 l

Good-kept :
    (c : Codecs) (now e : ℕ) (event : UpstreamVerifiedEvent) (ix ix' : SessionIndex)
    (s : SealedSession)
    → Keeps c e ix ix'
    → Good c now e event ix s
    → Good c now e event ix' s
Good-kept c now e event ix ix' s k g = record {
  live = k.keeps s.session_id g.live;
  claims = g.claims;
  origin = g.origin;
}

module _ (c : Codecs) (e now : ℕ) (event : UpstreamVerifiedEvent) where
  -- What a seal answers is the id of its session.
  seal_attested_session-SealOf :
      (ix : SessionIndex) (b : ChannelBinding) (id : Text)
      → IsBindingOf event.channel_bindings b
      → (seal_attested_session in_memory c ix event
          (identity_from_provider_claims event.provider_claims)
          (b ∷ [])
          (claims_of event (chutes_instance_id event b))
          (evidence_for event (chutes_instance_id event b))
          now
          e).1
        ≡ served id
      → SealOf c now e event
          (chutes_instance_id event b)
          (claims_of event (chutes_instance_id event b))
          id
  seal_attested_session-SealOf ix b id m h =
      let instance = chutes_instance_id event b in
      elim (seal_attested_session-seal in_memory c ix event
        (identity_from_provider_claims event.provider_claims) (b ∷ []) (claims_of event instance)
        (evidence_for event instance) now e) [
          | inr (x, f) ↦ absurd (cc (sym f ∙ h))
          | inl f ↦
              let (s, p, q) = mapped-served _ id (sym f ∙ h) in
              record {
                binding = b;
                among = m;
                binds = BindsTo-own event b instance refl;
                evidence = evidence_for event instance;
                session = s;
                seals = p;
                own_id = q;
              }
        ]

  rest-Sealed :
      (ix st : SessionIndex) (s : SealedSession) (p : SessionIndex × Served (List SealedSession))
      → Keeps c e ix st
      → Good c now e event st s
      → Sealed c now e event st p
      → Sealed c now e event ix (p.0, mapped (λ l. s ∷ l) p.1)
  rest-Sealed ix st s (st', failing x) k g h = record {
    keeps = Keeps-then c e ix st st' k h.keeps;
    good = λ l eq. absurd (cc eq);
  }
  rest-Sealed ix st s (st', served l) k g h = record {
    keeps = Keeps-then c e ix st st' k h.keeps;
    good = λ l' eq.
        let same : s ∷ l ≡ l' = cc eq in
        subst (AllGood c now e event st') same
          (Good-kept c now e event st st' s h.keeps g, h.good l refl);
  }

  then_rest-Sealed :
      (ix : SessionIndex) (instance : Option Text) (p : SessionIndex × Served Text)
      (f : SessionIndex → SessionIndex × Served (List SealedSession))
      → Recorded c e ix p
      → ((id : Text)
          → p.1 ≡ served id
          → SealOf c now e event instance (claims_of event instance) id)
      → ((st : SessionIndex) → IsCoherent st → Sealed c now e event st (f st))
      → Sealed c now e event ix
          (then_rest in_memory c (p.0, mapped (sealed_as event instance) p.1) f)
  then_rest-Sealed ix instance (st, failing x) f r o h = record {
    keeps = r.keeps;
    good = λ l eq. absurd (cc eq);
  }
  then_rest-Sealed ix instance (st, served id) f r o h =
      rest-Sealed ix st (sealed_as event instance id) (f st) r.keeps
        (record { live = r.live id refl; claims = refl; origin = o id refl })
        (h st r.keeps.coherent)

  pub seal_bindings-Sealed :
      (bs : List ChannelBinding) (ix : SessionIndex)
      → now < e
      → ((b : ChannelBinding) → IsBindingOf bs b → IsBindingOf event.channel_bindings b)
      → IsCoherent ix
      → Sealed c now e event ix (seal_bindings in_memory c event now e bs ix)
  unfolding seal_bindings
  seal_bindings-Sealed [] ix lt m v = record {
    keeps = same_index c e ix v;
    good = λ l eq. let same : [] ≡ l = cc eq in subst (AllGood c now e event ix) same tt;
  }
  seal_bindings-Sealed (b ∷ bs) ix lt m v =
      let instance = chutes_instance_id event b in
      then_rest-Sealed ix instance
        (seal_attested_session in_memory c ix event
          (identity_from_provider_claims event.provider_claims) (b ∷ []) (claims_of event instance)
          (evidence_for event instance) now e)
        (seal_bindings in_memory c event now e bs)
        (seal_attested_session-Recorded c e now lt ix event _ (b ∷ []) _ _ v)
        (λ id. seal_attested_session-SealOf ix b id (m b (inl refl)))
        (λ st w. seal_bindings-Sealed bs st lt (λ x i. m x (inr i)) w)
