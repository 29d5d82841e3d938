-- ===== src/Service/Sessions/Live.antt =====
-- A session that a receipt may cite resolves in the registry.
use phala_llm_router.Base.{
  ℕ, ◌==◌, ◌<◌, Bool, true, false, List, Option, none, some, Text, subst, ◌≡◌, ◌⊎◌, refl, sym, ap,
  ◌∙◌, inl, inr, arith, text_discrete, if_pos, if_neg, Bool-cases, Option-cases,
}
use phala_llm_router.Dict
use phala_llm_router.Dict.{get-insert, get-adjust}
use phala_llm_router.Receipts.Types.{UpstreamVerifiedEvent}
use phala_llm_router.Service.Errors.{Served, served}
use phala_llm_router.Service.Sessions.{
  in_memory, seal_attested_session, put_sealed, probed, renewed_or,
}
use phala_llm_router.Canonical.{ok}
use phala_llm_router.Service.Sessions.Hashed.{
  IsHashed, evict_expired-IsHashed, insert-IsHashed, moved-IsHashed, sealed_with-content_id,
}
use phala_llm_router.Service.Sessions.Content.{SealedAlike, seal-SealedAlike}
use phala_llm_router.Session.{
  AttestedSession, ChannelBinding, Codecs, EvidenceRef, SessionClaims, WorkloadIdentityRef,
  content_id,
}
use phala_llm_router.Session.Coherent.{IsCoherent, insert-IsCoherent, moved, moved-IsCoherent}
use phala_llm_router.Session.Eviction.{unexpired, get-evict_expired, evict_expired-IsCoherent}
use phala_llm_router.Session.Index.{
  SessionIndex, insert, evict_expired, put_and_evict, renew_live, renew,
}

-- The index has a session of this id and this deadline.
abbrev pub Live : ℕ → SessionIndex → Text → Type 0
Live e ix q = (s : AttestedSession) × (Dict.get q ix.by_id ≡ some s) × (s.expires_at ≡ e)

-- A coherent index in which what was live up to this deadline still is, and whose sessions have the
-- hashes of their contents if they had them.
pub record Keeps (c : Codecs) (e : ℕ) (ix ix' : SessionIndex) : Type 0 where
  pub coherent : IsCoherent ix'
  pub hashed : IsHashed c ix → IsHashed c ix'
  pub keeps : (q : Text) → Live e ix q → Live e ix' q

pub Keeps-then :
    (c : Codecs) (e : ℕ) (x y z : SessionIndex) → Keeps c e x y → Keeps c e y z → Keeps c e x z
Keeps-then c e x y z k l = record {
  coherent = l.coherent;
  hashed = λ h. l.hashed (k.hashed h);
  keeps = λ q h. l.keeps q (k.keeps q h);
}

unexpired-Live :
    (e now : ℕ) (o : Option AttestedSession) (s : AttestedSession)
    → now < e
    → o ≡ some s
    → s.expires_at ≡ e
    → unexpired now o ≡ some s
unfolding unexpired
unexpired-Live e now none s lt h d = absurd (cc h)
unexpired-Live e now (some t) s lt h d = ground (arith, h, d)

abbrev adjusted : ℕ → Option AttestedSession → Option AttestedSession
adjusted e none = none
adjusted e (some s) = some (record s { expires_at = e })

module _ (c : Codecs) (ix : SessionIndex) (v : IsCoherent ix) (e now : ℕ) (lt : now < e) where
  evict-Keeps : Keeps c e ix (evict_expired ix now)
  evict-Keeps = record {
    coherent = evict_expired-IsCoherent ix v now;
    hashed = λ h. evict_expired-IsHashed c ix v h now;
    keeps = λ q (s, h, d).
        (s, get-evict_expired ix v now q ∙ unexpired-Live e now (Dict.get q ix.by_id) s lt h d, d);
  }

  insert-Live :
      (s : AttestedSession)
      → s.expires_at ≡ e
      → (q : Text) → (s.session_id ≡ q) ⊎ Live e ix q
      → Live e (insert ix s) q
  unfolding insert
  insert-Live s d q h = elim (text_discrete s.session_id q) [
    | yes p ↦
        (s, get-insert q s.session_id s ix.by_id ∙ if_pos (text_discrete s.session_id q) p _ _, d)
    | no p ↦ elim h [
      | inl same ↦ absurd (p same)
      | inr (t, there, dt) ↦ (
        t,
        get-insert q s.session_id s ix.by_id ∙ if_neg (text_discrete s.session_id q) p _ _ ∙ there,
        dt,
      )
    ]
  ]

  moved-Live :
      (id : Text) (s : AttestedSession)
      → Dict.get id ix.by_id ≡ some s
      → (q : Text) → (id ≡ q) ⊎ Live e ix q
      → Live e (moved ix v s id e) q
  unfolding moved
  moved-Live id s there q h = elim (text_discrete id q) [
    | yes p ↦ (
      record s { expires_at = e },
      get-adjust q id (λ t. record t { expires_at = e }) ix.by_id
          ∙ if_pos (text_discrete id q) p _ _
          ∙ ap (adjusted e) (subst (λ x. Dict.get x ix.by_id ≡ some s) p there),
      refl,
    )
    | no p ↦ elim h [
      | inl same ↦ absurd (p same)
      | inr (t, has, dt) ↦ (
        t,
        get-adjust q id (λ t. record t { expires_at = e }) ix.by_id
            ∙ if_neg (text_discrete id q) p _ _
            ∙ has,
        dt,
      )
    ]
  ]

  -- What a renewal does, behind the eviction: it keeps what is live, and what it renews is live.
  renew_live-Keeps :
      (id : Text)
      → Keeps c e ix (renew_live ix id e).0
        × ((renew_live ix id e).1 ≡ true → Live e (renew_live ix id e).0 id)
  unfolding renew_live moved
  renew_live-Keeps id = elim (Option-cases (Dict.get id ix.by_id)) [
    | inl absent ↦
        rw (absent, renew_live)
          (record { coherent = v; hashed = λ h. h; keeps = λ q h. h }, λ h. absurd (cc h))
    | inr (s, there) ↦ elim (Bool-cases (s.expires_at == e)) [
      | inl same ↦
          rw (there, renew_live, same)
            (
              record { coherent = v; hashed = λ h. h; keeps = λ q h. h },
              λ h. (s, there, ground arith),
            )
      | inr other ↦
          rw (there, renew_live, other)
            (
              record {
                coherent = moved-IsCoherent ix v s id e there;
                hashed = λ h. moved-IsHashed c ix v h id s e there;
                keeps = λ q h. moved-Live id s there q (inr h);
              },
              λ h. moved-Live id s there id (inl refl),
            )
    ]
  ]

module _ (c : Codecs) (ix : SessionIndex) (v : IsCoherent ix) (e now : ℕ) (lt : now < e) where
  renew-Keeps :
      (id : Text)
      → Keeps c e ix (renew ix id e now).0
        × ((renew ix id e now).1 ≡ true → Live e (renew ix id e now).0 id)
  unfolding renew
  renew-Keeps id =
      let w = evict-Keeps c ix v e now lt in
      let (k, l) = renew_live-Keeps c (evict_expired ix now) w.coherent e now lt id in
      (Keeps-then c e ix (evict_expired ix now) _ w k, l)

  put-Keeps :
      (s : AttestedSession)
      → s.expires_at ≡ e
      → content_id c s ≡ ok s.session_id
      → Keeps c e ix (put_and_evict ix s now) × Live e (put_and_evict ix s now) s.session_id
  unfolding put_and_evict
  put-Keeps s d own =
      let w = insert-IsCoherent ix v s in
      let k = evict-Keeps c (insert ix s) w e now lt in
      let l = insert-Live c ix v e now lt s d in
      (
        Keeps-then c e ix (insert ix s) _
            (record {
              coherent = w;
              hashed = λ h. insert-IsHashed c ix v h s own;
              keeps = λ q h. l q (inr h);
            })
            k,
        k.keeps s.session_id (l s.session_id (inl refl)),
      )

-- The index that a call leaves keeps what was live, and the id that the call answers is live in it.
pub record Recorded (c : Codecs) (e : ℕ) (ix : SessionIndex) (r : SessionIndex × Served Text)
    : Type 0 where
  pub keeps : Keeps c e ix r.0
  pub live : (id : Text) → r.1 ≡ served id → Live e r.0 id

pub same_index : (c : Codecs) (e : ℕ) (ix : SessionIndex) → IsCoherent ix → Keeps c e ix ix
same_index c e ix v = record { coherent = v; hashed = λ h. h; keeps = λ q h. h }

module _ (c : Codecs) (e now : ℕ) (lt : now < e) where
  put_sealed-Recorded :
      (ix : SessionIndex) (id : Text) (s : AttestedSession)
      → IsCoherent ix
      → s.expires_at ≡ e
      → id ≡ s.session_id
      → content_id c s ≡ ok s.session_id
      → Recorded c e ix (put_sealed in_memory c ix id now (served s))
  unfolding in_memory
  put_sealed-Recorded ix id s v d same own =
      let (k, l) = put-Keeps c ix v e now lt s d own in
      record {
        keeps = k;
        live = λ q h. subst (Live e (put_and_evict ix s now)) (sym same ∙ cc h) l;
      }

  renewed_or-Recorded :
      (ix : SessionIndex) (id : Text) (p : SessionIndex × Bool)
      (f : SessionIndex → SessionIndex × Served Text)
      → Keeps c e ix p.0
      → (p.1 ≡ true → Live e p.0 id)
      → ((st : SessionIndex) → IsCoherent st → Recorded c e st (f st))
      → Recorded c e ix (renewed_or in_memory c id p f)
  renewed_or-Recorded ix id (st, true) f k l h = record {
    keeps = k;
    live = λ q eq. subst (Live e st) (cc eq) (l refl);
  }
  renewed_or-Recorded ix id (st, false) f k l h =
      let r = h st k.coherent in record { keeps = Keeps-then c e ix st _ k r.keeps; live = r.live }

  probed-Recorded :
      (ix : SessionIndex) (probe full : Served AttestedSession)
      → IsCoherent ix
      → SealedAlike e probe full
      → ((s : AttestedSession) → full ≡ served s → content_id c s ≡ ok s.session_id)
      → Recorded c e ix (probed in_memory c ix now e probe full)
  unfolding in_memory
  probed-Recorded ix probe full v (inl b) own =
      subst (λ q. Recorded c e ix (probed in_memory c ix now e q full)) (sym b.of_probe)
        (subst (λ q. Recorded c e ix (probed in_memory c ix now e (served b.p) q)) (sym b.of_full)
          (let (k, l) = renew-Keeps c ix v e now lt b.p.session_id in
            renewed_or-Recorded ix b.p.session_id (renew ix b.p.session_id e now)
              (λ st. put_sealed in_memory c st b.p.session_id now (served b.s)) k l
              (λ st w.
                put_sealed-Recorded st b.p.session_id b.s w b.deadline b.same_id
                  (own b.s b.of_full))))
  probed-Recorded ix probe full v (inr (x, p, q)) own =
      subst (λ r. Recorded c e ix (probed in_memory c ix now e r full)) (sym p)
        (record { keeps = same_index c e ix v; live = λ id h. absurd (cc h) })

  pub seal_attested_session-Recorded :
      (ix : SessionIndex) (event : UpstreamVerifiedEvent) (identity : Option WorkloadIdentityRef)
      (channel_bindings : List ChannelBinding) (claims : SessionClaims) (evidence : EvidenceRef)
      → IsCoherent ix
      → Recorded c e ix (
          seal_attested_session in_memory c ix event identity channel_bindings claims evidence now
            e)
  unfolding seal_attested_session
  seal_attested_session-Recorded ix event identity channel_bindings claims evidence v =
      probed-Recorded ix _ _ v
        (seal-SealedAlike c event identity channel_bindings claims evidence now e)
        (sealed_with-content_id c event identity channel_bindings claims now e evidence)
