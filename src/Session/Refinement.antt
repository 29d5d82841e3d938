-- ===== src/Session/Refinement.antt =====
-- The `SessionStore` contract behind `SessionIndex`: a registry that never evicts and looks at the
-- clock only when it is read.
use phala_llm_router.Base.{
  ℕ, ◌==◌, leb, ◌≤◌, Bool, true, false, List, [], ◌∷◌, Option, none, some, Text, ◌≡◌, refl, ite,
  text_discrete, arith, inl, inr, Option-cases, Bool-cases, ap, ◌∙◌, sym, if_pos, if_neg,
}
use phala_llm_router.Dict
use phala_llm_router.Dict.{Dict, get-insert, get-remove, get-adjust}
use phala_llm_router.Session.{AttestedSession}
use phala_llm_router.Session.Coherent.{
  IsCoherent, insert-IsCoherent, empty-IsCoherent, dropped, dropped-IsCoherent, moved,
  moved-IsCoherent,
}
use phala_llm_router.Session.Eviction.{unexpired, get-evict_expired, evict_expired-IsCoherent}
use phala_llm_router.Session.Index.{
  SessionIndex, empty, insert, evict_expired, put_and_evict, get, renew_live, renew,
}

abbrev pub Registry : Type 0
Registry = Text → Option AttestedSession

pub data Call : Type 0 where
  put : AttestedSession → Call
  fetch : Text → Call
  renews : Text → ℕ → Call

pub data Reply : Type 0 where
  stored : Reply
  found : Option AttestedSession → Reply
  renewed : Bool → Reply

-- A call at a time, on the index as the code has it.
unfoldable pub step : SessionIndex → ℕ × Call → SessionIndex × Reply
step ix (now, put s) = (put_and_evict ix s now, stored)
step ix (now, fetch id) = let (ix', s) = get ix id now in (ix', found s)
step ix (now, renews id e) = let (ix', done) = renew ix id e now in (ix', renewed done)

unfoldable pub spec_put : Registry → AttestedSession → Registry
spec_put r s q = ite (text_discrete s.session_id q) (some s) (r q)

unfoldable pub spec_renew : Registry → Text → ℕ → Option AttestedSession → Registry × Bool
unfolding spec_put
spec_renew r id e none = (r, false)
spec_renew r id e (some s) =
    (λ q. ite (text_discrete id q) (some (record s { expires_at = e })) (r q), true)

unfoldable pub spec_step : Registry → ℕ × Call → Registry × Reply
unfolding spec_put spec_renew
spec_step r (now, put s) = (spec_put r s, stored)
spec_step r (now, fetch id) = (r, found (unexpired now (r id)))
spec_step r (now, renews id e) =
    let (r', done) = spec_renew r id e (unexpired now (r id)) in (r', renewed done)

unfoldable pub replies : SessionIndex → List (ℕ × Call) → List Reply
replies ix [] = []
replies ix (c ∷ cs) = (step ix c).1 ∷ replies (step ix c).0 cs

unfoldable pub spec_replies : Registry → List (ℕ × Call) → List Reply
spec_replies r [] = []
spec_replies r (c ∷ cs) = (spec_step r c).1 ∷ spec_replies (spec_step r c).0 cs

-- The clock does not go back.
abbrev pub Ascending : ℕ → List (ℕ × Call) → Type 0
Ascending now [] = Unit {0}
Ascending now ((t, c) ∷ cs) = (now ≤ t) × Ascending t cs

-- From the time `now` on, the index and the registry show the same sessions.
pub record Shows (now : ℕ) (ix : SessionIndex) (r : Registry) : Type 0 where
  pub coherent : IsCoherent ix
  pub same : (t : ℕ) (q : Text) → now ≤ t → unexpired t (Dict.get q ix.by_id) ≡ unexpired t (r q)

unexpired_twice :
    (now t : ℕ) (o : Option AttestedSession)
    → now ≤ t
    → unexpired t (unexpired now o) ≡ unexpired t o
unfolding unexpired
unexpired_twice now t none h = refl
unexpired_twice now t (some s) h = ground arith

Shows-later :
    (now t : ℕ) (ix : SessionIndex) (r : Registry) → now ≤ t → Shows now ix r → Shows t ix r
Shows-later now t ix r h v = record {
  coherent = v.coherent;
  same = λ u q le. v.same u q (omega arith);
}

Shows-evict :
    (now : ℕ) (ix : SessionIndex) (r : Registry)
    → Shows now ix r
    → Shows now (evict_expired ix now) r
Shows-evict now ix r v = record {
  coherent = evict_expired-IsCoherent ix v.coherent now;
  same = λ t q le.
      rw (get-evict_expired ix v.coherent now q)
        (unexpired_twice now t (Dict.get q ix.by_id) le ∙ v.same t q le);
}

Shows-insert :
    (now : ℕ) (ix : SessionIndex) (r : Registry) (s : AttestedSession)
    → Shows now ix r
    → Shows now (insert ix s) (spec_put r s)
unfolding insert spec_put
Shows-insert now ix r s v = record {
  coherent = insert-IsCoherent ix v.coherent s;
  same = λ t q le. ground (arith, get-insert q s.session_id s ix.by_id, v.same t q le);
}

Shows-dropped :
    (now : ℕ) (ix : SessionIndex) (r : Registry) (id : Text) (s : AttestedSession)
    (v : Shows now ix r)
    → Dict.get id ix.by_id ≡ some s
    → leb s.expires_at now ≡ true
    → Shows now (dropped ix v.coherent s id) r
unfolding dropped unexpired
Shows-dropped now ix r id s v h old = record {
  coherent = dropped-IsCoherent ix v.coherent s id h;
  same = λ t q le. ground (arith, get-remove q id ix.by_id, v.same t q le);
}

step-get :
    (now : ℕ) (ix : SessionIndex) (r : Registry) (id : Text)
    → Shows now ix r
    → Shows now (get ix id now).0 r × ((get ix id now).1 ≡ unexpired now (r id))
unfolding get dropped
step-get now ix r id v = elim (Option-cases (Dict.get id ix.by_id)) [
  | inl absent ↦ rw (absent, get) (v, unfold unexpired in ground (arith, v.same now id))
  | inr (s, h) ↦ elim (Bool-cases (leb s.expires_at now)) [
    | inl old ↦
        rw (h, get, old)
          (Shows-dropped now ix r id s v h old, unfold unexpired in ground (arith, v.same now id))
    | inr live ↦ rw (h, get, live) (v, unfold unexpired in ground (arith, v.same now id))
  ]
]

Shows-moved :
    (now : ℕ) (ix : SessionIndex) (r : Registry) (id : Text) (s : AttestedSession) (e : ℕ)
    (v : Shows now ix r)
    → Dict.get id ix.by_id ≡ some s
    → Shows now (moved ix v.coherent s id e) (spec_renew r id e (some s)).0
unfolding moved unexpired spec_renew
Shows-moved now ix r id s e v h = record {
  coherent = moved-IsCoherent ix v.coherent s id e h;
  same = λ t q le.
      ground (arith, get-adjust q id (λ u. record u { expires_at = e }) ix.by_id, v.same t q le);
}

same_deadline :
    (s : AttestedSession) (e : ℕ) → s.expires_at ≡ e → some (record s { expires_at = e }) ≡ some s
same_deadline s e h = λ i. some (record s { expires_at = sym h i })

Shows-unmoved :
    (now : ℕ) (ix : SessionIndex) (r : Registry) (id : Text) (s : AttestedSession) (e : ℕ)
    → Shows now ix r
    → Dict.get id ix.by_id ≡ some s
    → (s.expires_at == e) ≡ true
    → Shows now ix (spec_renew r id e (some s)).0
unfolding spec_renew
Shows-unmoved now ix r id s e v h same = record {
  coherent = v.coherent;
  same = λ t q le. elim (text_discrete id q) [
    | yes p ↦ rw (if_pos _ p, same_deadline s e (ground arith), ← p, h)
    | no p ↦ rw (if_neg _ p) (v.same t q le)
  ];
}

step-renew :
    (now : ℕ) (ix : SessionIndex) (r : Registry) (id : Text) (e : ℕ)
    → Shows now ix r
    → Dict.get id ix.by_id ≡ unexpired now (r id)
    → Shows now (renew_live ix id e).0 (spec_renew r id e (unexpired now (r id))).0
      × ((renew_live ix id e).1 ≡ (spec_renew r id e (unexpired now (r id))).1)
unfolding renew_live spec_renew moved
step-renew now ix r id e v h = rw (← h) (elim (Option-cases (Dict.get id ix.by_id)) [
  | inl absent ↦ rw (absent, renew_live, spec_renew) (v, refl)
  | inr (s, there) ↦ elim (Bool-cases (s.expires_at == e)) [
    | inl same ↦ rw (there, renew_live, same) (Shows-unmoved now ix r id s e v there same, refl)
    | inr other ↦
        rw (there, renew_live, other, spec_renew) (Shows-moved now ix r id s e v there, refl)
  ]
])

step-Shows :
    (now : ℕ) (ix : SessionIndex) (r : Registry) (c : Call)
    → Shows now ix r
    → Shows now (step ix (now, c)).0 (spec_step r (now, c)).0
      × ((step ix (now, c)).1 ≡ (spec_step r (now, c)).1)
unfolding step spec_step put_and_evict renew
step-Shows now ix r (put s) v = (Shows-evict now _ _ (Shows-insert now ix r s v), refl)
step-Shows now ix r (fetch id) v = let p = step-get now ix r id v in (p.0, ap found p.1)
step-Shows now ix r (renews id e) v =
    let w : Shows now (evict_expired ix now) r = Shows-evict now ix r v in
    let h : Dict.get id (evict_expired ix now).by_id ≡ unexpired now (r id) =
      get-evict_expired ix v.coherent now id ∙ v.same now id (omega arith) in
    let p = step-renew now (evict_expired ix now) r id e w h in (p.0, ap renewed p.1)

replies_agree :
    (now : ℕ) (ix : SessionIndex) (r : Registry) (cs : List (ℕ × Call))
    → Shows now ix r
    → Ascending now cs
    → replies ix cs ≡ spec_replies r cs
unfolding replies spec_replies
replies_agree now ix r [] v a = refl
replies_agree now ix r ((t, c) ∷ cs) v a =
    let p = step-Shows t ix r c (Shows-later now t ix r a.0 v) in
    rw (p.1, replies_agree t _ _ cs p.0 a.1)

-- While the clock does not go back, every history of calls on an empty index gets the replies of a
-- registry that keeps every session for ever and compares a session's deadline with the clock only
-- when it is fetched or renewed: eviction and the index by deadline are never observed.
pub replies-spec_replies :
    (cs : List (ℕ × Call)) → Ascending 0 cs → replies empty cs ≡ spec_replies (λ _. none) cs
unfolding empty
replies-spec_replies cs a =
    replies_agree 0 empty (λ _. none) cs
      (record { coherent = empty-IsCoherent; same = λ t q le. unfold Dict.get in refl }) a
