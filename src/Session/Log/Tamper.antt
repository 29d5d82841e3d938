-- ===== src/Session/Log/Tamper.antt =====
-- Whatever bytes a log holds, its replay serves only sessions whose id is the hash of their content.
use phala_llm_router.Base.{
  Bool, true, false, ◌&&◌, List, [], ◌∷◌, Option, none, some, Text, text_eq, text_eq_iff, codes,
  ◌≡◌, subst, ap, ◌∙◌, arith, Bool-cases, Option-cases, inl, inr, max,
}
use phala_llm_router.Canonical.{Bytes, Result, ok, err}
use phala_llm_router.Dict
use phala_llm_router.Dict.{get-insert}
use phala_llm_router.Session.{AttestedSession, Codecs, content_id, digest_matches_data}
use phala_llm_router.Session.Index.{SessionIndex, empty, insert}
use phala_llm_router.Session.Coherent.{IsCoherent, insert-IsCoherent, empty-IsCoherent, Filed}
use phala_llm_router.Session.Log.{
  LogRecord, LineCodec, Replay, checked_suc, split_lines, trim_ascii, verifies, replay_session,
  replay_record, replay_trimmed, replay_lines, replay,
}
use phala_llm_router.Session.Log.Inserted.{Verified, AllVerified}

pub insert-AllVerified :
    (c : Codecs) (ix : SessionIndex) (s : AttestedSession)
    → verifies c s ≡ true
    → AllVerified c ix
    → AllVerified c (insert ix s)
unfolding insert
insert-AllVerified c ix s v a q = ground (arith, get-insert q s.session_id s ix.by_id, a q)

verified_id :
    (r : Result Text) (id : Text) (evidence : Bool)
    → elim r [ ok k ↦ text_eq k id && evidence | err e ↦ false ] ≡ true
    → (r ≡ ok id) × (evidence ≡ true)
verified_id (ok k) id evidence h = ground (arith, text_eq_iff k id)
verified_id (err e) id evidence h = absurd (cc h)

verifies-content_id :
    (c : Codecs) (s : AttestedSession)
    → verifies c s ≡ true
    → (content_id c s ≡ ok s.session_id) × (digest_matches_data c s.evidence ≡ true)
unfolding verifies
verifies-content_id c s h = verified_id (content_id c s) s.session_id _ h

module _ (c : Codecs) (l : LineCodec) where
  record IsGood (r : Replay) : Type 0 where
    pub coherent : IsCoherent r.index
    pub verified : AllVerified c r.index

  replay_session-IsGood :
      (r : Replay) (o : Option AttestedSession) → IsGood r → IsGood (replay_session c l r o)
  unfolding replay_session
  replay_session-IsGood r none g = g
  replay_session-IsGood r (some s) g = elim (Bool-cases (verifies c s)) [
    | inl v ↦
        rw (v, replay_session)
          (record {
            coherent = insert-IsCoherent r.index g.coherent s;
            verified = insert-AllVerified c r.index s v g.verified;
          })
    | inr v ↦ rw (v, replay_session) g
  ]

  replay_record-IsGood :
      (r : Replay) (entry : LogRecord) → IsGood r → IsGood (replay_record c l r entry)
  unfolding replay_record
  replay_record-IsGood r entry g = elim (Option-cases (checked_suc entry.seq)) [
    | inl k ↦ rw (k, replay_record) g
    | inr (n, k) ↦
        let g' : IsGood (record r { next_seq = max r.next_seq n }) = record {
          coherent = g.coherent;
          verified = g.verified;
        } in
        elim (Bool-cases (text_eq entry.record_type (codes "session"))) [
          | inl e ↦ rw (k, replay_record, e) (replay_session-IsGood _ _ g')
          | inr e ↦ rw (k, replay_record, e) g'
        ]
  ]

  replay_trimmed-IsGood : (r : Replay) (b : Bytes) → IsGood r → IsGood (replay_trimmed c l r b)
  unfolding replay_trimmed
  replay_trimmed-IsGood r [] g = g
  replay_trimmed-IsGood r (x ∷ b) g = elim (Option-cases (l.decode (x ∷ b))) [
    | inl d ↦ rw (d, replay_trimmed) g
    | inr (entry, d) ↦ rw (d, replay_trimmed) (replay_record-IsGood r entry g)
  ]

  replay_lines-IsGood : (ls : List Bytes) (r : Replay) → IsGood r → IsGood (replay_lines c l r ls)
  unfolding replay_lines
  replay_lines-IsGood [] r g = g
  replay_lines-IsGood (x ∷ ls) r g =
      replay_lines-IsGood ls (replay_trimmed c l r (trim_ascii x)) (replay_trimmed-IsGood r _ g)

  replay-IsGood : (log : Bytes) → IsGood (replay c l log)
  unfolding replay empty
  replay-IsGood log =
      replay_lines-IsGood (split_lines log) _
        (record { coherent = empty-IsCoherent; verified = λ q. unfold Dict.get in tt })

  -- Whatever bytes the log holds, a session that its replay serves under an id has that id as the
  -- hash of its own content, and its evidence's data hash to the evidence's digest; and the maps of
  -- the replayed index agree.
  pub replay-content_id :
      (log : Bytes) (q : Text) (s : AttestedSession)
      → Dict.get q (replay c l log).index.by_id ≡ some s
      → (content_id c s ≡ ok q)
        × (digest_matches_data c s.evidence ≡ true)
        × IsCoherent (replay c l log).index
  replay-content_id log q s h =
      let g = replay-IsGood log in
      let v : verifies c s ≡ true = subst (Verified c) h (g.verified q) in
      let filed : s.session_id ≡ q = subst (Filed q) h (g.coherent.filed q) in
      let p = verifies-content_id c s v in (p.0 ∙ ap ok filed, p.1, g.coherent)
