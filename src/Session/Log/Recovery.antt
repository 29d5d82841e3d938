-- ===== src/Session/Log/Recovery.antt =====
-- What a log gives back when it is replayed.
use phala_llm_router.Base.{
  ℕ, ◌+◌, max, true, List, [], ◌∷◌, ◌++◌, ◌≡◌, refl, ap, sym, ◌∙◌, arith, inl, inr, some,
  text_eq_iff, codes, Option-cases,
}
use phala_llm_router.Canonical.{Bytes}
use phala_llm_router.Json.{Value}
use phala_llm_router.Session.{AttestedSession, Codecs}
use phala_llm_router.Session.Index.{insert, put_and_evict}
use phala_llm_router.Session.Log.{
  LogRecord, LineCodec, Replay, JsonlStore, done, whole, checked_suc, split_lines, trim_ascii,
  verifies, replay_session, replay_record, replay_trimmed, replay_lines, replay, put_session,
  append_line,
}
use phala_llm_router.Session.Log.Lines.{
  IsObjectLine, IsComplete, split_lines-line, split_lines-append, append-IsComplete,
  trim_ascii-line,
}

-- `serde_json` reads back what it wrote, and writes an object on one line.
pub record RoundTrips (l : LineCodec) : Type 0 where
  pub object_line :
      (seq ts : ℕ) (s : AttestedSession) (b : Bytes)
      → l.encode seq ts (codes "session") s ≡ some b
      → IsObjectLine b
  pub payload :
      (seq ts : ℕ) (s : AttestedSession) (b : Bytes)
      → l.encode seq ts (codes "session") s ≡ some b
      → (p : Value) × (l.decode b
          ≡ some (record { seq = seq; ts = ts; record_type = codes "session"; payload = p }))
        × (l.session_of p ≡ some s)

module _ (c : Codecs) (l : LineCodec) where
  replay_lines-append :
      (r : Replay) (xs ys : List Bytes)
      → replay_lines c l r (xs ++ ys) ≡ replay_lines c l (replay_lines c l r xs) ys
  unfolding replay_lines
  replay_lines-append r [] ys = refl
  replay_lines-append r (x ∷ xs) ys =
      replay_lines-append (replay_trimmed c l r (trim_ascii x)) xs ys

  replay_trimmed_decoded :
      (r : Replay) (b : Bytes) (entry : LogRecord)
      → IsObjectLine b
      → l.decode b ≡ some entry
      → replay_trimmed c l r b ≡ replay_record c l r entry
  unfolding replay_trimmed
  replay_trimmed_decoded r [] entry h d = absurd (cc h.braces)
  replay_trimmed_decoded r (x ∷ b) entry h d = rw (d, replay_trimmed)

  replay_record_verified :
      (r : Replay) (entry : LogRecord) (n : ℕ) (s : AttestedSession)
      → checked_suc entry.seq ≡ some n
      → entry.record_type ≡ codes "session"
      → l.session_of entry.payload ≡ some s
      → verifies c s ≡ true
      → replay_record c l r entry ≡ record { next_seq = max r.next_seq n; index = insert r.index s }
  unfolding replay_record replay_session
  replay_record_verified r entry n s k kind o v =
      rw (k, replay_record, (text_eq_iff _ _).1 kind, o, replay_session, v)

  module _ (t : RoundTrips l) where
    -- The line of a session that verifies is replayed as an insertion.
    pub replay_trimmed-encode :
        (r : Replay) (seq ts n : ℕ) (s : AttestedSession) (b : Bytes)
        → l.encode seq ts (codes "session") s ≡ some b
        → checked_suc seq ≡ some n
        → verifies c s ≡ true
        → replay_trimmed c l r (trim_ascii (b ++ 10 ∷ []))
          ≡ record { next_seq = max r.next_seq n; index = insert r.index s }
    replay_trimmed-encode r seq ts n s b e k v =
        let line = t.object_line seq ts s b e in
        let (p, d, o) = t.payload seq ts s b e in
        rw (trim_ascii-line b line, replay_trimmed_decoded r b _ line d)
          (replay_record_verified r _ n s k refl o v)

    -- A complete log with one more line.
    replay-line :
        (log : Bytes) (seq ts n : ℕ) (s : AttestedSession) (b : Bytes)
        → IsComplete log
        → l.encode seq ts (codes "session") s ≡ some b
        → checked_suc seq ≡ some n
        → verifies c s ≡ true
        → replay c l (log ++ (b ++ 10 ∷ [])) ≡ record {
          next_seq = max (replay c l log).next_seq n;
          index = insert (replay c l log).index s;
        }
    unfolding replay replay_lines split_lines
    replay-line log seq ts n s b ends e k v =
        ap (replay_lines c l _) (
          split_lines-append log (b ++ 10 ∷ []) ends
          ∙ ap (◌++◌ (split_lines log))
              (split_lines-line b [] (t.object_line seq ts s b e).one_line))
        ∙ replay_lines-append _ (split_lines log) ((b ++ 10 ∷ []) ∷ [])
        ∙ replay_trimmed-encode _ seq ts n s b e k v

    pub put_session_whole :
        (st : JsonlStore) (s : AttestedSession) (ts m : ℕ) (b : Bytes)
        → checked_suc st.next_seq ≡ some m
        → l.encode st.next_seq ts (codes "session") s ≡ some b
        → put_session c l st s ts whole ≡ (
          record {
            log = st.log ++ (b ++ 10 ∷ []);
            next_seq = m;
            index = put_and_evict st.index s ts;
          },
          done st.next_seq,
        )
    unfolding put_session append_line
    put_session_whole st s ts m b k e = rw (k, put_session, e)

    put_session_done :
        (st st' : JsonlStore) (s : AttestedSession) (ts n : ℕ)
        → put_session c l st s ts whole ≡ (st', done n)
        → (m : ℕ) × (b : Bytes) × (checked_suc st.next_seq ≡ some m)
          × (l.encode st.next_seq ts (codes "session") s ≡ some b)
    unfolding put_session
    put_session_done st st' s ts n h = elim (Option-cases (checked_suc st.next_seq)) [
      | inl k ↦ absurd (cc (rw (k, put_session) at h))
      | inr (m, k) ↦ elim (Option-cases (l.encode st.next_seq ts (codes "session") s)) [
        | inl e ↦ absurd (cc (rw (k, put_session, e) at h))
        | inr (b, e) ↦ (m, b, k, e)
      ]
    ]

    checked_suc-suc : (n m : ℕ) → checked_suc n ≡ some m → m ≡ n + 1
    unfolding checked_suc
    checked_suc-suc n m h = ground arith

    -- A `put_session` that reports success on a log of whole lines leaves a log of whole lines, and
    -- the replay of that log is the replay of the old one with the session inserted, if the session
    -- verifies. The number reported is the writer's, and the writer's next one is its successor; the
    -- index in memory has the session and what was expired is evicted.
    pub replay-put_session :
        (st st' : JsonlStore) (s : AttestedSession) (ts n : ℕ)
        → IsComplete st.log
        → verifies c s ≡ true
        → put_session c l st s ts whole ≡ (st', done n)
        → IsComplete st'.log
          × (replay c l st'.log ≡ record {
            next_seq = max (replay c l st.log).next_seq (n + 1);
            index = insert (replay c l st.log).index s;
          })
          × (st'.next_seq ≡ n + 1)
          × (n ≡ st.next_seq)
          × (st'.index ≡ put_and_evict st.index s ts)
    replay-put_session st st' s ts n ends v h =
        let (m, b, k, e) = put_session_done st st' s ts n h in
        let p = sym h ∙ put_session_whole st s ts m b k e in
        let q : st' ≡ record {
          log = st.log ++ (b ++ 10 ∷ []);
          next_seq = m;
          index = put_and_evict st.index s ts;
        } =
          ap (λ x. x.0) p in
        let same : n ≡ st.next_seq = cc (ap (λ x. x.1) p) in
        let succ : m ≡ n + 1 = checked_suc-suc st.next_seq m k ∙ ap (λ x. x + 1) (sym same) in
        (
          rw q (append-IsComplete st.log b),
          rw (q, ← succ) (replay-line st.log st.next_seq ts m s b ends e k v),
          rw q succ,
          same,
          rw q,
        )
