-- ===== src/Session/Log/Compaction.antt =====
-- A compacted log holds what the index held.
use phala_llm_router.Base.{
  ℕ, ◌+◌, ◌<◌, max, true, List, [], ◌∷◌, ◌++◌, ◌≡◌, refl, ap, sym, subst, ◌∙◌, arith, inl, inr,
  some, Text, codes, length, u64_mod, Option-cases,
}
use native.Mathlib.Nat.{zero-add}
use phala_llm_router.Canonical.{Bytes}
use phala_llm_router.Dict
use phala_llm_router.Dict.{Dict, get-insert}
use phala_llm_router.Session.{AttestedSession, Codecs}
use phala_llm_router.Session.Index.{SessionIndex, empty, insert, evict_expired}
use phala_llm_router.Session.Coherent.{IsCoherent, empty-IsCoherent}
use phala_llm_router.Session.Eviction.{unexpired, get-evict_expired, evict_expired-IsCoherent}
use phala_llm_router.Session.Log.{
  LineCodec, Replay, JsonlStore, done, checked_suc, split_lines, verifies, replay_lines, replay,
  write_live, compact,
}
use phala_llm_router.Session.Log.Lines.{IsComplete, split_lines-line, line_then-IsComplete}
use phala_llm_router.Session.Log.Inserted.{
  insert_all, Entries, AllVerified, values-Entries, get-insert_all, insert_all-IsCoherent,
  evicted-AllVerified, later_empty,
}
use phala_llm_router.Session.Log.Recovery.{RoundTrips, replay_trimmed-encode}

module _ (c : Codecs) (l : LineCodec) where
  module _ (t : RoundTrips l) where
    AllLines : List AttestedSession → Type 0
    AllLines [] = Unit {0}
    AllLines (s ∷ ss) = (verifies c s ≡ true) × AllLines ss

    all_lines : (m : Dict AttestedSession) → Entries c m → AllLines (Dict.values m)
    unfolding AllLines
    all_lines [] e = tt
    all_lines ((k, s) ∷ m) e = (e.1, all_lines m e.2)

    checked_suc_small : (n : ℕ) → n + 1 < u64_mod → checked_suc n ≡ some (n + 1)
    unfolding checked_suc
    checked_suc_small n h = ground arith

    write_live-cons :
        (seq now : ℕ) (s : AttestedSession) (ss : List AttestedSession) (log : Bytes)
        → write_live c l seq now (s ∷ ss) ≡ some log
        → (b : Bytes) × (rest : Bytes) × (l.encode seq now (codes "session") s ≡ some b)
          × (write_live c l (seq + 1) now ss ≡ some rest)
          × (log ≡ b ++ 10 ∷ rest)
    unfolding write_live
    write_live-cons seq now s ss log h =
        elim (Option-cases (l.encode seq now (codes "session") s)) [
          | inl e ↦ absurd (cc (rw (e, write_live) at h))
          | inr (b, e) ↦ elim (Option-cases (write_live c l (seq + 1) now ss)) [
            | inl w ↦ absurd (cc (rw (e, write_live, w) at h))
            | inr (rest, w) ↦ (b, rest, e, w, cc (rw (e, write_live, w) at h))
          ]
        ]

    -- The lines that compaction writes are replayed as insertions, in order.
    replay_lines-write_live :
        (ss : List AttestedSession) (seq now : ℕ) (log : Bytes) (r : Replay)
        → AllLines ss
        → seq + length ss < u64_mod
        → r.next_seq ≡ seq
        → write_live c l seq now ss ≡ some log
        → replay_lines c l r (split_lines log)
          ≡ record { next_seq = seq + length ss; index = insert_all r.index ss }
    unfolding AllLines insert_all replay_lines write_live
    replay_lines-write_live [] seq now log r v small k h =
        let none_left : log ≡ [] = cc h in
        let number : r.next_seq ≡ seq + 0 = omega arith in
        ap (λ x. replay_lines c l r (split_lines x)) none_left
        ∙ (unfold split_lines in λ i. record { next_seq = number i; index = r.index })
    replay_lines-write_live (s ∷ ss) seq now log r v small k h =
        let (b, rest, e, w, p) = write_live-cons seq now s ss log h in
        let r' : Replay = record {
          next_seq = max r.next_seq (seq + 1);
          index = insert r.index s;
        } in
        let number : seq + 1 + length ss ≡ seq + length (s ∷ ss) = omega arith in
        ap (replay_lines c l r)
          (ap split_lines p ∙ split_lines-line b rest (t.object_line seq now s b e).one_line)
        ∙ ap (λ x. replay_lines c l x (split_lines rest))
            (replay_trimmed-encode c l t r seq now (seq + 1) s b e
              (checked_suc_small seq (omega arith)) v.0)
        ∙ replay_lines-write_live ss (seq + 1) now rest r' v.1 (omega arith) (omega arith) w
        ∙ (λ i. record { next_seq = number i; index = insert_all r'.index ss })

    write_live-IsComplete :
        (ss : List AttestedSession) (seq now : ℕ) (log : Bytes)
        → write_live c l seq now ss ≡ some log
        → IsComplete log
    unfolding write_live
    write_live-IsComplete [] seq now log h = let e : log ≡ [] = cc h in rw e tt
    write_live-IsComplete (s ∷ ss) seq now log h =
        let (b, rest, e, w, p) = write_live-cons seq now s ss log h in
        rw p (line_then-IsComplete b rest (write_live-IsComplete ss (seq + 1) now rest w))

    pub compact_written :
        (st : JsonlStore) (now : ℕ) (log : Bytes)
        → write_live c l 0 now (Dict.values (evict_expired st.index now).by_id) ≡ some log
        → compact c l st now true ≡ (
          record {
            log = log;
            next_seq = length (Dict.values (evict_expired st.index now).by_id);
            index = evict_expired st.index now;
          },
          done (length (Dict.values (evict_expired st.index now).by_id)),
        )
    unfolding compact
    compact_written st now log w = rw (w, compact)

    compact_done :
        (st st' : JsonlStore) (now n : ℕ)
        → compact c l st now true ≡ (st', done n)
        → (log : Bytes) × (write_live c l 0 now (Dict.values (evict_expired st.index now).by_id)
            ≡ some log)
    unfolding compact
    compact_done st st' now n h =
        elim (Option-cases
          (write_live c l 0 now (Dict.values (evict_expired st.index now).by_id))) [
            | inl w ↦ absurd (cc (rw (w, compact) at h))
            | inr found ↦ found
          ]

    replay_written :
        (ix : SessionIndex) (now : ℕ) (log : Bytes)
        → IsCoherent ix
        → AllVerified c ix
        → length (Dict.values ix.by_id) < u64_mod
        → write_live c l 0 now (Dict.values ix.by_id) ≡ some log
        → ((q : Text) → Dict.get q (replay c l log).index.by_id ≡ Dict.get q ix.by_id)
          × IsCoherent (replay c l log).index
          × ((replay c l log).next_seq ≡ length (Dict.values ix.by_id))
    unfolding replay
    replay_written ix now log v a small w =
        let e : Entries c ix.by_id = values-Entries c ix.by_id v.distinct v.filed a in
        let p =
          replay_lines-write_live (Dict.values ix.by_id) 0 now log
            (record { next_seq = 0; index = empty }) (all_lines ix.by_id e) (omega arith) refl w in
        (
          λ q.
              ap (λ r. Dict.get q r.index.by_id) p
              ∙ get-insert_all c empty ix.by_id q v.distinct e
              ∙ later_empty q (Dict.get q ix.by_id),
          subst (λ r. IsCoherent r.index) (sym p) (insert_all-IsCoherent empty _ empty-IsCoherent),
          ap (λ r. r.next_seq) p ∙ zero-add _,
        )

    -- After a compaction that reports success the log has whole lines, one for each session that was
    -- live, and opening it gives back exactly those, each with its deadline at the time of the
    -- compaction, in a coherent index, and the number of the next line. It takes an index whose
    -- maps agree and whose sessions verify, and fewer than 2^64 of them.
    pub replay-compact :
        (st st' : JsonlStore) (now n : ℕ)
        → IsCoherent st.index
        → AllVerified c st.index
        → length (Dict.values (evict_expired st.index now).by_id) < u64_mod
        → compact c l st now true ≡ (st', done n)
        → IsComplete st'.log
          × ((q : Text)
              → Dict.get q (replay c l st'.log).index.by_id
                ≡ unexpired now (Dict.get q st.index.by_id))
          × IsCoherent (replay c l st'.log).index
          × ((replay c l st'.log).next_seq ≡ n)
          × (st'.next_seq ≡ n)
          × (st'.index ≡ evict_expired st.index now)
    replay-compact st st' now n v a small h =
        let ix = evict_expired st.index now in
        let (log, w) = compact_done st st' now n h in
        let p = sym h ∙ compact_written st now log w in
        let q : st' ≡ record { log = log; next_seq = length (Dict.values ix.by_id); index = ix } =
          ap (λ x. x.0) p in
        let same : n ≡ length (Dict.values ix.by_id) = cc (ap (λ x. x.1) p) in
        let r =
          replay_written ix now log (evict_expired-IsCoherent st.index v now)
            (evicted-AllVerified c st.index now v a) small w in
        (
          rw q (write_live-IsComplete _ 0 now log w),
          λ k. rw q (r.0 k ∙ get-evict_expired st.index v now k),
          rw q r.1,
          rw q (r.2 ∙ sym same),
          rw q (sym same),
          rw q,
        )
