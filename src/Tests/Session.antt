-- ===== src/Tests/Session.antt =====
-- Runs of the session registry, and its theorems at concrete inputs.
use phala_llm_router.Base.{
  ℕ, ◌+◌, true, false, List, [], ◌∷◌, ◌++◌, none, some, Text, text_eq, if_pos, ◌≡◌, refl, ◌∙◌,
  ℕ_discrete, arith, text_discrete, max,
}
use phala_llm_router.Canonical.{ok, canonicalize}
use phala_llm_router.Dict
use phala_llm_router.Expiry.{hint, drop_expiry_hint}
use phala_llm_router.Session.{content_id, digest_matches_data}
use phala_llm_router.Session.Coherent.{IsCoherent, insert-IsCoherent, empty-IsCoherent}
use phala_llm_router.Session.Eviction.{unexpired}
use phala_llm_router.Session.Index.{
  empty, insert, put_and_evict, evict_expired, evict_buckets, get, renew, renew_live,
}
use phala_llm_router.Session.Log.{
  JsonlStore, done, whole, put_session, compact, replay, verifies, write_live, checked_suc,
}
use phala_llm_router.Session.Log.Compaction.{replay-compact, compact_written}
use phala_llm_router.Session.Log.Inserted.{AllVerified}
use phala_llm_router.Session.Log.Lines.{IsComplete}
use phala_llm_router.Session.Log.Recovery.{replay-put_session, put_session_whole}
use phala_llm_router.Session.Log.Tamper.{replay-content_id, insert-AllVerified}
use phala_llm_router.Session.Refinement.{
  Call, put, fetch, renews, stored, found, renewed, replies, spec_replies, step,
  replies-spec_replies,
}
use phala_llm_router.Tests.Data.{up, codecs, line_codec, line_codec-RoundTrips, the_line, encode-up}

program : Unit {0}
unfolding replies step put_and_evict evict_expired evict_buckets insert get renew renew_live empty
    hint drop_expiry_hint text_discrete ℕ_discrete Dict.get Dict.insert Dict.remove Dict.adjust
    Dict.remove_all Dict.del Dict.add Dict.contains content_id canonicalize text_eq
    digest_matches_data verifies
program = tt

-- A session is fetched until its deadline, 20, which a renewal moves to 30.
abbrev calls : List (ℕ × Call)
calls =
    (5, put up)
    ∷ (19, fetch up.session_id)
    ∷ (19, renews up.session_id 30)
    ∷ (25, fetch up.session_id)
    ∷ (30, renews up.session_id 40)
    ∷ []

replies_test :
    replies empty calls
    ≡ stored
      ∷ found (some up)
      ∷ renewed true
      ∷ found (some (record up { expires_at = 30 }))
      ∷ renewed false
      ∷ []
unfolding program
replies_test = refl

replies-spec_replies_example : replies empty calls ≡ spec_replies (λ _. none) calls
replies-spec_replies_example = replies-spec_replies calls (omega arith)

abbrev fresh : JsonlStore
fresh = record { log = []; next_seq = 0; index = empty }

abbrev one : JsonlStore
one = record { log = the_line ++ 10 ∷ []; next_seq = 1; index = put_and_evict empty up 5 }

up-verifies : verifies codecs up ≡ true
unfolding program
up-verifies = refl

put_up : put_session codecs line_codec fresh up 5 whole ≡ (one, done 0)
unfolding checked_suc
put_up =
    put_session_whole codecs line_codec line_codec-RoundTrips fresh up 5 1 the_line refl encode-up

replay-put_session_example :
    IsComplete one.log
    × (replay codecs line_codec one.log ≡ record {
      next_seq = max (replay codecs line_codec []).next_seq (0 + 1);
      index = insert (replay codecs line_codec []).index up;
    })
    × (one.next_seq ≡ 0 + 1)
    × (◌≡◌ {A = ℕ} 0 0)
    × (one.index ≡ put_and_evict empty up 5)
replay-put_session_example =
    replay-put_session codecs line_codec line_codec-RoundTrips fresh one up 5 0 tt up-verifies
      put_up

-- A store whose session is only in memory.
abbrev unsaved : JsonlStore
unsaved = record { log = []; next_seq = 0; index = insert empty up }

abbrev saved : JsonlStore
saved = record {
  log = the_line ++ 10 ∷ [];
  next_seq = 1;
  index = evict_expired (insert empty up) 5;
}

live_up : Dict.values (evict_expired (insert empty up) 5).by_id ≡ up ∷ []
unfolding program
live_up = refl

write_up :
    write_live codecs line_codec 0 5 (Dict.values (evict_expired (insert empty up) 5).by_id)
    ≡ some saved.log
unfolding write_live
write_up = rw (live_up, write_live, encode-up)

compact_up : compact codecs line_codec unsaved 5 true ≡ (saved, done 1)
compact_up =
    compact_written codecs line_codec line_codec-RoundTrips unsaved 5 saved.log write_up
    ∙ rw live_up

empty-AllVerified : AllVerified codecs empty
unfolding program
empty-AllVerified q = tt

unsaved-AllVerified : AllVerified codecs unsaved.index
unsaved-AllVerified = insert-AllVerified codecs empty up up-verifies empty-AllVerified

replay-compact_example :
    IsComplete saved.log
    × ((q : Text)
        → Dict.get q (replay codecs line_codec saved.log).index.by_id
          ≡ unexpired 5 (Dict.get q unsaved.index.by_id))
    × IsCoherent (replay codecs line_codec saved.log).index
    × ((replay codecs line_codec saved.log).next_seq ≡ 1)
    × (saved.next_seq ≡ 1)
    × (saved.index ≡ evict_expired unsaved.index 5)
replay-compact_example =
    replay-compact codecs line_codec line_codec-RoundTrips unsaved saved 5 1
      (insert-IsCoherent empty empty-IsCoherent up) unsaved-AllVerified (rw live_up (omega arith))
      compact_up

replayed_up : Dict.get up.session_id (replay codecs line_codec one.log).index.by_id ≡ some up
unfolding insert
replayed_up = rw (replay-put_session_example.1) (
    Dict.get-insert up.session_id up.session_id up (replay codecs line_codec []).index.by_id
    ∙ if_pos (text_discrete up.session_id up.session_id) refl (some up) _)

replay-content_id_example :
    (content_id codecs up ≡ ok up.session_id)
    × (digest_matches_data codecs up.evidence ≡ true)
    × IsCoherent (replay codecs line_codec one.log).index
replay-content_id_example = replay-content_id codecs line_codec one.log up.session_id up replayed_up
