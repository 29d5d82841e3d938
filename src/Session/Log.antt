-- ===== src/Session/Log.antt =====
-- `JsonlSessionStore` of aggregator/session_store.rs: the append-only log, its replay at start-up and
-- its compaction. The log is the bytes of its file. JSON encoding of a line is a parameter; the locks
-- are not modelled, since each call runs under the writer's lock.
pub mod Lines
pub mod Inserted
pub mod Recovery
pub mod Tamper
pub mod Compaction
use mathlib.Core.List.{reverse}
use phala_llm_router.Base.{
  ℕ, zero, suc, ◌+◌, ◌==◌, ltb, leb, max, Bool, true, false, ◌&&◌, ◌||◌, List, [], ◌∷◌, ◌++◌,
  Option, none, some, Text, text_eq, if◌then◌else◌, codes, u64_mod, length,
}
use phala_llm_router.Base.Lists.{take}
use phala_llm_router.Canonical.{Bytes, Result, ok, err}
use phala_llm_router.Dict
use phala_llm_router.Json.{Value}
use phala_llm_router.Session.{AttestedSession, Codecs, content_id, digest_matches_data}
use phala_llm_router.Session.Index.{SessionIndex, empty, insert, put_and_evict, evict_expired}

-- `SessionLogRecord`
pub record LogRecord : Type 0 where
  pub seq : ℕ
  pub ts : ℕ
  pub record_type : Text
  pub payload : Value

-- `serde_json` at the two types of a log line.
pub record LineCodec : Type 0 where
  -- `to_string(&SessionLogRecordRef { seq, ts, record_type, payload })`
  pub encode : ℕ → ℕ → Text → AttestedSession → Option Bytes
  -- `from_slice::<SessionLogRecord>`
  pub decode : Bytes → Option LogRecord
  -- `from_value::<AttestedSession>`
  pub session_of : Value → Option AttestedSession

-- `u64::checked_add(1)`
unfoldable pub checked_suc : ℕ → Option ℕ
checked_suc n = if ltb (n + 1) u64_mod then some (n + 1) else none

cons_first : ℕ → List Bytes → List Bytes
cons_first c [] = (c ∷ []) ∷ []
cons_first c (l ∷ ls) = (c ∷ l) ∷ ls

-- `read_until(b'\n')` until the end of the file: each line with its newline.
unfoldable pub split_lines : Bytes → List Bytes
unfolding cons_first
split_lines [] = []
split_lines (c ∷ s) = if c == 10 then (c ∷ []) ∷ split_lines s else cons_first c (split_lines s)

-- `u8::is_ascii_whitespace`
unfoldable pub is_space : ℕ → Bool
is_space c = c == 32 || c == 9 || c == 10 || c == 12 || c == 13

trim_start : Bytes → Bytes
unfolding is_space
trim_start [] = []
trim_start (c ∷ s) = let rest = trim_start s in if is_space c then rest else c ∷ s

-- `trim_ascii`
unfoldable pub trim_ascii : Bytes → Bytes
unfolding trim_start
trim_ascii s = reverse (trim_start (reverse (trim_start s)))

-- `content_id().ok().as_deref() == Some(&session_id) && evidence.digest_matches_data()`
unfoldable pub verifies : Codecs → AttestedSession → Bool
verifies c s = elim (content_id c s) [
  | ok id ↦ text_eq id s.session_id && digest_matches_data c s.evidence
  | err e ↦ false
]

-- The writer's sequence number and the index, as the loop of `open` builds them.
pub record Replay : Type 0 where
  pub next_seq : ℕ
  pub index : SessionIndex

module _ (c : Codecs) (l : LineCodec) where
  unfoldable pub replay_session : Replay → Option AttestedSession → Replay
  replay_session r none = r
  replay_session r (some s) = if verifies c s then record r { index = insert r.index s } else r

  unfoldable pub replay_record : Replay → LogRecord → Replay
  unfolding replay_session
  replay_record r entry = elim (checked_suc entry.seq) [
    | none ↦ r
    | some seq_after ↦
        let r' : Replay = record r { next_seq = max r.next_seq seq_after } in
        if text_eq entry.record_type (codes "session")
        then replay_session r' (l.session_of entry.payload)
        else r'
  ]

  -- What the loop does with the bytes of a line, trimmed.
  unfoldable pub replay_trimmed : Replay → Bytes → Replay
  replay_trimmed r [] = r
  replay_trimmed r (b ∷ bs) = elim (l.decode (b ∷ bs)) [
    | none ↦ r
    | some entry ↦ replay_record r entry
  ]

  unfoldable pub replay_lines : Replay → List Bytes → Replay
  replay_lines r [] = r
  replay_lines r (line ∷ lines) = replay_lines (replay_trimmed r (trim_ascii line)) lines

  unfoldable pub replay : Bytes → Replay
  replay log = replay_lines (record { next_seq = 0; index = empty }) (split_lines log)

pub data StoreError : Type 0 where
  -- Another process holds the lock.
  would_block : StoreError
  -- `ErrorKind::InvalidData`: a line that cannot be encoded, or a sequence number at its end.
  invalid_data : StoreError
  -- An error of the file system.
  io : StoreError

pub data StoreResult {ℓ} (A : Type ℓ) : Type ℓ where
  done : A → StoreResult A
  fail : StoreError → StoreResult A

-- The log's bytes, the writer and the index of an open store.
pub record JsonlStore : Type 0 where
  pub log : Bytes
  pub next_seq : ℕ
  pub index : SessionIndex

-- What opening the log for replay finds.
pub data Found : Type 0 where
  not_found unreadable : Found
  content : Bytes → Found

-- What `write_all` does: the whole line lands in the file, or an error after some of its bytes.
pub data Write : Type 0 where
  whole : Write
  broken : ℕ → Write

module _ (c : Codecs) (l : LineCodec) where
  opened : Bytes → JsonlStore
  opened log = record {
    log = log;
    next_seq = (replay c l log).next_seq;
    index = (replay c l log).index;
  }

  -- `JsonlSessionStore::open`: is the lock free, and what is at the path.
  unfoldable pub open_store : Bool → Found → StoreResult JsonlStore
  unfolding opened
  open_store false found = fail would_block
  open_store true not_found = done (opened [])
  open_store true unreadable = fail io
  open_store true (content log) = done (opened log)

  unfoldable pub append_line :
      JsonlStore → AttestedSession → ℕ → ℕ → Bytes → Write → JsonlStore × StoreResult ℕ
  unfolding take
  append_line st s ts next_seq line whole = (
    record { log = st.log ++ line; next_seq = next_seq; index = put_and_evict st.index s ts },
    done st.next_seq,
  )
  append_line st s ts next_seq line (broken n) =
      (record st { log = st.log ++ take n line }, fail io)

  -- `put_session`
  unfoldable pub put_session : JsonlStore → AttestedSession → ℕ → Write → JsonlStore × StoreResult ℕ
  unfolding append_line
  put_session st s ts w = elim (checked_suc st.next_seq) [
    | none ↦ (st, fail invalid_data)
    | some next_seq ↦ elim (l.encode st.next_seq ts (codes "session") s) [
      | none ↦ (st, fail invalid_data)
      | some text ↦ append_line st s ts next_seq (text ++ 10 ∷ []) w
    ]
  ]

  -- The temp file of `compact`: a line for each live session, numbered from `seq`.
  unfoldable pub write_live : ℕ → ℕ → List AttestedSession → Option Bytes
  write_live seq now [] = some []
  write_live seq now (s ∷ ss) = elim (l.encode seq now (codes "session") s) [
    | none ↦ none
    | some text ↦ elim (write_live (seq + 1) now ss) [
      | none ↦ none
      | some rest ↦ some (text ++ 10 ∷ rest)
    ]
  ]

  -- `compact`; the last argument says whether the file operations up to the rename succeed. The log
  -- is not touched before the rename.
  unfoldable pub compact : JsonlStore → ℕ → Bool → JsonlStore × StoreResult ℕ
  compact st now disk =
      let index = evict_expired st.index now in
      let live = Dict.values index.by_id in
      elim (write_live 0 now live) [
        | none ↦ (record st { index = index }, fail invalid_data)
        | some log ↦
            if disk
            then (record { log = log; next_seq = length live; index = index }, done (length live))
            else (record st { index = index }, fail io)
      ]
