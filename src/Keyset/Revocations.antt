-- ===== src/Keyset/Revocations.antt =====
-- `RevocationStore` of aggregator/revocation_store.rs: what is revoked after a history of records,
-- and after the service is restarted.
use phala_llm_router.Base.{
  Bool, true, false, not, text_eq_iff, ◌&&◌, ◌||◌, List, [], ◌∷◌, ◌++◌, Text, text_eq,
  if◌then◌else◌, ◌≡◌, ap, ◌∙◌, arith,
}
use phala_llm_router.Keyset.{RevocationStatement, is_revoked}

-- The statements in memory, and those that the file holds if the store has a path.
pub record RevocationStore : Type 0 where
  pub path : Bool
  pub file : List RevocationStatement
  pub statements : List RevocationStatement

-- `open` on what the file holds
abbrev pub reopen : List RevocationStatement → RevocationStore
reopen file = record { path = true; file = file; statements = file }

-- `persist`; the last argument says whether the write and the rename succeed.
unfoldable pub persist : RevocationStore → Bool → RevocationStore × Bool
persist st disk =
    if not st.path
    then (st, true)
    else if disk
    then (record st { file = st.statements }, true)
    else (st, false)

-- `record`, and whether it returns `Ok`
unfoldable pub record_statement :
    RevocationStore → RevocationStatement → Bool → RevocationStore × Bool
unfolding persist
record_statement st s disk =
    if is_revoked st.statements s.workload_keyset_digest
    then (st, true)
    else persist (record st { statements = st.statements ++ s ∷ [] }) disk

unfoldable pub record_all : RevocationStore → List (RevocationStatement × Bool) → RevocationStore
unfolding record_statement
record_all st [] = st
record_all st ((s, disk) ∷ ss) = record_all (record_statement st s disk).0 ss

-- A statement of the history names the digest.
unfoldable pub named : Text → List (RevocationStatement × Bool) → Bool
named q [] = false
named q ((s, disk) ∷ ss) = text_eq s.workload_keyset_digest q || named q ss

-- The file system lets every write pass.
unfoldable pub all_pass : List (RevocationStatement × Bool) → Bool
all_pass [] = true
all_pass ((s, disk) ∷ ss) = disk && all_pass ss

is_revoked-append :
    (q : Text) (ss : List RevocationStatement) (s : RevocationStatement)
    → is_revoked (ss ++ s ∷ []) q ≡ (is_revoked ss q || text_eq s.workload_keyset_digest q)
unfolding is_revoked
is_revoked-append q [] s = ground arith
is_revoked-append q (t ∷ ss) s = ground (arith, is_revoked-append q ss s)

is_revoked-record_statement :
    (q : Text) (st : RevocationStore) (s : RevocationStatement) (disk : Bool)
    → is_revoked (record_statement st s disk).0.statements q
      ≡ (is_revoked st.statements q || text_eq s.workload_keyset_digest q)
unfolding record_statement persist
is_revoked-record_statement q st s disk =
    ground (arith, is_revoked-append q st.statements s, text_eq_iff s.workload_keyset_digest q)

record_statement-file :
    (st : RevocationStore) (s : RevocationStatement)
    → st.path ≡ true
    → st.file ≡ st.statements
    → ((record_statement st s true).0.path ≡ true)
      × ((record_statement st s true).0.file ≡ (record_statement st s true).0.statements)
unfolding record_statement persist
record_statement-file st s p h = ground arith

is_revoked-record_all :
    (q : Text) (ss : List (RevocationStatement × Bool)) (st : RevocationStore)
    → is_revoked (record_all st ss).statements q ≡ (is_revoked st.statements q || named q ss)
unfolding record_all named
is_revoked-record_all q [] st = ground arith
is_revoked-record_all q ((s, disk) ∷ ss) st = ground (
  arith,
  is_revoked-record_all q ss (record_statement st s disk).0,
  is_revoked-record_statement q st s disk,
)

record_all-file :
    (ss : List (RevocationStatement × Bool)) (st : RevocationStore)
    → st.path ≡ true
    → st.file ≡ st.statements
    → all_pass ss ≡ true
    → (record_all st ss).file ≡ (record_all st ss).statements
unfolding record_all all_pass
record_all-file [] st p h a = h
record_all-file ((s, false) ∷ ss) st p h a = absurd (cc a)
record_all-file ((s, true) ∷ ss) st p h a =
    let r = record_statement-file st s p h in record_all-file ss _ r.0 r.1 a

-- Take a store with a path whose file holds the statements of memory, and any history of records in
-- which every write passes: then a digest is revoked if and only if it was before or a statement of
-- the history names it, both in memory and in a service that is started again from the file.
pub reopened-revoked :
    (q : Text) (ss : List (RevocationStatement × Bool)) (st : RevocationStore)
    → st.path ≡ true
    → st.file ≡ st.statements
    → all_pass ss ≡ true
    → (is_revoked (record_all st ss).statements q ≡ (is_revoked st.statements q || named q ss))
      × (is_revoked (reopen (record_all st ss).file).statements q
          ≡ (is_revoked st.statements q || named q ss))
reopened-revoked q ss st p h a = (
  is_revoked-record_all q ss st,
  ap (λ f. is_revoked f q) (record_all-file ss st p h a) ∙ is_revoked-record_all q ss st,
)
