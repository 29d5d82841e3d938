-- ===== src/Expiry.antt =====
-- `by_expiry: BTreeMap<u64, HashSet<String>>` of aggregator/session_store.rs and
-- aggregator/service/receipt_store.rs: buckets of ids by deadline, in ascending order.
pub mod Laws
use phala_llm_router.Base.{
  ℕ, suc, ◌≤◌, ◌==◌, ltb, Bool, true, false, ◌&&◌, ◌||◌, List, [], ◌∷◌, Text, if◌then◌else◌,
}
use phala_llm_router.Dict.{contains, add, del}

abbrev pub Buckets : Type 0
Buckets = List (ℕ × List Text)

abbrev pub is_empty : List Text → Bool
is_empty [] = true
is_empty (x ∷ xs) = false

-- `by_expiry.entry(expires_at).or_default().insert(id)`
unfoldable pub hint : Text → ℕ → Buckets → Buckets
hint id e [] = (e, id ∷ []) ∷ []
hint id e ((d, ids) ∷ b) =
    if d == e
    then (d, add id ids) ∷ b
    else if ltb e d
    then (e, id ∷ []) ∷ (d, ids) ∷ b
    else (d, ids) ∷ hint id e b

-- `drop_expiry_hint`: an emptied bucket goes too.
unfoldable pub drop_expiry_hint : Text → ℕ → Buckets → Buckets
drop_expiry_hint id e [] = []
drop_expiry_hint id e ((d, ids) ∷ b) =
    if d == e
    then (if is_empty (del id ids) then b else (d, del id ids) ∷ b)
    else (d, ids) ∷ drop_expiry_hint id e b

-- The id stands in the bucket of the deadline.
unfoldable pub hinted : ℕ → Text → Buckets → Bool
hinted e id [] = false
hinted e id ((d, ids) ∷ b) = (d == e && contains id ids) || hinted e id b

-- Deadlines ascend strictly, from `n`.
abbrev pub SortedFrom : ℕ → Buckets → Type 0
SortedFrom n [] = Unit {0}
SortedFrom n ((d, ids) ∷ b) = (n ≤ d) × SortedFrom (suc d) b
