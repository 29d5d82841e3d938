-- ===== src/Session/Index.antt =====
-- `SessionIndex` of aggregator/session_store.rs: the sessions by id, and their ids by deadline.
use phala_llm_router.Base.{
  ℕ, ◌==◌, ltb, leb, Bool, true, false, ◌&&◌, List, [], ◌∷◌, Option, none, some, Text, text_eq,
  if◌then◌else◌,
}
use phala_llm_router.Dict
use phala_llm_router.Dict.{Dict, remove_all}
use phala_llm_router.Expiry.{Buckets, hint, drop_expiry_hint}
use phala_llm_router.Session.{AttestedSession}
use phala_llm_router.Canonical.{Order, less, greater, units_compare}

pub record SessionIndex : Type 0 where
  pub by_id : Dict AttestedSession
  pub by_expiry : Buckets

unfoldable pub empty : SessionIndex
empty = record { by_id = []; by_expiry = [] }

-- The old hint of an id that moves to another deadline goes.
unfoldable pub forget : Text → ℕ → Option AttestedSession → Buckets → Buckets
forget id expires_at none b = b
forget id expires_at (some prev) b =
    if prev.expires_at == expires_at then b else drop_expiry_hint id prev.expires_at b

unfoldable pub insert : SessionIndex → AttestedSession → SessionIndex
unfolding forget
insert ix s = record {
  by_id = Dict.insert s.session_id s ix.by_id;
  by_expiry =
      hint s.session_id s.expires_at
        (forget s.session_id s.expires_at (Dict.get s.session_id ix.by_id) ix.by_expiry);
}

-- The loop of `evict_expired`: the first buckets go while their deadline is not after `now`, and
-- with each the sessions that it names.
unfoldable pub evict_buckets : ℕ → Dict AttestedSession → Buckets → SessionIndex
evict_buckets now m [] = record { by_id = m; by_expiry = [] }
evict_buckets now m ((expires_at, ids) ∷ b) =
    let later = evict_buckets now (remove_all ids m) b in
    if ltb now expires_at then record { by_id = m; by_expiry = (expires_at, ids) ∷ b } else later

unfoldable pub evict_expired : SessionIndex → ℕ → SessionIndex
evict_expired ix now = evict_buckets now ix.by_id ix.by_expiry

unfoldable pub put_and_evict : SessionIndex → AttestedSession → ℕ → SessionIndex
put_and_evict ix s ts = evict_expired (insert ix s) ts

unfoldable pub get : SessionIndex → Text → ℕ → SessionIndex × Option AttestedSession
get ix id now = elim (Dict.get id ix.by_id) [
  | none ↦ (ix, none)
  | some s ↦
      if leb s.expires_at now
      then (
        record {
          by_id = Dict.remove id ix.by_id;
          by_expiry = drop_expiry_hint id s.expires_at ix.by_expiry;
        },
        none,
      )
      else (ix, some s)
]

-- `renew` behind its eviction.
unfoldable pub renew_live : SessionIndex → Text → ℕ → SessionIndex × Bool
renew_live ix id new_expires_at = elim (Dict.get id ix.by_id) [
  | none ↦ (ix, false)
  | some s ↦ if s.expires_at == new_expires_at then (ix, true) else (
    record {
      by_id = Dict.adjust id (λ t. record t { expires_at = new_expires_at }) ix.by_id;
      by_expiry = hint id new_expires_at (drop_expiry_hint id s.expires_at ix.by_expiry);
    },
    true,
  )
]

unfoldable pub renew : SessionIndex → Text → ℕ → ℕ → SessionIndex × Bool
renew ix id new_expires_at now = renew_live (evict_expired ix now) id new_expires_at

-- The order of `sort_sessions_newest_first`: the later `established_at` first, then by id. (Bytes of
-- UTF-8 and code points have one order.)
unfoldable pub newest_first : AttestedSession → AttestedSession → Order
newest_first a b =
    if ltb b.established_at a.established_at
    then less
    else if ltb a.established_at b.established_at
    then greater
    else units_compare a.session_id b.session_id

unfoldable pub insert_sorted : AttestedSession → List AttestedSession → List AttestedSession
insert_sorted s [] = s ∷ []
insert_sorted s (t ∷ l) =
    let later = t ∷ insert_sorted s l in elim (newest_first s t) [ greater ↦ later | _ ↦ s ∷ t ∷ l ]

unfoldable pub sort_sessions_newest_first : List AttestedSession → List AttestedSession
sort_sessions_newest_first [] = []
sort_sessions_newest_first (s ∷ l) = insert_sorted s (sort_sessions_newest_first l)

-- `upstream_name.is_none_or(|p| s.upstream_name == p)`
unfoldable pub of_upstream : Option Text → AttestedSession → Bool
of_upstream none s = true
of_upstream (some p) s = text_eq s.upstream_name p

unfoldable pub select : Option Text → ℕ → List AttestedSession → List AttestedSession
select upstream_name now [] = []
select upstream_name now (s ∷ l) =
    let rest = select upstream_name now l in
    if ltb now s.expires_at && of_upstream upstream_name s then s ∷ rest else rest

unfoldable pub list : SessionIndex → Option Text → ℕ → List AttestedSession
list ix upstream_name now =
    sort_sessions_newest_first (select upstream_name now (Dict.values ix.by_id))
