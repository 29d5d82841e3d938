-- ===== src/Session/Eviction.antt =====
-- `evict_expired` of `SessionIndex`: what the loop over the first buckets keeps and drops.
use phala_llm_router.Base.{
  ℕ, suc, ltb, ◌<◌, false, List, [], ◌∷◌, Option, none, some, Text, if◌then◌else◌, ◌≡◌, refl, arith,
  inl, inr, Bool-cases,
}
use phala_llm_router.Dict
use phala_llm_router.Dict.{
  Dict, remove_all, contains, get-insert, get-remove, get-adjust, get-remove_all,
}
use phala_llm_router.Dict.Keys.{Distinct, remove_all-Distinct}
use phala_llm_router.Expiry.{Buckets, hinted, SortedFrom}
use phala_llm_router.Expiry.Laws.{hinted-below, SortedFrom-weaken}
use phala_llm_router.Session.{AttestedSession}
use phala_llm_router.Session.Index.{SessionIndex, evict_buckets, evict_expired}
use phala_llm_router.Session.Coherent.{expires, Filed, IsCoherent}

-- What is left of a session at the time `now`: nothing, once its deadline is reached.
unfoldable pub unexpired : ℕ → Option AttestedSession → Option AttestedSession
unexpired now none = none
unexpired now (some s) = if ltb now s.expires_at then some s else none

abbrev Agrees : Dict AttestedSession → Buckets → Type 0
Agrees m b = (id : Text) (e : ℕ) → hinted e id b ≡ expires e (Dict.get id m)

Agrees-tail :
    (n d : ℕ) (ids : List Text) (m : Dict AttestedSession) (b : Buckets)
    → SortedFrom n ((d, ids) ∷ b)
    → Agrees m ((d, ids) ∷ b)
    → Agrees (remove_all ids m) b
unfolding hinted expires
Agrees-tail n d ids m b s h id e =
    ground (arith, h id e, h id d, hinted-below (suc d) e id b s.1, get-remove_all id ids m)

unexpired_early :
    (n now : ℕ) (o : Option AttestedSession) (q : Text) (b : Buckets)
    → SortedFrom n b
    → now < n
    → ((e : ℕ) → hinted e q b ≡ expires e o)
    → o ≡ unexpired now o
unfolding unexpired expires
unexpired_early n now none q b s lt h = refl
unexpired_early n now (some t) q b s lt h =
    ground (arith, h t.expires_at, hinted-below n t.expires_at q b s)

unexpired_of_empty :
    (now : ℕ) (o : Option AttestedSession) (q : Text)
    → ((e : ℕ) → hinted e q [] ≡ expires e o)
    → o ≡ unexpired now o
unfolding unexpired expires hinted
unexpired_of_empty now none q h = refl
unexpired_of_empty now (some t) q h = ground (arith, h t.expires_at)

unexpired_due :
    (d now : ℕ) (ids : List Text) (o : Option AttestedSession) (q : Text) (b : Buckets)
    → ltb now d ≡ false
    → hinted d q ((d, ids) ∷ b) ≡ expires d o
    → unexpired now (if contains q ids then none else o) ≡ unexpired now o
unfolding unexpired expires hinted
unexpired_due d now ids none q b due h = ground arith
unexpired_due d now ids (some t) q b due h = ground arith

evict_buckets-get :
    (n now : ℕ) (m : Dict AttestedSession) (b : Buckets)
    → SortedFrom n b
    → Agrees m b
    → (q : Text) → Dict.get q (evict_buckets now m b).by_id ≡ unexpired now (Dict.get q m)
unfolding evict_buckets
evict_buckets-get n now m [] s h q = unexpired_of_empty now (Dict.get q m) q (h q)
evict_buckets-get n now m ((d, ids) ∷ b) s h q = elim (Bool-cases (ltb now d)) [
  | inl late ↦
      rw (late, evict_buckets)
        (unexpired_early d now (Dict.get q m) q ((d, ids) ∷ b) (omega arith, s.1) (ground arith)
          (h q))
  | inr due ↦
      rw
        (
          due,
          evict_buckets,
          evict_buckets-get (suc d) now (remove_all ids m) b s.1 (Agrees-tail n d ids m b s h) q,
          get-remove_all q ids m,
        )
        (unexpired_due d now ids (Dict.get q m) q b due (h q d))
]

evict_buckets-IsCoherent :
    (n now : ℕ) (m : Dict AttestedSession) (b : Buckets)
    → SortedFrom n b
    → Agrees m b
    → ((id : Text) → Filed id (Dict.get id m))
    → Distinct m
    → IsCoherent (evict_buckets now m b)
unfolding evict_buckets
evict_buckets-IsCoherent n now m [] s h f u = record {
  sorted = tt;
  agrees = h;
  filed = f;
  distinct = u;
}
evict_buckets-IsCoherent n now m ((d, ids) ∷ b) s h f u = elim (Bool-cases (ltb now d)) [
  | inl late ↦
      rw (late, evict_buckets)
        (record {
          sorted = SortedFrom-weaken 0 n ((d, ids) ∷ b) (omega arith) s;
          agrees = h;
          filed = f;
          distinct = u;
        })
  | inr due ↦
      rw (due, evict_buckets)
        (evict_buckets-IsCoherent (suc d) now (remove_all ids m) b s.1 (Agrees-tail n d ids m b s h)
          (λ id. ground (arith, get-remove_all id ids m, f id)) (remove_all-Distinct ids m u))
]

module _ (ix : SessionIndex) (v : IsCoherent ix) (now : ℕ) where
  pub get-evict_expired :
      (q : Text) → Dict.get q (evict_expired ix now).by_id ≡ unexpired now (Dict.get q ix.by_id)
  unfolding evict_expired
  get-evict_expired q = evict_buckets-get 0 now ix.by_id ix.by_expiry v.sorted v.agrees q

  pub evict_expired-IsCoherent : IsCoherent (evict_expired ix now)
  unfolding evict_expired
  evict_expired-IsCoherent =
      evict_buckets-IsCoherent 0 now ix.by_id ix.by_expiry v.sorted v.agrees v.filed v.distinct
