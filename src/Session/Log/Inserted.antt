-- ===== src/Session/Log/Inserted.antt =====
-- Sessions that verify, and what an index holds after a list of sessions is inserted.
use phala_llm_router.Base.{
  ℕ, true, List, [], ◌∷◌, ◌≡◌, refl, arith, Option, none, some, Text, text_discrete, if_pos,
}
use phala_llm_router.Dict
use phala_llm_router.Dict.{Dict, get-insert}
use phala_llm_router.Dict.Keys.{Distinct}
use phala_llm_router.Session.{AttestedSession, Codecs}
use phala_llm_router.Session.Index.{SessionIndex, empty, insert, evict_expired}
use phala_llm_router.Session.Coherent.{IsCoherent, insert-IsCoherent, Filed}
use phala_llm_router.Session.Eviction.{unexpired, get-evict_expired}
use phala_llm_router.Session.Log.{verifies}

unfoldable pub insert_all : SessionIndex → List AttestedSession → SessionIndex
insert_all ix [] = ix
insert_all ix (s ∷ ss) = insert_all (insert ix s) ss

-- Every entry of the dictionary stands under its session's id, and its session verifies.
abbrev pub Entries : Codecs → Dict AttestedSession → Type 0
Entries c [] = Unit {0}
Entries c ((k, s) ∷ m) = (s.session_id ≡ k) × (verifies c s ≡ true) × Entries c m

abbrev pub Verified : Codecs → Option AttestedSession → Type 0
Verified c none = Unit {0}
Verified c (some s) = verifies c s ≡ true

-- The session of every id verifies.
abbrev pub AllVerified : Codecs → SessionIndex → Type 0
AllVerified c ix = (q : Text) → Verified c (Dict.get q ix.by_id)

abbrev pub later : Option AttestedSession → Option AttestedSession → Option AttestedSession
later (some s) o = some s
later none o = o

module _ (c : Codecs) where
  pub values-Entries :
      (m : Dict AttestedSession)
      → Distinct m
      → ((q : Text) → Filed q (Dict.get q m))
      → ((q : Text) → Verified c (Dict.get q m))
      → Entries c m
  unfolding Dict.get
  values-Entries [] d f v = tt
  values-Entries ((k, s) ∷ m) d f v = (
    rw (if_pos (text_discrete k k) refl) at (f k),
    rw (if_pos (text_discrete k k) refl) at (v k),
    values-Entries m d.1 (λ q. ground (arith, f q)) (λ q. ground (arith, v q)),
  )

  pub get-insert_all :
      (ix : SessionIndex) (m : Dict AttestedSession) (q : Text)
      → Distinct m
      → Entries c m
      → Dict.get q (insert_all ix (Dict.values m)).by_id
        ≡ later (Dict.get q m) (Dict.get q ix.by_id)
  unfolding insert_all Dict.get insert
  get-insert_all ix [] q d e = refl
  get-insert_all ix ((k, s) ∷ m) q d e =
      ground (arith, get-insert_all (insert ix s) m q d.1 e.2, get-insert q s.session_id s ix.by_id)

unexpired-Verified :
    (c : Codecs) (now : ℕ) (o : Option AttestedSession)
    → Verified c o
    → Verified c (unexpired now o)
unfolding unexpired
unexpired-Verified c now none v = tt
unexpired-Verified c now (some s) v = ground arith

pub evicted-AllVerified :
    (c : Codecs) (ix : SessionIndex) (now : ℕ)
    → IsCoherent ix
    → AllVerified c ix
    → AllVerified c (evict_expired ix now)
evicted-AllVerified c ix now v a q =
    rw (get-evict_expired ix v now q) (unexpired-Verified c now (Dict.get q ix.by_id) (a q))

pub later_empty : (q : Text) (o : Option AttestedSession) → later o (Dict.get q empty.by_id) ≡ o
unfolding empty Dict.get
later_empty q none = refl
later_empty q (some s) = refl

pub insert_all-IsCoherent :
    (ix : SessionIndex) (ss : List AttestedSession) → IsCoherent ix → IsCoherent (insert_all ix ss)
unfolding insert_all
insert_all-IsCoherent ix [] v = v
insert_all-IsCoherent ix (s ∷ ss) v =
    insert_all-IsCoherent (insert ix s) ss (insert-IsCoherent ix v s)
