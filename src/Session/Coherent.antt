-- ===== src/Session/Coherent.antt =====
-- The two maps of a `SessionIndex` agree, and every operation keeps them so.
use phala_llm_router.Base.{
  ℕ, ◌==◌, Bool, false, ◌&&◌, Option, none, some, Text, ◌≡◌, refl, ite, text_discrete, arith,
}
use phala_llm_router.Dict
use phala_llm_router.Dict.{
  Dict, remove_all, contains, get-insert, get-remove, get-adjust, get-remove_all,
}
use phala_llm_router.Dict.Keys.{Distinct, insert-Distinct, remove-Distinct, adjust-Distinct}
use phala_llm_router.Expiry.{Buckets, hint, drop_expiry_hint, hinted, SortedFrom}
use phala_llm_router.Expiry.Laws.{hinted-hint, hint-SortedFrom, hinted-drop, drop-SortedFrom}
use phala_llm_router.Session.{AttestedSession}
use phala_llm_router.Session.Index.{SessionIndex, empty, forget, insert}

-- The session of the id is there, with this deadline.
unfoldable pub expires : ℕ → Option AttestedSession → Bool
expires e none = false
expires e (some s) = s.expires_at == e

abbrev pub Filed : Text → Option AttestedSession → Type 0
Filed id none = Unit {0}
Filed id (some s) = s.session_id ≡ id

pub record IsCoherent (ix : SessionIndex) : Type 0 where
  pub sorted : SortedFrom 0 ix.by_expiry
  -- An id is hinted at its session's deadline and nowhere else, and only if the session is there.
  pub agrees : (id : Text) (e : ℕ) → hinted e id ix.by_expiry ≡ expires e (Dict.get id ix.by_id)
  -- A session is filed under its own id.
  pub filed : (id : Text) → Filed id (Dict.get id ix.by_id)
  pub distinct : Distinct ix.by_id

pub empty-IsCoherent : IsCoherent empty
unfolding empty expires hinted Dict.get
empty-IsCoherent = record { sorted = tt; agrees = λ id e. refl; filed = λ id. tt; distinct = tt }

forget-SortedFrom :
    (id : Text) (d : ℕ) (o : Option AttestedSession) (b : Buckets)
    → SortedFrom 0 b
    → SortedFrom 0 (forget id d o b)
unfolding forget
forget-SortedFrom id d none b s = s
forget-SortedFrom id d (some prev) b s = ground (arith, drop-SortedFrom 0 prev.expires_at id b s)

forget-hinted :
    (e d : ℕ) (q id : Text) (o : Option AttestedSession) (b : Buckets)
    → SortedFrom 0 b
    → hinted e id b ≡ expires e o
    → hinted e q (forget id d o b)
      ≡ (ite (text_discrete id q) (expires e o && d == e) (hinted e q b))
unfolding forget expires
forget-hinted e d q id none b s h = ground arith
forget-hinted e d q id (some prev) b s h = ground (arith, hinted-drop 0 e prev.expires_at q id b s)

module _ (ix : SessionIndex) (v : IsCoherent ix) (s : AttestedSession) where
  insert-agrees :
      (id : Text) (e : ℕ)
      → hinted e id (insert ix s).by_expiry ≡ expires e (Dict.get id (insert ix s).by_id)
  unfolding insert expires
  insert-agrees id e =
      let old = Dict.get s.session_id ix.by_id in
      ground (
        arith,
        hinted-hint e s.expires_at id s.session_id
            (forget s.session_id s.expires_at old ix.by_expiry),
        forget-hinted e s.expires_at id s.session_id old ix.by_expiry v.sorted
            (v.agrees s.session_id e),
        get-insert id s.session_id s ix.by_id,
        v.agrees id e,
      )

  pub insert-IsCoherent : IsCoherent (insert ix s)
  unfolding insert
  insert-IsCoherent = record {
    sorted =
        hint-SortedFrom 0 _ _ _ (omega arith)
          (forget-SortedFrom _ _ (Dict.get s.session_id ix.by_id) ix.by_expiry v.sorted);
    agrees = insert-agrees;
    filed = λ id. ground (arith, get-insert id s.session_id s ix.by_id, v.filed id);
    distinct = insert-Distinct s.session_id s ix.by_id v.distinct;
  }

  module _ (id : Text) where
    unfoldable pub dropped : SessionIndex
    dropped = record {
      by_id = Dict.remove id ix.by_id;
      by_expiry = drop_expiry_hint id s.expires_at ix.by_expiry;
    }

    unfoldable pub moved : ℕ → SessionIndex
    moved e = record {
      by_id = Dict.adjust id (λ t. record t { expires_at = e }) ix.by_id;
      by_expiry = hint id e (drop_expiry_hint id s.expires_at ix.by_expiry);
    }

    pub dropped-IsCoherent : Dict.get id ix.by_id ≡ some s → IsCoherent dropped
    unfolding dropped expires
    dropped-IsCoherent h = record {
      sorted = drop-SortedFrom 0 s.expires_at id ix.by_expiry v.sorted;
      agrees = λ q e. ground (
        arith,
        hinted-drop 0 e s.expires_at q id ix.by_expiry v.sorted,
        get-remove q id ix.by_id,
        v.agrees q e,
        v.agrees id e,
      );
      filed = λ q. ground (arith, get-remove q id ix.by_id, v.filed q);
      distinct = remove-Distinct id ix.by_id v.distinct;
    }

    pub moved-IsCoherent : (e : ℕ) → Dict.get id ix.by_id ≡ some s → IsCoherent (moved e)
    unfolding moved expires
    moved-IsCoherent d h = record {
      sorted =
          hint-SortedFrom 0 d id _ (omega arith)
            (drop-SortedFrom 0 s.expires_at id ix.by_expiry v.sorted);
      agrees = λ q e. ground (
        arith,
        hinted-hint e d q id (drop_expiry_hint id s.expires_at ix.by_expiry),
        hinted-drop 0 e s.expires_at q id ix.by_expiry v.sorted,
        get-adjust q id (λ t. record t { expires_at = d }) ix.by_id,
        v.agrees q e,
        v.agrees id e,
      );
      filed = λ q.
          ground (arith, get-adjust q id (λ t. record t { expires_at = d }) ix.by_id, v.filed q);
      distinct = adjust-Distinct id _ ix.by_id v.distinct;
    }
