-- ===== src/Expiry/Laws.antt =====
-- What the bucket operations do to the question whether an id is hinted at a deadline.
use phala_llm_router.Base.{
  ℕ, suc, ◌≤◌, ◌<◌, ◌==◌, true, false, ◌&&◌, ◌||◌, not, List, [], ◌∷◌, Text, ite, text_discrete,
  arith, ◌≡◌, refl,
}
use phala_llm_router.Dict.{contains, del, contains-add, contains-del}
use phala_llm_router.Expiry.{Buckets, is_empty, hint, drop_expiry_hint, hinted, SortedFrom}

pub hinted-hint :
    (e d : ℕ) (q id : Text) (b : Buckets)
    → hinted e q (hint id d b) ≡ (ite (text_discrete id q) (d == e) false || hinted e q b)
unfolding hinted hint contains
hinted-hint e d q id [] = ground arith
hinted-hint e d q id ((c, ids) ∷ b) = ground (arith, hinted-hint e d q id b, contains-add q id ids)

pub hint-SortedFrom :
    (n d : ℕ) (id : Text) (b : Buckets) → n ≤ d → SortedFrom n b → SortedFrom n (hint id d b)
unfolding hint
hint-SortedFrom n d id [] h s = ground arith
hint-SortedFrom n d id ((c, ids) ∷ b) h s = ground (arith, hint-SortedFrom (suc c) d id b)

-- Below the first deadline there is nothing.
pub hinted-below :
    (n e : ℕ) (q : Text) (b : Buckets) → SortedFrom n b → e < n → hinted e q b ≡ false
unfolding hinted
hinted-below n e q [] s h = refl
hinted-below n e q ((c, ids) ∷ b) s h = ground (arith, hinted-below (suc c) e q b)

contains_of_empty : (q : Text) (ids : List Text) → is_empty ids ≡ true → contains q ids ≡ false
unfolding contains
contains_of_empty q [] h = refl
contains_of_empty q (x ∷ xs) h = cc

pub hinted-drop :
    (n e d : ℕ) (q id : Text) (b : Buckets)
    → SortedFrom n b
    → hinted e q (drop_expiry_hint id d b)
      ≡ (ite (text_discrete id q) (not (d == e)) true && hinted e q b)
unfolding hinted drop_expiry_hint
hinted-drop n e d q id [] s = ground arith
hinted-drop n e d q id ((c, ids) ∷ b) s = ground (
  arith,
  hinted-drop (suc c) e d q id b,
  contains-del q id ids,
  contains_of_empty q (del id ids),
  hinted-below (suc c) e q b,
)

pub SortedFrom-weaken : (n m : ℕ) (b : Buckets) → n ≤ m → SortedFrom m b → SortedFrom n b
SortedFrom-weaken n m [] h s = tt
SortedFrom-weaken n m ((c, ids) ∷ b) h s = ground arith

pub drop-SortedFrom :
    (n d : ℕ) (id : Text) (b : Buckets) → SortedFrom n b → SortedFrom n (drop_expiry_hint id d b)
unfolding drop_expiry_hint
drop-SortedFrom n d id [] s = tt
drop-SortedFrom n d id ((c, ids) ∷ b) s =
    ground (arith, drop-SortedFrom (suc c) d id b, SortedFrom-weaken n (suc c) b)
