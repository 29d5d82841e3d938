-- ===== src/Dict.antt =====
-- `HashMap<String, V>` and `HashSet<String>` of Rust's standard library, as the program uses them:
-- association lists and lists of distinct texts. Iteration follows the list.
pub mod Keys
use phala_llm_router.Base.{
  ◌≡◌, refl, Bool, true, false, List, [], ◌∷◌, map, Option, none, some, ite, arith, Text,
  text_discrete, if◌then◌else◌,
}

abbrev pub Dict {ℓ} : Type ℓ → Type ℓ
Dict V = List (Text × V)

module _ {ℓ} {V : Type ℓ} where
  -- `get`
  unfoldable pub get : Text → Dict V → Option V
  get k [] = none
  get k (e ∷ m) = ite (text_discrete e.0 k) (some e.1) (get k m)

  -- `insert`, the replaced value aside
  unfoldable pub insert : Text → V → Dict V → Dict V
  insert k v [] = (k, v) ∷ []
  insert k v (e ∷ m) = ite (text_discrete e.0 k) ((e.0, v) ∷ m) (e ∷ insert k v m)

  -- `remove`
  unfoldable pub remove : Text → Dict V → Dict V
  remove k [] = []
  remove k (e ∷ m) = let rest = remove k m in ite (text_discrete e.0 k) rest (e ∷ rest)

  -- `retain`
  unfoldable pub retain : (Text → Bool) → Dict V → Dict V
  retain p [] = []
  retain p (e ∷ m) = let rest = retain p m in if p e.0 then e ∷ rest else rest

  -- `get_mut`, written through
  unfoldable pub adjust : Text → (V → V) → Dict V → Dict V
  adjust k f [] = []
  adjust k f (e ∷ m) = ite (text_discrete e.0 k) ((e.0, f e.1) ∷ m) (e ∷ adjust k f m)

  abbrev pub values : Dict V → List V
  values = map (λ e. e.1)

  pub get-insert :
      (q k : Text) (v : V) (m : Dict V)
      → get q (insert k v m) ≡ ite (text_discrete k q) (some v) (get q m)
  unfolding get insert
  get-insert q k v [] = refl
  get-insert q k v (e ∷ m) = ground (arith, get-insert q k v m)

  pub get-remove :
      (q k : Text) (m : Dict V) → get q (remove k m) ≡ ite (text_discrete k q) none (get q m)
  unfolding get remove
  get-remove q k [] = ground arith
  get-remove q k (e ∷ m) = ground (arith, get-remove q k m)

  pub get-retain :
      (q : Text) (p : Text → Bool) (m : Dict V)
      → get q (retain p m) ≡ (if p q then get q m else none)
  unfolding get retain
  get-retain q p [] = ground arith
  get-retain q p (e ∷ m) = ground (arith, get-retain q p m)

  pub get-adjust :
      (q k : Text) (f : V → V) (m : Dict V)
      → get q (adjust k f m)
        ≡ ite (text_discrete k q) (elim (get q m) [ none ↦ none | some v ↦ some (f v) ]) (get q m)
  unfolding get adjust
  get-adjust q k f [] = ground arith
  get-adjust q k f (e ∷ m) = ground (arith, get-adjust q k f m)

-- `HashSet::contains`
unfoldable pub contains : Text → List Text → Bool
contains k [] = false
contains k (x ∷ xs) = ite (text_discrete x k) true (contains k xs)

-- `HashSet::insert`
unfoldable pub add : Text → List Text → List Text
add k s = if contains k s then s else k ∷ s

-- `HashSet::remove`
unfoldable pub del : Text → List Text → List Text
del k [] = []
del k (x ∷ xs) = let rest = del k xs in ite (text_discrete x k) rest (x ∷ rest)

pub contains-add :
    (q k : Text) (s : List Text)
    → contains q (add k s) ≡ (ite (text_discrete k q) true (contains q s))
unfolding contains add
contains-add q k s = ground arith

pub contains-del :
    (q k : Text) (s : List Text)
    → contains q (del k s) ≡ (ite (text_discrete k q) false (contains q s))
unfolding contains del
contains-del q k [] = ground arith
contains-del q k (x ∷ s) = ground (arith, contains-del q k s)

module _ {ℓ} {V : Type ℓ} where
  -- The loop `for id in ids { m.remove(&id); }`.
  unfoldable pub remove_all : List Text → Dict V → Dict V
  remove_all [] m = m
  remove_all (k ∷ ks) m = remove_all ks (remove k m)

  pub get-remove_all :
      (q : Text) (ks : List Text) (m : Dict V)
      → get q (remove_all ks m) ≡ (if contains q ks then none else get q m)
  unfolding remove_all contains
  get-remove_all q [] m = refl
  get-remove_all q (k ∷ ks) m = ground (arith, get-remove_all q ks (remove k m), get-remove q k m)
