-- ===== src/Dict/Keys.antt =====
-- The keys of a dictionary stay distinct, so that its values are what `get` finds.
use phala_llm_router.Base.{
  Text, List, [], ◌∷◌, none, ◌≡◌, refl, text_discrete, arith, if_pos, if_neg,
}
use phala_llm_router.Dict.{
  Dict, get, insert, remove, adjust, remove_all, get-insert, get-remove, get-adjust,
}

module _ {ℓ} {V : Type ℓ} where
  abbrev pub Distinct : Dict V → Type ℓ
  Distinct [] = Unit
  Distinct ((k, v) ∷ m) = (get k m ≡ none) × Distinct m

  pub insert-Distinct : (k : Text) (v : V) (m : Dict V) → Distinct m → Distinct (insert k v m)
  unfolding insert get
  insert-Distinct k v [] d = (refl, tt)
  insert-Distinct k v ((j, w) ∷ m) d = elim (text_discrete j k) [
    | yes p ↦ rw (if_pos _ p) d
    | no p ↦ rw (if_neg _ p) (ground (arith, get-insert j k v m), insert-Distinct k v m d.1)
  ]

  pub remove-Distinct : (k : Text) (m : Dict V) → Distinct m → Distinct (remove k m)
  unfolding remove
  remove-Distinct k [] d = tt
  remove-Distinct k ((j, w) ∷ m) d = elim (text_discrete j k) [
    | yes p ↦ rw (if_pos _ p) (remove-Distinct k m d.1)
    | no p ↦ rw (if_neg _ p) (ground (arith, get-remove j k m), remove-Distinct k m d.1)
  ]

  pub adjust-Distinct : (k : Text) (f : V → V) (m : Dict V) → Distinct m → Distinct (adjust k f m)
  unfolding adjust
  adjust-Distinct k f [] d = tt
  adjust-Distinct k f ((j, w) ∷ m) d = elim (text_discrete j k) [
    | yes p ↦ rw (if_pos _ p) d
    | no p ↦ rw (if_neg _ p) (ground (arith, get-adjust j k f m), adjust-Distinct k f m d.1)
  ]

  pub remove_all-Distinct : (ks : List Text) (m : Dict V) → Distinct m → Distinct (remove_all ks m)
  unfolding remove_all
  remove_all-Distinct [] m d = d
  remove_all-Distinct (k ∷ ks) m d = remove_all-Distinct ks (remove k m) (remove-Distinct k m d)
