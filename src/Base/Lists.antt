-- ===== src/Base/Lists.antt =====
-- The ends of a list, with lengths over the native ℕ.
use mathlib.Core.List.{reverse, reverse-append}
use phala_llm_router.Base.{
  ℕ, zero, suc, ◌-◌, ◌≤◌, List, [], ◌∷◌, ◌++◌, ◌≡◌, refl, sym, ap, ◌∙◌, arith, length,
  length-append, ◌⊎◌, inl, inr, dec_le,
}

module _ {ℓ} {A : Type ℓ} where
  unfoldable pub take : ℕ → List A → List A
  take zero s = []
  take (suc n) [] = []
  take (suc n) (c ∷ s) = c ∷ take n s

  abbrev pub drop_first : ℕ → List A → List A
  drop_first zero xs = xs
  drop_first (suc n) [] = []
  drop_first (suc n) (x ∷ xs) = drop_first n xs

  pub take_all : (n : ℕ) (x : List A) → length x ≤ n → take n x ≡ x
  unfolding take
  take_all zero [] h = refl
  take_all zero (c ∷ x) h = absurd (omega arith)
  take_all (suc n) [] h = refl
  take_all (suc n) (c ∷ x) h = ap (◌∷◌ c) (take_all n x (omega arith))

  pub take-append : (n : ℕ) (x y : List A) → n ≤ length x → take n (x ++ y) ≡ take n x
  unfolding take
  take-append zero [] [] h = refl
  take-append zero [] (c ∷ y) h = refl
  take-append zero (c ∷ x) y h = refl
  take-append (suc n) [] y h = absurd (omega arith)
  take-append (suc n) (c ∷ x) y h = ap (◌∷◌ c) (take-append n x y (omega arith))

  pub length-take : (n : ℕ) (x : List A) → length (take n x) ≤ n
  unfolding take
  length-take zero x = omega arith
  length-take (suc n) [] = omega arith
  length-take (suc n) (c ∷ x) = omega (arith, length-take n x)

  pub length-reverse : (x : List A) → length (reverse x) ≡ length x
  length-reverse [] = refl
  length-reverse (c ∷ x) =
      ap length (reverse-append (c ∷ []) x)
      ∙ omega (arith, length-append (reverse x) (c ∷ []), length-reverse x)

  drop_first_nil : (k : ℕ) → drop_first k [] ≡ []
  drop_first_nil zero = refl
  drop_first_nil (suc k) = refl

  -- To drop the first elements beyond `n` is to keep the last `n`.
  pub drop_first-take :
      (n : ℕ) (x : List A) → reverse (drop_first (length x - n) x) ≡ take n (reverse x)
  unfolding take
  drop_first-take zero [] = refl
  drop_first-take (suc n) [] = ap reverse (drop_first_nil (0 - suc n))
  drop_first-take n (c ∷ x) = elim (excess n (length x)) [
    | inl (k, e) ↦
        ap (λ m. reverse (drop_first m (c ∷ x))) e
        ∙ (let p : k ≡ length x - n = omega arith in
            ap (λ m. reverse (drop_first m x)) p
            ∙ drop_first-take n x
            ∙ sym (take-append n (reverse x) (c ∷ []) (omega (arith, length-reverse x)))
            ∙ ap (take n) (sym (reverse-append (c ∷ []) x)))
    | inr e ↦
        ap (λ m. reverse (drop_first m (c ∷ x))) (let q : suc (length x) - n ≡ 0 = omega arith in q)
        ∙ sym (take_all n (reverse (c ∷ x)) (omega (arith, length-reverse (c ∷ x))))
  ]
    where
      excess : (n m : ℕ) → ((k : ℕ) × (suc m - n ≡ suc k)) ⊎ (suc m ≤ n)
      excess n m = elim (dec_le (suc m) n) [ yes p ↦ inr p | no p ↦ inl (m - n, omega arith) ]
