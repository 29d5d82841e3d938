-- ===== src/Router/CommonPrefix.antt =====
-- `common_prefix_chars` counts the longest common prefix of two texts.
use phala_llm_router.Base.{
  ℕ, zero, suc, ◌≤◌, ◌==◌, [], ◌∷◌, Text, length, ◌≡◌, refl, arith, Bool-cases, inl, inr,
}
use phala_llm_router.Base.Lists.{take}
use phala_llm_router.Router.Text.{common_prefix_chars}

take-common : (s t : Text) → take (common_prefix_chars s t) s ≡ take (common_prefix_chars s t) t
unfolding common_prefix_chars take
take-common [] [] = refl
take-common [] (d ∷ t) = refl
take-common (c ∷ s) [] = refl
take-common (c ∷ s) (d ∷ t) = elim (Bool-cases (c == d)) [
  | inl e ↦ rw (e, common_prefix_chars) (let p : c ≡ d = ground arith in cc (p, take-common s t))
  | inr e ↦ rw (e, common_prefix_chars) refl
]

longest_common :
    (n : ℕ) (s t : Text)
    → n ≤ length s
    → n ≤ length t
    → take n s ≡ take n t
    → n ≤ common_prefix_chars s t
unfolding common_prefix_chars take
longest_common zero s t a b h = omega arith
longest_common (suc n) [] t a b h = absurd (omega arith)
longest_common (suc n) (c ∷ s) [] a b h = absurd (omega arith)
longest_common (suc n) (c ∷ s) (d ∷ t) a b h =
    let p : c ≡ d = cc h in
    let q : take n s ≡ take n t = cc h in
    ground (arith, longest_common n s t (omega arith) (omega arith) q)

-- The two texts begin with the same characters for as long as `common_prefix_chars` says, and a
-- common beginning of theirs, of any length that both have, is not longer.
pub common_prefix_chars-longest :
    (n : ℕ) (s t : Text)
    → n ≤ length s
    → n ≤ length t
    → take n s ≡ take n t
    → (take (common_prefix_chars s t) s ≡ take (common_prefix_chars s t) t)
      × (n ≤ common_prefix_chars s t)
common_prefix_chars-longest n s t a b h = (take-common s t, longest_common n s t a b h)
