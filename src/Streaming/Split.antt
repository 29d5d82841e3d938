-- ===== src/Streaming/Split.antt =====
-- The first delimiter of a buffer, and the bytes around it, when more bytes are behind it.
use phala_llm_router.Base.{
  ◌⊎◌, ℕ, zero, suc, ◌+◌, ◌≤◌, ◌==◌, Bool, true, false, ◌&&◌, [], ◌∷◌, ◌++◌, Option, none, some,
  length, if◌then◌else◌, ◌≡◌, refl, ap, ◌∙◌, arith, inl, inr,
}
use phala_llm_router.Base.Lists.{drop_first}
use phala_llm_router.Canonical.{Bytes}
use phala_llm_router.Streaming.{starts_with, and_one, find_subslice}

starts_with-append :
    (p s x : Bytes) → length p ≤ length s → starts_with p (s ++ x) ≡ starts_with p s
unfolding starts_with
starts_with-append [] s x h = refl
starts_with-append (c ∷ p) [] x h = absurd (omega arith)
starts_with-append (c ∷ p) (d ∷ s) x h =
    ap (λ r. c == d && r) (starts_with-append p s x (omega arith))

starts_with-length : (p s : Bytes) → starts_with p s ≡ true → length p ≤ length s
unfolding starts_with
starts_with-length [] s h = omega arith
starts_with-length (c ∷ p) [] h = absurd (cc h)
starts_with-length (c ∷ p) (d ∷ s) h =
    let r : starts_with p s ≡ true = ground arith in omega (arith, starts_with-length p s r)

-- What the first of a buffer decides of its first delimiter.
find_by :
    (t : Bool) (o : Option ℕ) (pos : ℕ)
    → (if t then some 0 else and_one o) ≡ some pos
    → ((t ≡ true) × (pos ≡ 0)) ⊎ ((t ≡ false) × ((n : ℕ) × (o ≡ some n) × (pos ≡ suc n)))
find_by true o pos h = inl (refl, cc h)
find_by false none pos h = absurd (cc h)
find_by false (some n) pos h = inr (refl, (n, refl, cc h))

pub find_subslice-length :
    (s needle : Bytes) (pos : ℕ)
    → find_subslice s needle ≡ some pos
    → pos + length needle ≤ length s
unfolding find_subslice
find_subslice-length [] needle pos h = absurd (cc h)
find_subslice-length (c ∷ s) needle pos h =
    elim (find_by (starts_with needle (c ∷ s)) (find_subslice s needle) pos h) [
      | inl (t, e) ↦ omega (arith, starts_with-length needle (c ∷ s) t)
      | inr (t, (n, f, e)) ↦ omega (arith, find_subslice-length s needle n f)
    ]

-- The first delimiter stays the first when more bytes come.
pub find_subslice-append :
    (s needle x : Bytes) (pos : ℕ)
    → find_subslice s needle ≡ some pos
    → find_subslice (s ++ x) needle ≡ some pos
unfolding find_subslice
find_subslice-append [] needle x pos h = absurd (cc h)
find_subslice-append (c ∷ s) needle x pos h =
    elim (find_by (starts_with needle (c ∷ s)) (find_subslice s needle) pos h) [
      | inl (t, e) ↦
          let more = starts_with-append needle (c ∷ s) x (starts_with-length needle (c ∷ s) t) in
          rw (more ∙ t, e) refl
      | inr (t, (n, f, e)) ↦
          let bound = find_subslice-length s needle n f in
          let more = starts_with-append needle (c ∷ s) x (omega arith) in
          rw (more ∙ t, find_subslice-append s needle x n f, e) refl
    ]

pub drop_first-append :
    (k : ℕ) (s x : Bytes) → k ≤ length s → drop_first k (s ++ x) ≡ (drop_first k s ++ x)
drop_first-append zero s x h = refl
drop_first-append (suc k) [] x h = absurd (omega arith)
drop_first-append (suc k) (c ∷ s) x h = drop_first-append k s x (omega arith)

pub length-drop_first : (k : ℕ) (s : Bytes) → k ≤ length s → length (drop_first k s) + k ≡ length s
length-drop_first zero s h = omega arith
length-drop_first (suc k) [] h = absurd (omega arith)
length-drop_first (suc k) (c ∷ s) h = omega (arith, length-drop_first k s (omega arith))
