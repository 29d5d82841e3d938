-- ===== src/Canonical/Units.antt =====
-- The comparison of lists of numbers by their first difference is a total order.
use phala_llm_router.Base.{ℕ, List, [], ◌∷◌, ◌≡◌, refl, arith, ◌≢◌}
use phala_llm_router.Canonical.{Order, less, equal, greater, units_compare}

unfoldable pub flip : Order → Order
flip less = greater
flip equal = equal
flip greater = less

pub units_compare_self : (a : List ℕ) → units_compare a a ≡ equal
unfolding units_compare
units_compare_self [] = refl
units_compare_self (x ∷ a) = ground (arith, units_compare_self a)

pub units_compare-flip : (a b : List ℕ) → units_compare b a ≡ flip (units_compare a b)
unfolding units_compare flip
units_compare-flip [] [] = refl
units_compare-flip [] (y ∷ b) = refl
units_compare-flip (x ∷ a) [] = refl
units_compare-flip (x ∷ a) (y ∷ b) = ground (arith, units_compare-flip a b)

pub units_compare-equal : (a b : List ℕ) → units_compare a b ≡ equal → a ≡ b
unfolding units_compare
units_compare-equal [] [] h = refl
units_compare-equal [] (y ∷ b) h = absurd (cc h)
units_compare-equal (x ∷ a) [] h = absurd (cc h)
units_compare-equal (x ∷ a) (y ∷ b) h = ground (arith, units_compare-equal a b)

-- Not after `b`, which is not after `c`.
pub units_compare_trans :
    (a b c : List ℕ)
    → units_compare a b ≢ greater
    → units_compare b c ≢ greater
    → units_compare a c ≢ greater
unfolding units_compare
units_compare_trans [] b [] h k = λ e. cc e
units_compare_trans [] b (z ∷ c) h k = λ e. cc e
units_compare_trans (x ∷ a) [] c h k = absurd (h refl)
units_compare_trans (x ∷ a) (y ∷ b) [] h k = absurd (k refl)
units_compare_trans (x ∷ a) (y ∷ b) (z ∷ c) h k = ground (arith, units_compare_trans a b c)

pub units_compare-less_trans :
    (a b c : List ℕ)
    → units_compare a b ≡ less
    → units_compare b c ≡ less
    → units_compare a c ≡ less
unfolding units_compare
units_compare-less_trans [] [] c h k = absurd (cc h)
units_compare-less_trans [] (y ∷ b) [] h k = absurd (cc k)
units_compare-less_trans [] (y ∷ b) (z ∷ c) h k = refl
units_compare-less_trans (x ∷ a) [] c h k = absurd (cc h)
units_compare-less_trans (x ∷ a) (y ∷ b) [] h k = absurd (cc k)
units_compare-less_trans (x ∷ a) (y ∷ b) (z ∷ c) h k =
    ground (arith, units_compare-less_trans a b c)
