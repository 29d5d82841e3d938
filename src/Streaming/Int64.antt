-- ===== src/Streaming/Int64.antt =====
-- `i64`: integers over the native numbers, their sum with its wrap-around, their order, and a
-- `BTreeSet` of them as a list in order.
use phala_llm_router.Base.{
  ℕ, suc, ◌+◌, ◌-◌, ◌%◌, ◌^◌, ◌==◌, ltb, Bool, true, false, ◌||◌, List, [], ◌∷◌, Option, none, some,
  if◌then◌else◌, u64_mod,
}
use phala_llm_router.Json.{Value, number, pos_int, neg_int}

pub data ℤ : Type 0 where
  pos : ℕ → ℤ
  -- `negsuc n` is -(n + 1).
  negsuc : ℕ → ℤ

infixl 60 ◌+ℤ◌
abbrev pub ◌+ℤ◌ : ℤ → ℤ → ℤ
pos a +ℤ pos b = pos (a + b)
negsuc a +ℤ negsuc b = negsuc (suc (a + b))
pos a +ℤ negsuc b = if ltb b a then pos (a - suc b) else negsuc (b - a)
negsuc b +ℤ pos a = if ltb b a then pos (a - suc b) else negsuc (b - a)

-- The value of the low 64 bits.
abbrev pub wrap64 : ℤ → ℤ
wrap64 (pos n) =
    if ltb (n % u64_mod) (2 ^ 63) then pos (n % u64_mod) else negsuc (u64_mod - suc (n % u64_mod))
wrap64 (negsuc n) =
    if ltb (n % u64_mod) (2 ^ 63) then negsuc (n % u64_mod) else pos (u64_mod - suc (n % u64_mod))

abbrev pub eqz : ℤ → ℤ → Bool
eqz (pos a) (pos b) = a == b
eqz (negsuc a) (negsuc b) = a == b
eqz _ _ = false

abbrev pub ltz : ℤ → ℤ → Bool
ltz (pos a) (pos b) = ltb a b
ltz (negsuc a) (negsuc b) = ltb b a
ltz (negsuc a) (pos b) = true
ltz (pos a) (negsuc b) = false

-- `Value::as_i64`
unfoldable pub as_i64 : Value → Option ℤ
as_i64 (number (pos_int n)) = if ltb n (2 ^ 63) then some (pos n) else none
as_i64 (number (neg_int n)) = if ltb n (2 ^ 63) then some (negsuc n) else none
as_i64 v = none

abbrev pub or_zero : Option ℤ → ℤ
or_zero none = pos 0
or_zero (some z) = z

-- `BTreeSet::contains`
unfoldable pub has_index : ℤ → List ℤ → Bool
has_index z [] = false
has_index z (y ∷ ys) = let rest = has_index z ys in eqz z y || rest

-- `BTreeSet::insert`
unfoldable pub insert_index : ℤ → List ℤ → List ℤ
insert_index z [] = z ∷ []
insert_index z (y ∷ ys) =
    let rest = insert_index z ys in
    if eqz z y then y ∷ ys else if ltz z y then z ∷ y ∷ ys else y ∷ rest
