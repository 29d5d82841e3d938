-- ===== src/Number.antt =====
-- Decimal text of an integer, as `to_string` of Rust's integers and of `serde_json::Number` prints it.
use phala_llm_router.Base.{
  ℕ, zero, suc, ◌+◌, ◌/◌, ◌%◌, ◌==◌, [], ◌∷◌, Text, if◌then◌else◌, ◌≡◌, refl, codes,
}
use phala_llm_router.Json.{Number, pos_int, neg_int, float}

-- The first argument bounds the digits that are left; `n` itself is enough.
emit : ℕ → ℕ → Text → Text
emit zero n out = out
emit (suc f) n out =
    let rest = emit f (n / 10) ((48 + n % 10) ∷ out) in if n == 0 then out else rest

unfoldable pub decimal : ℕ → Text
unfolding emit
decimal n = if n == 0 then 48 ∷ [] else emit n n []

unfoldable pub signed_decimal : ℕ → Text
unfolding decimal
signed_decimal n = 45 ∷ decimal (n + 1)

-- `Number::to_string`
unfoldable pub number_text : Number → Text
unfolding decimal signed_decimal
number_text (pos_int n) = decimal n
number_text (neg_int n) = signed_decimal n
number_text (float t) = t

decimal_max : decimal (18446744073709551615) ≡ codes "18446744073709551615"
unfolding decimal
decimal_max = refl
