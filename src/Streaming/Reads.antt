-- ===== src/Streaming/Reads.antt =====
-- The functions on `str` and `Value` that middleware/stream_transform.rs reads a chunk with.
use phala_llm_router.Base.{Bool, ◌||◌, [], ◌∷◌, Option, none, some, Text, text_eq, if◌then◌else◌}
use phala_llm_router.Json.{Value, get_key, as_str}
use phala_llm_router.Streaming.Int64.{ℤ, pos, eqz, as_i64, or_zero}
use phala_llm_router.Upstream.{is_whitespace}
use phala_llm_router.Upstream.Prepare.{and_then}

-- `str::trim`
unfoldable pub trim_start : Text → Text
unfolding is_whitespace
trim_start [] = []
trim_start (c ∷ s) = let rest = trim_start s in if is_whitespace c then rest else c ∷ s

unfoldable pub trim_end : Text → Text
unfolding is_whitespace
trim_end [] = []
trim_end (c ∷ s) = elim (trim_end s) [
  | [] ↦ if is_whitespace c then [] else c ∷ []
  | d ∷ rest ↦ c ∷ d ∷ rest
]

-- `payload.strip_prefix(prefix)`
unfoldable pub strip_prefix : Text → Text → Option Text
strip_prefix [] s = some s
strip_prefix (c ∷ p) [] = none
strip_prefix (c ∷ p) (d ∷ s) =
    let rest = strip_prefix p s in if text_eq (c ∷ []) (d ∷ []) then rest else none

unfoldable pub ends_with : Text → Text → Bool
unfolding text_eq
ends_with suffix [] = text_eq suffix []
ends_with suffix (c ∷ s) = let rest = ends_with suffix s in text_eq suffix (c ∷ s) || rest

-- `filter(|s| !s.is_empty())`
abbrev pub filled : Option Text → Option Text
filled none = none
filled (some []) = none
filled (some (c ∷ s)) = some (c ∷ s)

abbrev pub or_else : Option Text → Option Text → Option Text
or_else none o = o
or_else (some s) o = some s

abbrev pub text_at : Text → Value → Option Text
text_at k v = and_then (get_key k v) as_str

unfoldable pub i64_field : Value → Text → ℤ
unfolding as_i64 get_key
i64_field v k = or_zero (and_then (get_key k v) as_i64)

abbrev pub non_zero : ℤ → ℤ → ℤ
non_zero z other = if eqz z (pos 0) then other else z
