-- ===== src/Canonical.antt =====
-- aci/canonical.rs: canonical JSON bytes. A text is its code points and the output is bytes; SHA-256
-- with the hex text of its digest is a parameter where a digest is taken. `NonStringKey` cannot arise.
pub mod Units
use phala_llm_router.Base.{
  ℕ, ◌+◌, ◌-◌, ◌/◌, ◌%◌, ◌==◌, ltb, true, false, List, [], ◌∷◌, ◌++◌, Text, codes, if◌then◌else◌,
  ◌≡◌, refl,
}
use phala_llm_router.Json.{
  Value, Items, Fields, Number, null, bool, number, string, array, object, nil, cons, end, field,
  pos_int, neg_int, float,
}
use phala_llm_router.Number.{decimal, signed_decimal}

abbrev pub Bytes : Type 0
Bytes = List ℕ

-- `char::encode_utf8`
utf8 : ℕ → Bytes
utf8 c =
    if ltb c 0x80
    then c ∷ []
    else if ltb c 0x800
    then (0xc0 + c / 64) ∷ (0x80 + c % 64) ∷ []
    else if ltb c 0x10000
    then (0xe0 + c / 4096) ∷ (0x80 + c / 64 % 64) ∷ (0x80 + c % 64) ∷ []
    else (0xf0 + c / 262144) ∷ (0x80 + c / 4096 % 64) ∷ (0x80 + c / 64 % 64) ∷ (0x80 + c % 64) ∷ []

-- `str::encode_utf16`
unfoldable pub utf16 : Text → List ℕ
utf16 [] = []
utf16 (c ∷ s) =
    if ltb c 0x10000
    then c ∷ utf16 s
    else (0xd800 + (c - 0x10000) / 1024) ∷ (0xdc00 + (c - 0x10000) % 1024) ∷ utf16 s

pub data Order : Type 0 where
  less equal greater : Order

-- The loop of `utf16_compare` over the two iterators.
unfoldable pub units_compare : List ℕ → List ℕ → Order
units_compare [] [] = equal
units_compare [] (y ∷ ys) = less
units_compare (x ∷ xs) [] = greater
units_compare (x ∷ xs) (y ∷ ys) =
    let rest = units_compare xs ys in if x == y then rest else if ltb x y then less else greater

unfoldable pub utf16_compare : Text → Text → Order
unfolding utf16 units_compare
utf16_compare a b = units_compare (utf16 a) (utf16 b)

hex_digit : ℕ → ℕ
hex_digit d = if ltb d 10 then 48 + d else 87 + d

write_char : ℕ → Bytes
unfolding hex_digit utf8
write_char c =
    if c == b'"'
    then codes "\\\""
    else if c == b'\\'
    then codes "\\\\"
    else if c == 8
    then codes "\\b"
    else if c == 9
    then codes "\\t"
    else if c == 10
    then codes "\\n"
    else if c == 12
    then codes "\\f"
    else if c == 13
    then codes "\\r"
    else if ltb c 32
    then codes "\\u00" ++ hex_digit (c / 16) ∷ hex_digit (c % 16) ∷ []
    else utf8 c

write_chars : Text → Bytes
unfolding write_char
write_chars [] = []
write_chars (c ∷ s) = write_char c ++ write_chars s

write_string : Text → Bytes
unfolding write_chars
write_string s = b'"' ∷ (write_chars s ++ b'"' ∷ [])

pub data CanonicalError : Type 0 where
  float_not_allowed non_string_key serialize : CanonicalError

pub data Result {ℓ} (A : Type ℓ) : Type ℓ where
  ok : A → Result A
  err : CanonicalError → Result A

infixl 5 ◌>>=◌
abbrev pub ◌>>=◌ {ℓ κ} : {A : Type ℓ} {B : Type κ} → Result A → (A → Result B) → Result B
ok a >>= f = f a
err e >>= f = err e

write_number : Number → Result Bytes
unfolding decimal signed_decimal
write_number (pos_int n) = ok (decimal n)
write_number (neg_int n) = ok (signed_decimal n)
write_number (float t) = err float_not_allowed

-- A key with what its value is written as.
abbrev pub Entry : Type 0
Entry = Text × Result Bytes

-- `keys.sort_by(|a, b| utf16_compare(a, b))`, a stable sort, by insertion.
unfoldable pub insert_entry : Entry → List Entry → List Entry
insert_entry e [] = e ∷ []
insert_entry e (f ∷ l) =
    let later = f ∷ insert_entry e l in
    elim (utf16_compare e.0 f.0) [ greater ↦ later | _ ↦ e ∷ f ∷ l ]

unfoldable pub sort_entries : List Entry → List Entry
unfolding insert_entry
sort_entries [] = []
sort_entries (e ∷ l) = insert_entry e (sort_entries l)

-- `"key":value`, with a comma before every entry but the first.
write_rest : List Entry → Result Bytes
unfolding write_string
write_rest [] = ok []
write_rest ((k, written) ∷ l) = do
  v ← written
  rest ← write_rest l
  ok (b',' ∷ (write_string k ++ b':' ∷ (v ++ rest)))

unfoldable pub write_entries : List Entry → Result Bytes
unfolding write_rest
write_entries [] = ok (codes "{}")
write_entries ((k, written) ∷ l) = do
  v ← written
  rest ← write_rest l
  ok (b'{' ∷ (write_string k ++ b':' ∷ (v ++ rest ++ codes "}")))

-- `write_value`, `write_object` and the loop over an array's items. The value of each field is
-- written before the keys are sorted; an error in one is the error of the whole either way.
unfoldable mutual
  unfolding write_number write_string sort_entries write_entries

  pub write_value : Value → Result Bytes
  write_value null = ok (codes "null")
  write_value (bool true) = ok (codes "true")
  write_value (bool false) = ok (codes "false")
  write_value (number n) = write_number n
  write_value (string s) = ok (write_string s)
  write_value (array items) = do out ← write_items items; ok (b'[' ∷ out)
  write_value (object fs) = write_entries (sort_entries (write_fields fs))

  -- The items and the closing bracket.
  pub write_items : Items → Result Bytes
  write_items nil = ok (codes "]")
  write_items (cons v vs) = do first ← write_value v; rest ← write_items_rest vs; ok (first ++ rest)

  pub write_items_rest : Items → Result Bytes
  write_items_rest nil = ok (codes "]")
  write_items_rest (cons v vs) = do
    item ← write_value v
    rest ← write_items_rest vs
    ok (b',' ∷ (item ++ rest))

  pub write_fields : Fields → List Entry
  write_fields end = []
  write_fields (field k v fs) = (k, write_value v) ∷ write_fields fs

unfoldable pub canonicalize : Value → Result Bytes
unfolding write_value
canonicalize v = write_value v

-- `jcs_sha256_hex`; the argument is the lower-case hex text of the SHA-256 digest of some bytes.
unfoldable pub jcs_sha256_hex : (Bytes → Text) → Value → Result Text
unfolding canonicalize utf16_compare
jcs_sha256_hex sha256 v = do bytes ← canonicalize v; ok (codes "sha256:" ++ sha256 bytes)

-- `sha256_hex`
unfoldable pub sha256_hex : (Bytes → Text) → Bytes → Text
sha256_hex sha256 payload = codes "sha256:" ++ sha256 payload

canonicalize_test :
    canonicalize (
      object (
        field
          (codes "b")
          (number (neg_int 4))
          (field (codes "a") (array (cons (bool true) (cons null nil))) end)))
    ≡ ok (codes "{\"a\":[true,null],\"b\":-5}")
unfolding canonicalize utf16_compare
canonicalize_test = refl
