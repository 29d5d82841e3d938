-- ===== src/Json.antt =====
-- `serde_json::Value`, built with the feature `preserve_order`: an object is its list of fields, in
-- the order of their insertion. A float is the text that `serde_json` prints for it.
pub mod Alike
use phala_llm_router.Base.{
  ℕ, Bool, true, false, List, [], ◌∷◌, Option, none, some, Text, ite, text_discrete, ◌≡◌, refl, ◌∙◌,
  arith,
}

pub data Number : Type 0 where
  pos_int : ℕ → Number
  -- `neg_int n` is -(n + 1).
  neg_int : ℕ → Number
  float : Text → Number

mutual
  pub data Value : Type 0 where
    null : Value
    bool : Bool → Value
    number : Number → Value
    string : Text → Value
    array : Items → Value
    object : Fields → Value

  pub data Items : Type 0 where
    nil : Items
    cons : Value → Items → Items

  pub data Fields : Type 0 where
    end : Fields
    field : Text → Value → Fields → Fields

-- `Map::get`
unfoldable pub get_field : Text → Fields → Option Value
get_field k end = none
get_field k (field j v fs) = ite (text_discrete j k) (some v) (get_field k fs)

-- `Value::get` with a key
unfoldable pub get_key : Text → Value → Option Value
unfolding get_field
get_key k (object fs) = get_field k fs
get_key k v = none

-- `Value::as_str`
unfoldable pub as_str : Value → Option Text
as_str (string s) = some s
as_str v = none

-- `Map::insert`: a key that is there keeps its place and gets the new value.
unfoldable pub insert_field : Text → Value → Fields → Fields
insert_field k v end = field k v end
insert_field k v (field j w fs) =
    ite (text_discrete j k) (field j v fs) (field j w (insert_field k v fs))

-- The fields of `from` inserted into a map, one after the other.
unfoldable pub extend : Fields → Fields → Fields
unfolding insert_field
extend end m = m
extend (field k v from) m = extend from (insert_field k v m)

-- `Map::contains_key`
unfoldable pub has_key : Text → Fields → Bool
has_key k end = false
has_key k (field j v fs) = let rest = has_key k fs in ite (text_discrete j k) true rest

-- `Value::as_object`, the fields of any other value being none.
abbrev pub fields_of : Value → Fields
fields_of (object fs) = fs
fields_of v = end

-- A list of values as an array's items.
abbrev pub items : List Value → Items
items [] = nil
items (v ∷ vs) = cons v (items vs)

-- `null` for `None`
abbrev pub text_or_null : Option Text → Value
text_or_null none = null
text_or_null (some s) = string s

abbrev pub natural : ℕ → Value
natural n = number (pos_int n)

pub get_field-insert :
    (q k : Text) (v : Value) (fs : Fields)
    → get_field q (insert_field k v fs) ≡ ite (text_discrete k q) (some v) (get_field q fs)
unfolding get_field insert_field
get_field-insert q k v end = refl
get_field-insert q k v (field j w fs) = ground (arith, get_field-insert q k v fs)

-- A key that the inserted fields do not have keeps its value.
pub get_field-extend :
    (q : Text) (from fs : Fields)
    → has_key q from ≡ false
    → get_field q (extend from fs) ≡ get_field q fs
unfolding extend has_key
get_field-extend q end fs h = refl
get_field-extend q (field k v from) fs h =
    get_field-extend q from (insert_field k v fs) (ground arith)
    ∙ ground (arith, get_field-insert q k v fs)
