-- ===== src/Json/Alike.antt =====
-- JSON values that differ at most in their floats, as a value and its text read back may.
use phala_llm_router.Base.{
  Option, none, some, Text, text_discrete, ite, ◌≡◌, refl, sym, ap, ◌∙◌, subst,
}
use phala_llm_router.Json.{
  Number, pos_int, neg_int, float, Value, null, bool, number, string, array, object, Items, nil,
  cons, Fields, end, field, get_field, get_key,
}

abbrev pub AlikeNumber : Number → Number → Type 0
AlikeNumber (pos_int m) n = pos_int m ≡ n
AlikeNumber (neg_int m) n = neg_int m ≡ n
AlikeNumber (float s) (float t) = Unit {0}
AlikeNumber (float s) (pos_int n) = ⊥
AlikeNumber (float s) (neg_int n) = ⊥

unfoldable mutual
  pub Alike : Value → Value → Type 0
  Alike null w = null ≡ w
  Alike (bool b) w = bool b ≡ w
  Alike (string s) w = string s ≡ w
  Alike (number m) (number n) = AlikeNumber m n
  Alike (array is) (array js) = AlikeItems is js
  Alike (object fs) (object gs) = AlikeFields fs gs
  Alike _ _ = ⊥

  pub AlikeItems : Items → Items → Type 0
  AlikeItems nil nil = Unit {0}
  AlikeItems (cons v is) (cons w js) = Alike v w × AlikeItems is js
  AlikeItems _ _ = ⊥

  pub AlikeFields : Fields → Fields → Type 0
  AlikeFields end end = Unit {0}
  AlikeFields (field k v fs) (field j w gs) = (k ≡ j) × Alike v w × AlikeFields fs gs
  AlikeFields _ _ = ⊥

abbrev pub AlikeOption : Option Value → Option Value → Type 0
AlikeOption none o = none ≡ o
AlikeOption (some v) o = (w : Value) × (o ≡ some w) × Alike v w

ite-Alike :
    {P : Type 0} (d : Dec P) (v w : Value) (o p : Option Value)
    → Alike v w
    → AlikeOption o p
    → AlikeOption (ite d (some v) o) (ite d (some w) p)
ite-Alike (yes x) v w o p a h = (w, refl, a)
ite-Alike (no x) v w o p a h = h

get_field-Alike :
    (q : Text) (fs gs : Fields) → AlikeFields fs gs → AlikeOption (get_field q fs) (get_field q gs)
unfolding get_field AlikeFields
get_field-Alike q end end h = refl
get_field-Alike q end (field k w gs) h = absurd h
get_field-Alike q (field k v fs) end h = absurd h
get_field-Alike q (field k v fs) (field j w gs) (e, a, h) =
    subst
      (λ x.
        AlikeOption (ite (text_discrete k q) (some v) (get_field q fs))
          (ite (text_discrete x q) (some w) (get_field q gs)))
      e (ite-Alike (text_discrete k q) v w _ _ a (get_field-Alike q fs gs h))

-- A key of two alike objects has alike values.
pub get_key-Alike :
    (q : Text) (fs : Fields) (w : Value)
    → Alike (object fs) w
    → AlikeOption (get_field q fs) (get_key q w)
unfolding get_key Alike
get_key-Alike q fs (object gs) h = get_field-Alike q fs gs h
get_key-Alike q fs null h = absurd h
get_key-Alike q fs (bool b) h = absurd h
get_key-Alike q fs (number n) h = absurd h
get_key-Alike q fs (string t) h = absurd h
get_key-Alike q fs (array is) h = absurd h

-- A text is alike only to itself.
pub string-Alike :
    (s : Text) (o : Option Value) → AlikeOption (some (string s)) o → o ≡ some (string s)
unfolding Alike
string-Alike s o (w, e, a) = e ∙ ap some (sym a)
