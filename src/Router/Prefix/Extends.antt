-- ===== src/Router/Prefix/Extends.antt =====
-- What the walk without a bound writes extends the text it was given.
use mathlib.Core.List.{append_assoc, append-nil}
use phala_llm_router.Base.{
  [], ◌∷◌, ◌++◌, Option, none, some, Text, codes, text_discrete, or_default, ◌≡◌, refl, sym, ap,
  ◌∙◌, if_pos, if_neg,
}
use phala_llm_router.Json.{
  Value, Items, Fields, null, bool, number, string, array, object, nil, cons, end, field,
}
use phala_llm_router.Number.{number_text}
use phala_llm_router.Router.Prefix.{
  separate, or_else_text, full_value, full_first, full_rest, full_field,
}

abbrev pub Extends : Text → Text → Type 0
Extends x z = (y : Text) × (z ≡ x ++ y)

pub Extends-refl : (x : Text) → Extends x x
Extends-refl x = ([], sym (append-nil x))

pub Extends-trans : (x y z : Text) → Extends x y → Extends y z → Extends x z
Extends-trans x y z (a, p) (b, q) = (a ++ b, q ∙ ap (λ w. w ++ b) p ∙ append_assoc x a b)

pub Extends-separate : (x t : Text) → Extends x (separate x t)
unfolding separate
Extends-separate [] t = Extends-refl []
Extends-separate (c ∷ x) t = (t, refl)

abbrev pub ExtendsAll : Text → Option Text → Type 0
ExtendsAll x none = Unit {0}
ExtendsAll x (some z) = Extends x z

Extends-or_else :
    (x : Text) (o p : Option Text)
    → ExtendsAll x o
    → ExtendsAll x p
    → Extends x (or_default (or_else_text o p) x)
Extends-or_else x (some z) p e f = e
Extends-or_else x none (some z) e f = f
Extends-or_else x none none e f = Extends-refl x

mutual
  unfolding full_value

  pub value-Extends : (v : Value) (x : Text) → Extends x (full_value v x)
  value-Extends null x = Extends-refl x
  value-Extends (bool b) x = Extends-refl x
  value-Extends (number n) x = (number_text n, refl)
  value-Extends (string s) x = (s, refl)
  value-Extends (array items) x = first-Extends items x
  value-Extends (object fs) x =
      Extends-or_else x (full_field (codes "text") fs x) (full_field (codes "content") fs x)
        (field-Extends fs (codes "text") x) (field-Extends fs (codes "content") x)

  pub first-Extends : (vs : Items) (x : Text) → Extends x (full_first vs x)
  first-Extends nil x = Extends-refl x
  first-Extends (cons v vs) x =
      Extends-trans x (full_value v x) _ (value-Extends v x) (rest-Extends vs (full_value v x))

  pub rest-Extends : (vs : Items) (x : Text) → Extends x (full_rest vs x)
  rest-Extends nil x = Extends-refl x
  rest-Extends (cons v vs) x =
      Extends-trans x (separate x (codes " ")) _ (Extends-separate x (codes " ")) (
        Extends-trans _ (full_value v (separate x (codes " "))) _
          (value-Extends v (separate x (codes " "))) (rest-Extends vs _))

  pub field-Extends : (fs : Fields) (k x : Text) → ExtendsAll x (full_field k fs x)
  field-Extends end k x = tt
  field-Extends (field j v fs) k x = elim (text_discrete j k) [
    | yes p ↦ rw (if_pos _ p) (value-Extends v x)
    | no p ↦ rw (if_neg _ p) (field-Extends fs k x)
  ]
