-- ===== src/Router/Prefix/Walk.antt =====
-- The bounded walk over a request computes the build of what the walk without a bound writes.
use phala_llm_router.Base.{
  ℕ, zero, suc, [], ◌∷◌, Option, none, some, Text, codes, if◌then◌else◌, text_discrete, or_default,
  ◌≡◌, refl, sym, ap, ◌∙◌, arith, Bool-cases, inl, inr, if_pos, if_neg,
}
use phala_llm_router.Base.Lists.{take}
use phala_llm_router.Json.{
  Value, Items, Fields, null, bool, number, string, array, object, nil, cons, end, field,
}
use phala_llm_router.Number.{number_text}
use phala_llm_router.Router.Text.{
  BoundedText, is_full, separator, append_value, append_first, append_rest, append_field, or_else,
}
use phala_llm_router.Router.Prefix.{
  separate, or_else_text, full_value, full_first, full_rest, full_field, build, build-append,
  push-build,
}
use phala_llm_router.Router.Prefix.Extends.{Extends, value-Extends, rest-Extends}

pub separator-build : (n : ℕ) (x t : Text) → separator (build n x) t ≡ build n (separate x t)
unfolding separator separate build take
separator-build zero [] t = refl
separator-build (suc n) [] t = refl
separator-build zero (c ∷ x) t = unfold build in sym (build-append zero (c ∷ x) t (omega arith))
separator-build (suc n) (c ∷ x) t = unfold build in push-build (suc n) (c ∷ x) t

-- A round that is left early writes no less than the round that goes on.
pub full_stays :
    (n : ℕ) (x z : Text) (y : BoundedText)
    → Extends x z
    → y ≡ build n z
    → (if is_full (build n x) then build n x else y) ≡ build n z
unfolding build
full_stays n x z y (w, e) h = elim (Bool-cases (is_full (build n x))) [
  | inl full ↦ rw full (sym (ap (build n) e ∙ build-append n x w (ground arith)))
  | inr open_ ↦ rw open_ h
]

abbrev build_all : ℕ → Option Text → Option BoundedText
build_all n none = none
build_all n (some x) = some (build n x)

or_else-build :
    (n : ℕ) (x : Text) (o p : Option Text)
    → or_default (or_else (build_all n o) (build_all n p)) (build n x)
      ≡ build n (or_default (or_else_text o p) x)
or_else-build n x (some z) p = refl
or_else-build n x none (some z) = refl
or_else-build n x none none = refl

mutual
  unfolding append_value full_value

  pub value-build :
      (v : Value) (n : ℕ) (x : Text) → append_value v (build n x) ≡ build n (full_value v x)
  value-build null n x = refl
  value-build (bool b) n x = refl
  value-build (number m) n x =
      full_stays n x _ _ (value-Extends (number m) x) (push-build n x (number_text m))
  value-build (string s) n x = full_stays n x _ _ (value-Extends (string s) x) (push-build n x s)
  value-build (array items) n x =
      full_stays n x _ _ (value-Extends (array items) x) (first-build items n x)
  value-build (object fs) n x = full_stays n x _ _ (value-Extends (object fs) x) (
      rw (field-build fs (codes "text") n x, field-build fs (codes "content") n x)
        (or_else-build n x (full_field (codes "text") fs x) (full_field (codes "content") fs x)))

  first-build :
      (vs : Items) (n : ℕ) (x : Text) → append_first vs (build n x) ≡ build n (full_first vs x)
  first-build nil n x = refl
  first-build (cons v vs) n x =
      rw (value-build v n x)
        (full_stays n (full_value v x) _ _ (rest-Extends vs _) (rest-build vs n (full_value v x)))

  rest-build :
      (vs : Items) (n : ℕ) (x : Text) → append_rest vs (build n x) ≡ build n (full_rest vs x)
  rest-build nil n x = refl
  rest-build (cons v vs) n x =
      rw (separator-build n x (codes " "), value-build v n (separate x (codes " ")))
        (full_stays n (full_value v (separate x (codes " "))) _ _ (rest-Extends vs _)
          (rest-build vs n _))

  field-build :
      (fs : Fields) (k : Text) (n : ℕ) (x : Text)
      → append_field k fs (build n x) ≡ build_all n (full_field k fs x)
  field-build end k n x = refl
  field-build (field j v fs) k n x = elim (text_discrete j k) [
    | yes p ↦ rw (if_pos _ p, if_pos _ p) (ap some (value-build v n x))
    | no p ↦ rw (if_neg _ p, if_neg _ p) (field-build fs k n x)
  ]
