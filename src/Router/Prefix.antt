-- ===== src/Router/Prefix.antt =====
-- The bounded routing text is a prefix of the text that the same walk writes with no bound.
pub mod Extends
pub mod Walk
pub mod Request
use mathlib.Core.List.{append_assoc, append-nil}
use phala_llm_router.Base.{
  ℕ, zero, suc, ◌+◌, ◌-◌, ◌≤◌, ◌<◌, ◌==◌, Bool, true, false, List, [], ◌∷◌, ◌++◌, Option, none,
  some, Text, codes, if◌then◌else◌, ite, text_discrete, or_default, min, ◌≡◌, refl, sym, ap, subst,
  ◌∙◌, arith, length, length-append, Bool-cases, inl, inr, if_pos, if_neg, Option-cases,
}
use phala_llm_router.Base.Lists.{take, take_all, take-append}
use phala_llm_router.Json.{
  Value, Items, Fields, null, bool, number, string, array, object, nil, cons, end, field, get_key,
  as_str,
}
use phala_llm_router.Number.{number_text}
use phala_llm_router.Router.Text.{
  BoundedText, new, is_full, push_from, push, is_empty, separator, append_value, append_first,
  append_rest, append_field, append_prompt, append_message, append_messages, append_request,
  role_of, as_array, Endpoint, complete, embed, messages, chat_complete, create_model_response,
  bounded_routing_text, max_routing_history_chars,
}

-- A separator is written unless the text is still empty.
unfoldable pub separate : Text → Text → Text
separate x t = if is_empty x then x else x ++ t

-- The walk with no bound: each function adds to the text so far.
abbrev pub or_else_text : Option Text → Option Text → Option Text
or_else_text (some b) o = some b
or_else_text none o = o

unfoldable mutual
  unfolding separate

  pub full_value : Value → Text → Text
  full_value null x = x
  full_value (bool b) x = x
  full_value (number n) x = x ++ number_text n
  full_value (string s) x = x ++ s
  full_value (array items) x = full_first items x
  full_value (object fs) x =
      or_default (or_else_text (full_field (codes "text") fs x) (full_field (codes "content") fs x))
        x

  pub full_first : Items → Text → Text
  full_first nil x = x
  full_first (cons v vs) x = full_rest vs (full_value v x)

  pub full_rest : Items → Text → Text
  full_rest nil x = x
  full_rest (cons v vs) x = full_rest vs (full_value v (separate x (codes " ")))

  pub full_field : Text → Fields → Text → Option Text
  full_field k end x = none
  full_field k (field j v fs) x =
      let here = full_value v x in
      let later = full_field k fs x in ite (text_discrete j k) (some here) later

-- The builder of capacity `n` that was given the text `x`.
unfoldable pub build : ℕ → Text → BoundedText
build n x = record { out = take n x; remaining = n - length x }

-- A full builder takes no more.
pub build-append : (n : ℕ) (x y : Text) → n ≤ length x → build n (x ++ y) ≡ build n x
unfolding build
build-append n x y h = λ i. record {
  out = take-append n x y h i;
  remaining =
      (let e : n - length (x ++ y) ≡ n - length x = omega (arith, length-append x y) in e i);
}

pub push_from-build :
    (n m : ℕ) (x t : Text) → m ≡ n - length x → push_from (take n x) t m ≡ build n (x ++ t)
unfolding push_from build
push_from-build n m x [] h =
    (λ i. record { out = take n x; remaining = h i }) ∙ ap (build n) (sym (append-nil x))
push_from-build n zero x (c ∷ t) h =
    (λ i. record { out = take n x; remaining = h i }) ∙ sym (build-append n x (c ∷ t) (omega arith))
push_from-build n (suc m) x (c ∷ t) h =
    ap (λ y. push_from y t m)
      (ap (λ y. y ++ c ∷ []) (take_all n x (omega arith))
        ∙ sym (take_all n (x ++ c ∷ []) (omega (arith, length-append x (c ∷ [])))))
    ∙ push_from-build n m (x ++ c ∷ []) t (omega (arith, length-append x (c ∷ [])))
    ∙ ap (build n) (append_assoc x (c ∷ []) t)

pub push-build : (n : ℕ) (x t : Text) → push (build n x) t ≡ build n (x ++ t)
unfolding push build
push-build n x t = push_from-build n (n - length x) x t refl
