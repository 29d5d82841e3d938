-- ===== src/Session/Log/Lines.antt =====
-- The lines of a log: an encoded record and its newline is one line, and trimming gives it back.
use mathlib.Core.List.{reverse, reverse-append, reverse-reverse, append_assoc}
use phala_llm_router.Base.{
  ℕ, ◌==◌, true, false, List, [], ◌∷◌, ◌++◌, ◌≡◌, refl, ap, sym, ◌∙◌, Bool-cases, inl, inr,
}
use phala_llm_router.Canonical.{Bytes}
use phala_llm_router.Session.Log.{cons_first, split_lines, is_space, trim_start, trim_ascii}

abbrev pub NoNewline : Bytes → Type 0
NoNewline [] = Unit {0}
NoNewline (b ∷ s) = ((b == 10) ≡ false) × NoNewline s

-- The text of a JSON object on one line: it opens with a brace and closes with one.
pub record IsObjectLine (b : Bytes) : Type 0 where
  pub middle : Bytes
  pub braces : b ≡ 123 ∷ (middle ++ 125 ∷ [])
  pub one_line : NoNewline b

-- Empty, or ending in a newline.
abbrev pub IsComplete : Bytes → Type 0
IsComplete [] = Unit {0}
IsComplete (b ∷ []) = (b == 10) ≡ true
IsComplete (b ∷ c ∷ s) = IsComplete (c ∷ s)

pub split_lines-line :
    (b rest : Bytes)
    → NoNewline b
    → split_lines (b ++ 10 ∷ rest) ≡ (b ++ 10 ∷ []) ∷ split_lines rest
unfolding split_lines
split_lines-line [] rest h = refl
split_lines-line (c ∷ b) rest h = rw (h.0, split_lines-line b rest h.1)

split_lines_cons :
    (c : ℕ) (s : Bytes) → (l : Bytes) × (ls : List Bytes) × (split_lines (c ∷ s) ≡ l ∷ ls)
unfolding split_lines cons_first
split_lines_cons c s = elim (Bool-cases (c == 10)) [
  | inl e ↦ (c ∷ [], split_lines s, rw e)
  | inr e ↦ rw e (first (split_lines s))
]
  where
    first : (t : List Bytes) → (l : Bytes) × (ls : List Bytes) × (cons_first c t ≡ l ∷ ls)
    first [] = (c ∷ [], [], refl)
    first (l ∷ ls) = (c ∷ l, ls, refl)

pub split_lines-append :
    (log t : Bytes) → IsComplete log → split_lines (log ++ t) ≡ split_lines log ++ split_lines t
unfolding split_lines cons_first
split_lines-append [] t h = refl
split_lines-append (b ∷ []) t h = rw h
split_lines-append (b ∷ c ∷ s) t h = elim (Bool-cases (b == 10)) [
  | inl e ↦ rw (e, split_lines-append (c ∷ s) t h)
  | inr e ↦ let (l, ls, p) = split_lines_cons c s in rw (e, split_lines-append (c ∷ s) t h, p)
]

pub append-IsComplete : (log b : Bytes) → IsComplete (log ++ (b ++ 10 ∷ []))
append-IsComplete [] [] = refl
append-IsComplete [] (c ∷ []) = refl
append-IsComplete [] (c ∷ d ∷ b) = append-IsComplete [] (d ∷ b)
append-IsComplete (c ∷ []) [] = refl
append-IsComplete (c ∷ []) (d ∷ b) = append-IsComplete [] (d ∷ b)
append-IsComplete (c ∷ d ∷ log) b = append-IsComplete (d ∷ log) b

pub line_then-IsComplete : (b rest : Bytes) → IsComplete rest → IsComplete (b ++ 10 ∷ rest)
line_then-IsComplete [] [] h = refl
line_then-IsComplete [] (c ∷ rest) h = h
line_then-IsComplete (c ∷ []) rest h = line_then-IsComplete [] rest h
line_then-IsComplete (c ∷ d ∷ b) rest h = line_then-IsComplete (d ∷ b) rest h

trim_ascii_braces : (m : Bytes) → trim_ascii (123 ∷ (m ++ 125 ∷ 10 ∷ [])) ≡ 123 ∷ (m ++ 125 ∷ [])
unfolding trim_ascii trim_start is_space
trim_ascii_braces m =
    ap (λ r. reverse (trim_start r)) (reverse-append (123 ∷ m) (125 ∷ 10 ∷ []))
    ∙ ap reverse (sym (reverse-append (123 ∷ m) (125 ∷ [])))
    ∙ reverse-reverse (123 ∷ (m ++ 125 ∷ []))

pub trim_ascii-line : (b : Bytes) → IsObjectLine b → trim_ascii (b ++ 10 ∷ []) ≡ b
trim_ascii-line b h =
    ap (λ s. trim_ascii (s ++ 10 ∷ [])) h.braces
    ∙ ap (λ s. trim_ascii (123 ∷ s)) (append_assoc h.middle (125 ∷ []) (10 ∷ []))
    ∙ trim_ascii_braces h.middle
    ∙ sym h.braces
