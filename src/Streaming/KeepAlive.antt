-- ===== src/Streaming/KeepAlive.antt =====
-- `KeepAliveStream` of middleware/sse.rs: a provider's stream with comments where it is idle. The
-- clock and the polls of the inner stream are arguments.
use phala_llm_router.Base.{
  ℕ, ◌+◌, leb, Bool, true, false, List, [], ◌∷◌, Option, none, some, Text, codes, if◌then◌else◌,
  ◌≡◌, sym, subst, Bool-cases, inl, inr, if_true, if_false,
}
use phala_llm_router.Canonical.{Bytes}

-- What a stream yields: `Ok` of bytes or an error.
pub data Item : Type 0 where
  bytes : Bytes → Item
  service_error : Text → Item

pub data InnerPoll : Type 0 where
  yields : Item → InnerPoll
  finishes waits : InnerPoll

-- `sleep` is the time at which the timer is ready.
pub record KeepAliveStream : Type 0 where
  pub interval : Option ℕ
  pub sleep : Option ℕ
  pub done : Bool

abbrev after_interval : Option ℕ → ℕ → Option ℕ
after_interval none now = none
after_interval (some d) now = some (now + d)

unfoldable pub keep_alive : Option ℕ → ℕ → KeepAliveStream
keep_alive interval now = record {
  interval = interval;
  sleep = after_interval interval now;
  done = false;
}

abbrev armed : Option ℕ → Option ℕ → ℕ → Option ℕ
armed (some d) (some t) now = some (now + d)
armed interval sleep now = sleep

unfoldable pub arm : KeepAliveStream → ℕ → KeepAliveStream
arm k now = record k { sleep = armed k.interval k.sleep now }

abbrev pub keep_alive_comment : Item
keep_alive_comment = bytes (codes ": PROCESSING\n\n")

-- What a poll answers: `Ready(Some(item))`, `Ready(None)` or `Pending`.
pub data Answer : Type 0 where
  ready : Item → Answer
  at_end pending : Answer

abbrev is_ready : Option ℕ → ℕ → Bool
is_ready none now = false
is_ready (some t) now = leb t now

abbrev on_inner : KeepAliveStream → ℕ → InnerPoll → KeepAliveStream × Answer
on_inner k now (yields item) = (arm k now, ready item)
on_inner k now finishes = (record k { done = true }, at_end)
on_inner k now waits =
    if is_ready k.sleep now then (arm k now, ready keep_alive_comment) else (k, pending)

unfoldable pub poll_next : KeepAliveStream → ℕ → InnerPoll → KeepAliveStream × Answer
unfolding arm
poll_next k now inner = if k.done then (k, at_end) else on_inner k now inner

-- What a reader gets of a stream that it polls at the given times.
abbrev taken : Answer → List Item → List Item
taken (ready item) rest = item ∷ rest
taken at_end rest = []
taken pending rest = rest

unfoldable pub read_all : KeepAliveStream → List (ℕ × InnerPoll) → List Item
unfolding poll_next
read_all k [] = []
read_all k ((now, inner) ∷ polls) =
    taken (poll_next k now inner).1 (read_all (poll_next k now inner).0 polls)

-- What the inner stream yields until it finishes.
abbrev pub inner_items : List (ℕ × InnerPoll) → List Item
inner_items [] = []
inner_items ((now, yields item) ∷ polls) = item ∷ inner_items polls
inner_items ((now, finishes) ∷ polls) = []
inner_items ((now, waits) ∷ polls) = inner_items polls

-- The second list is the first with comments in between.
pub data WithComments : List Item → List Item → Type 0 where
  nothing : WithComments [] []
  passes :
      (item : Item) {xs ys : List Item} → WithComments xs ys → WithComments (item ∷ xs) (item ∷ ys)
  comments : {xs ys : List Item} → WithComments xs ys → WithComments xs (keep_alive_comment ∷ ys)

taken-waits :
    (k : KeepAliveStream) (now : ℕ) (polls : List (ℕ × InnerPoll)) (b : Bool) (xs : List Item)
    → is_ready k.sleep now ≡ b
    → WithComments xs (read_all (if b then arm k now else k) polls)
    → WithComments xs (taken (on_inner k now waits).1 (read_all (on_inner k now waits).0 polls))
taken-waits k now polls true xs e w =
    subst (λ (r : KeepAliveStream × Answer). WithComments xs (taken r.1 (read_all r.0 polls)))
      (sym (if_true (is_ready k.sleep now) _ _ e)) (comments w)
taken-waits k now polls false xs e w =
    subst (λ (r : KeepAliveStream × Answer). WithComments xs (taken r.1 (read_all r.0 polls)))
      (sym (if_false (is_ready k.sleep now) _ _ e)) w

read_from :
    (polls : List (ℕ × InnerPoll)) (interval sleep : Option ℕ)
    → WithComments
        (inner_items polls)
        (read_all (record { interval = interval; sleep = sleep; done = false }) polls)
unfolding read_all poll_next arm
read_from [] interval sleep = nothing
read_from ((now, yields item) ∷ polls) interval sleep =
    passes item (read_from polls interval (armed interval sleep now))
read_from ((now, finishes) ∷ polls) interval sleep = nothing
read_from ((now, waits) ∷ polls) interval sleep =
    let k : KeepAliveStream = record { interval = interval; sleep = sleep; done = false } in
    elim (Bool-cases (is_ready sleep now)) [
      | inl e ↦
          taken-waits k now polls true (inner_items polls) e
            (read_from polls interval (armed interval sleep now))
      | inr e ↦ taken-waits k now polls false (inner_items polls) e (read_from polls interval sleep)
    ]

-- A reader gets the items of the inner stream, its errors included, in their order up to its end,
-- with nothing but comments in between: none is lost, repeated, changed or held back past a later one.
pub read_all-WithComments :
    (interval : Option ℕ) (start : ℕ) (polls : List (ℕ × InnerPoll))
    → WithComments (inner_items polls) (read_all (keep_alive interval start) polls)
unfolding keep_alive
read_all-WithComments interval start polls =
    read_from polls interval (after_interval interval start)
