-- ===== src/Streaming/Chunks.antt =====
-- How the provider's bytes are cut into chunks makes no difference.
use mathlib.Core.List.{append_assoc, append-nil}
use phala_llm_router.Base.{
  ℕ, zero, suc, ◌+◌, ◌≤◌, Bool, true, false, List, [], ◌∷◌, ◌++◌, none, some, length, length-append,
  if◌then◌else◌, ◌≡◌, refl, sym, ap, ◌∙◌, subst, arith, Option-cases, Bool-cases, inl, inr,
}
use phala_llm_router.Base.Lists.{take, take-append, drop_first}
use phala_llm_router.Canonical.{Bytes}
use phala_llm_router.Streaming.{
  SseTransform, Applied, emit, after_emit, find_subslice, drain, drain_buffer, StreamTransform,
  split_pattern, Polled, chunk, poll_inner, poll_all,
}
use phala_llm_router.Streaming.Drain.{
  rebuffer, emit-rebuffer, emit-buffer, cut, drain-none, drain-some, shorter, drain_enough,
  drain-IsDrained,
}
use phala_llm_router.Streaming.Split.{find_subslice-append, find_subslice-length, drop_first-append}

-- More bytes in the buffer.
abbrev more : {S : Type 0} → SseTransform S → Bytes → SseTransform S
more t x = rebuffer t (t.buffer ++ x)

module _ {S : Type 0} (split : Bytes) (apply : S → Bytes → S × Applied)
    (whole : 1 ≤ length split) where
  feed_open :
      (t : SseTransform S) (x : Bytes)
      → t.inner_done ≡ false
      → poll_inner split apply t (chunk x) ≡ drain_buffer split apply (more t x)
  unfolding poll_inner
  feed_open t x h = ap (λ b. if b then t else drain_buffer split apply (more t x)) h

  feed_done :
      (t : SseTransform S) (x : Bytes)
      → t.inner_done ≡ true
      → poll_inner split apply t (chunk x) ≡ t
  unfolding poll_inner
  feed_done t x h = ap (λ b. if b then t else drain_buffer split apply (more t x)) h

  after_emit-more :
      (p : SseTransform S × Bool) (x : Bytes) (f g : ℕ)
      → (p.1 ≡ true
          → drain split apply g (more p.0 x)
            ≡ poll_inner split apply (drain split apply f p.0) (chunk x))
      → after_emit split apply (more p.0 x, p.1) (drain split apply g)
        ≡ poll_inner split apply (after_emit split apply p (drain split apply f)) (chunk x)
  unfolding poll_inner
  after_emit-more (t, true) x f g h = h refl
  after_emit-more (t, false) x f g h = refl

  -- The next event of the longer buffer is that of the buffer.
  emit-more :
      (t : SseTransform S) (x : Bytes) (pos : ℕ)
      → find_subslice t.buffer split ≡ some pos
      → emit split apply (cut split apply (more t x) pos) (take pos (t.buffer ++ x)) ≡ (
        more (emit split apply (cut split apply t pos) (take pos t.buffer)).0 x,
        (emit split apply (cut split apply t pos) (take pos t.buffer)).1,
      )
  emit-more t x pos h =
      let bound = find_subslice-length t.buffer split pos h in
      let rest = drop_first (pos + length split) t.buffer in
      let event = take pos t.buffer in
      let p = emit split apply (cut split apply t pos) event in
      ap (λ b. emit split apply (rebuffer t b) (take pos (t.buffer ++ x)))
        (drop_first-append (pos + length split) t.buffer x bound)
      ∙ ap (λ e. emit split apply (rebuffer t (rest ++ x)) e)
          (take-append pos t.buffer x (omega arith))
      ∙ emit-rebuffer split apply (cut split apply t pos) (rest ++ x) event
      ∙ ap (λ b. (rebuffer p.0 (b ++ x), p.1))
          (sym ((emit-buffer split apply (cut split apply t pos) event).0))

  drain-more-none :
      (f g : ℕ) (t : SseTransform S) (x : Bytes)
      → find_subslice t.buffer split ≡ none
      → t.inner_done ≡ false
      → length (t.buffer ++ x) ≤ g
      → drain split apply g (more t x) ≡ poll_inner split apply (drain split apply f t) (chunk x)
  unfolding drain_buffer
  drain-more-none f g t x e o b =
      drain_enough split apply whole g (length (t.buffer ++ x)) (more t x) b (omega arith)
      ∙ sym (feed_open t x o)
      ∙ ap (λ s. poll_inner split apply s (chunk x)) (sym (drain-none split apply f t e))

  -- To drain with more bytes at once is to drain, and then to be fed them.
  drain-more :
      (f g : ℕ) (t : SseTransform S) (x : Bytes)
      → t.inner_done ≡ false
      → length t.buffer ≤ f
      → length (t.buffer ++ x) ≤ g
      → drain split apply g (more t x) ≡ poll_inner split apply (drain split apply f t) (chunk x)
  drain-more zero g t x o a b = elim (Option-cases (find_subslice t.buffer split)) [
    | inl e ↦ drain-more-none zero g t x e o b
    | inr (pos, e) ↦ absurd (omega (arith, find_subslice-length t.buffer split pos e))
  ]
  drain-more (suc f) zero t x o a b = elim (Option-cases (find_subslice t.buffer split)) [
    | inl e ↦ drain-more-none (suc f) zero t x e o b
    | inr (pos, e) ↦
        absurd (omega (arith, find_subslice-length t.buffer split pos e, length-append t.buffer x))
  ]
  drain-more (suc f) (suc g) t x o a b = elim (Option-cases (find_subslice t.buffer split)) [
    | inl e ↦ drain-more-none (suc f) (suc g) t x e o b
    | inr (pos, e) ↦
        let p = emit split apply (cut split apply t pos) (take pos t.buffer) in
        let e' = find_subslice-append t.buffer split x pos e in
        let less = shorter split apply whole (more t x) pos g e' b in
        let same = emit-more t x pos e in
        let kept = emit-buffer split apply (cut split apply t pos) (take pos t.buffer) in
        drain-some split apply g (more t x) pos e'
        ∙ ap (λ q. after_emit split apply q (drain split apply g)) same
        ∙ after_emit-more p x f g (λ h.
          drain-more f g p.0 x (kept.1 ∙ o) (shorter split apply whole t pos f e a)
            (subst (λ q. length q.0.buffer ≤ g) same less))
        ∙ ap (λ s. poll_inner split apply s (chunk x)) (sym (drain-some split apply f t pos e))
  ]

  poll_inner-append :
      (t : SseTransform S) (x y : Bytes)
      → poll_inner split apply (poll_inner split apply t (chunk x)) (chunk y)
        ≡ poll_inner split apply t (chunk (x ++ y))
  unfolding drain_buffer
  poll_inner-append t x y = elim (Bool-cases t.inner_done) [
    | inl d ↦
        ap (λ s. poll_inner split apply s (chunk y)) (feed_done t x d)
        ∙ feed_done t y d
        ∙ sym (feed_done t (x ++ y) d)
    | inr o ↦
        let both = t.buffer ++ x in
        ap (λ s. poll_inner split apply s (chunk y)) (feed_open t x o)
        ∙ sym (
            drain-more (length both) (length (both ++ y)) (more t x) y o (omega arith)
              (omega arith))
        ∙ ap (λ b. drain split apply (length b) (rebuffer t b)) (append_assoc t.buffer x y)
        ∙ sym (feed_open t (x ++ y) o)
  ]

-- A stream that is polled to chunks.
abbrev pub chunks : List Bytes → List Polled
chunks [] = []
chunks (c ∷ cs) = chunk c ∷ chunks cs

abbrev pub concat : List Bytes → Bytes
concat [] = []
concat (c ∷ cs) = c ++ concat cs

length-split_pattern : (tr : StreamTransform) → 1 ≤ length (split_pattern tr)
unfolding split_pattern
length-split_pattern StreamTransform.anthropic_to_openai_chat = omega arith
length-split_pattern StreamTransform.openai_to_anthropic_messages = omega arith
length-split_pattern StreamTransform.anthropic_complete_to_openai = omega arith

module _ {S : Type 0} (apply : S → Bytes → S × Applied) where
  -- However the provider's bytes are cut into chunks, with whatever transform, from any state of the
  -- adapter and whatever comes after them, the state, the outputs in their order and the bytes that
  -- wait are those of the bytes in one chunk. A delimiter that two chunks share is found.
  pub poll_all-chunks :
      (tr : StreamTransform) (t : SseTransform S) (c : Bytes) (cs : List Bytes) (rest : List Polled)
      → poll_all (split_pattern tr) apply t (chunks (c ∷ cs) ++ rest)
        ≡ poll_all (split_pattern tr) apply t (chunk (concat (c ∷ cs)) ∷ rest)
  unfolding poll_all
  poll_all-chunks tr t c [] rest =
      ap (λ b. poll_all (split_pattern tr) apply t (chunk b ∷ rest)) (sym (append-nil c))
  poll_all-chunks tr t c (d ∷ cs) rest =
      poll_all-chunks tr (poll_inner (split_pattern tr) apply t (chunk c)) d cs rest
      ∙ ap (λ s. poll_all (split_pattern tr) apply s rest)
          (poll_inner-append (split_pattern tr) apply (length-split_pattern tr) t c
            (concat (d ∷ cs)))

  -- The loop of `drain_buffer` ends: a buffer that it has drained holds no delimiter, and any number of
  -- rounds from the length of the buffer on gives the same.
  pub drain_buffer-IsDrained :
      (tr : StreamTransform) (t : SseTransform S) (rounds : ℕ)
      → length t.buffer ≤ rounds
      → (find_subslice (drain_buffer (split_pattern tr) apply t).buffer (split_pattern tr) ≡ none)
        × (drain (split_pattern tr) apply rounds t ≡ drain_buffer (split_pattern tr) apply t)
  unfolding drain_buffer
  drain_buffer-IsDrained tr t rounds h =
      let whole = length-split_pattern tr in
      (
        drain-IsDrained (split_pattern tr) apply whole (length t.buffer) t (omega arith),
        drain_enough (split_pattern tr) apply whole rounds (length t.buffer) t h (omega arith),
      )
