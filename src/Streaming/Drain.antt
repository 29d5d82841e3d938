-- ===== src/Streaming/Drain.antt =====
-- One round of `drain_buffer`, and that its fuel is enough.
use phala_llm_router.Base.{
  ℕ, zero, suc, ◌+◌, ◌≤◌, Bool, true, false, [], ◌∷◌, none, some, length, ◌≡◌, refl, sym, ap, ◌∙◌,
  subst, arith, Option-cases, inl, inr,
}
use phala_llm_router.Base.Lists.{take, drop_first}
use phala_llm_router.Canonical.{Bytes}
use phala_llm_router.Streaming.{
  drain_at, SseTransform, Applied, emits, skips, rejects, answer, emit, after_emit, find_subslice,
  drain,
}
use phala_llm_router.Streaming.Split.{find_subslice-length, length-drop_first}

-- A stream with another buffer.
abbrev pub rebuffer : {S : Type 0} → SseTransform S → Bytes → SseTransform S
rebuffer t b = record t { buffer = b }

module _ {S : Type 0} (split : Bytes) (apply : S → Bytes → S × Applied) where
  pub answer-rebuffer :
      (t : SseTransform S) (b : Bytes) (a : S × Applied)
      → answer split apply (rebuffer t b) a
        ≡ (rebuffer (answer split apply t a).0 b, (answer split apply t a).1)
  answer-rebuffer t b (state, emits out) = refl
  answer-rebuffer t b (state, skips) = refl
  answer-rebuffer t b (state, rejects) = refl

  -- `emit` does not look at the buffer.
  pub emit-rebuffer :
      (t : SseTransform S) (b event : Bytes)
      → emit split apply (rebuffer t b) event
        ≡ (rebuffer (emit split apply t event).0 b, (emit split apply t event).1)
  unfolding emit
  emit-rebuffer t b [] = refl
  emit-rebuffer t b (c ∷ event) = answer-rebuffer t b (apply t.state (c ∷ event))

  answer-buffer :
      (t : SseTransform S) (a : S × Applied)
      → ((answer split apply t a).0.buffer ≡ t.buffer)
        × ((answer split apply t a).0.inner_done ≡ t.inner_done)
  answer-buffer t (state, emits out) = (refl, refl)
  answer-buffer t (state, skips) = (refl, refl)
  answer-buffer t (state, rejects) = (refl, refl)

  pub emit-buffer :
      (t : SseTransform S) (event : Bytes)
      → ((emit split apply t event).0.buffer ≡ t.buffer)
        × ((emit split apply t event).0.inner_done ≡ t.inner_done)
  unfolding emit
  emit-buffer t [] = (refl, refl)
  emit-buffer t (c ∷ event) = answer-buffer t (apply t.state (c ∷ event))

  -- The stream of which the next event is taken.
  abbrev pub cut : SseTransform S → ℕ → SseTransform S
  cut t pos = rebuffer t (drop_first (pos + length split) t.buffer)

  pub drain-none :
      (f : ℕ) (t : SseTransform S) → find_subslice t.buffer split ≡ none → drain split apply f t ≡ t
  unfolding drain
  drain-none zero t h = refl
  drain-none (suc f) t h = ap (λ o. drain_at split apply t o (drain split apply f)) h

  pub drain-some :
      (f : ℕ) (t : SseTransform S) (pos : ℕ)
      → find_subslice t.buffer split ≡ some pos
      → drain split apply (suc f) t
        ≡ after_emit split apply
            (emit split apply (cut t pos) (take pos t.buffer))
            (drain split apply f)
  unfolding drain
  drain-some f t pos h = ap (λ o. drain_at split apply t o (drain split apply f)) h

  -- After an event that is not rejected, the loop goes on alike.
  pub after_emit-rest :
      (p : SseTransform S × Bool) (r s : SseTransform S → SseTransform S)
      → (p.1 ≡ true → r p.0 ≡ s p.0)
      → after_emit split apply p r ≡ after_emit split apply p s
  after_emit-rest (t, true) r s h = h refl
  after_emit-rest (t, false) r s h = refl

  module _ (whole : 1 ≤ length split) where
    -- Each round shortens the buffer.
    pub shorter :
        (t : SseTransform S) (pos f : ℕ)
        → find_subslice t.buffer split ≡ some pos
        → length t.buffer ≤ suc f
        → length (emit split apply (cut t pos) (take pos t.buffer)).0.buffer ≤ f
    shorter t pos f h bound =
        let found = find_subslice-length t.buffer split pos h in
        let less = length-drop_first (pos + length split) t.buffer (omega arith) in
        rw ((emit-buffer (cut t pos) (take pos t.buffer)).0) (omega arith)

    pub drain_enough :
        (f g : ℕ) (t : SseTransform S)
        → length t.buffer ≤ f
        → length t.buffer ≤ g
        → drain split apply f t ≡ drain split apply g t
    drain_enough zero g t a b = elim (Option-cases (find_subslice t.buffer split)) [
      | inl e ↦ drain-none zero t e ∙ sym (drain-none g t e)
      | inr (pos, e) ↦ absurd (omega (arith, find_subslice-length t.buffer split pos e))
    ]
    drain_enough (suc f) zero t a b = elim (Option-cases (find_subslice t.buffer split)) [
      | inl e ↦ drain-none (suc f) t e ∙ sym (drain-none zero t e)
      | inr (pos, e) ↦ absurd (omega (arith, find_subslice-length t.buffer split pos e))
    ]
    drain_enough (suc f) (suc g) t a b = elim (Option-cases (find_subslice t.buffer split)) [
      | inl e ↦ drain-none (suc f) t e ∙ sym (drain-none (suc g) t e)
      | inr (pos, e) ↦
          drain-some f t pos e
          ∙ after_emit-rest (emit split apply (cut t pos) (take pos t.buffer)) (drain split apply f)
              (drain split apply g)
              (λ h.
                drain_enough f g (emit split apply (cut t pos) (take pos t.buffer)).0
                  (shorter t pos f e a) (shorter t pos g e b))
          ∙ sym (drain-some g t pos e)
    ]

    -- No delimiter is left in a buffer that was drained.
    abbrev pub IsDrained : SseTransform S → Type 0
    IsDrained t = find_subslice t.buffer split ≡ none

    after_emit-IsDrained :
        (p : SseTransform S × Bool) (rest : SseTransform S → SseTransform S)
        → (p.1 ≡ true → IsDrained (rest p.0))
        → IsDrained (after_emit split apply p rest)
    unfolding find_subslice
    after_emit-IsDrained (t, true) rest h = h refl
    after_emit-IsDrained (t, false) rest h = refl

    pub drain-IsDrained :
        (f : ℕ) (t : SseTransform S) → length t.buffer ≤ f → IsDrained (drain split apply f t)
    drain-IsDrained zero t a = elim (Option-cases (find_subslice t.buffer split)) [
      | inl e ↦ subst IsDrained (sym (drain-none zero t e)) e
      | inr (pos, e) ↦ absurd (omega (arith, find_subslice-length t.buffer split pos e))
    ]
    drain-IsDrained (suc f) t a = elim (Option-cases (find_subslice t.buffer split)) [
      | inl e ↦ subst IsDrained (sym (drain-none (suc f) t e)) e
      | inr (pos, e) ↦ subst IsDrained (sym (drain-some f t pos e)) (
          after_emit-IsDrained (emit split apply (cut t pos) (take pos t.buffer))
            (drain split apply f)
            (λ h.
              drain-IsDrained f (emit split apply (cut t pos) (take pos t.buffer)).0
                (shorter t pos f e a)))
    ]
