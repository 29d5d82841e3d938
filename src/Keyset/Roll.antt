-- ===== src/Keyset/Roll.antt =====
-- The launcher's loop ends at a keyset that is not revoked.
use phala_llm_router.Base.{
  ℕ, zero, suc, ◌+◌, ◌≤◌, ◌<◌, Bool, true, false, List, [], ◌∷◌, Option, none, some, Text, text_eq,
  length, ◌≡◌, refl, sym, ap, ◌∙◌, subst, arith, Bool-cases, inl, inr, ◌⊎◌,
}
use phala_llm_router.Canonical.{Bytes, Result, CanonicalError, ok, err}
use phala_llm_router.Dict.{contains, del, contains-del}
use phala_llm_router.Keyset.{
  KeysetEpoch, WorkloadKeyset, PersistedKeysetEpoch, epoch, resolve_epoch, roll_forward,
  RevocationStatement, is_revoked, roll_loop, state, launched, finish, persisted_discrete,
  digest_at, resolve_with, resolve_launcher_epoch, keyset_material_fingerprint,
  workload_keyset_digest,
}

-- The digests of the statements.
unfoldable digests : List RevocationStatement → List Text
digests [] = []
digests (s ∷ ss) = s.workload_keyset_digest ∷ digests ss

length-digests : (ss : List RevocationStatement) → length (digests ss) ≡ length ss
unfolding digests
length-digests [] = refl
length-digests (s ∷ ss) = ap suc (length-digests ss)

is_revoked-digests :
    (ss : List RevocationStatement) (d : Text) → is_revoked ss d ≡ contains d (digests ss)
unfolding is_revoked digests contains text_eq
is_revoked-digests [] d = refl
is_revoked-digests (s ∷ ss) d = ground (arith, is_revoked-digests ss d)

del-le : (d : Text) (ds : List Text) → length (del d ds) ≤ length ds
unfolding del
del-le d [] = omega arith
del-le d (x ∷ ds) = ground (arith, del-le d ds)

-- To delete what is there makes a list shorter.
del-shorter : (d : Text) (ds : List Text) → contains d ds ≡ true → length (del d ds) < length ds
unfolding del contains
del-shorter d [] h = absurd (cc h)
del-shorter d (x ∷ ds) h = ground (arith, del-shorter d ds, del-le d ds)

Result-cases {ℓ} :
    {A : Type ℓ} (r : Result A) → ((e : CanonicalError) × (r ≡ err e)) ⊎ ((a : A) × (r ≡ ok a))
Result-cases (err e) = inl (e, refl)
Result-cases (ok a) = inr (a, refl)

module _ (now window : ℕ) where
  -- The state after `k` rolls.
  unfoldable pub rolls : ℕ → PersistedKeysetEpoch → PersistedKeysetEpoch
  unfolding roll_forward
  rolls zero p = p
  rolls (suc k) p = rolls k (roll_forward p now window)

module _ (digest : KeysetEpoch → Result Text) (ss : List RevocationStatement) (now window : ℕ) where
  -- The first `n` rolls have digests of their own.
  abbrev pub Distinguished : ℕ → PersistedKeysetEpoch → Type 0
  Distinguished n p =
      (i j : ℕ) (d : Text)
      → i < j
      → j ≤ n
      → digest (epoch (rolls now window i p)) ≡ ok d
      → digest (epoch (rolls now window j p)) ≡ ok d
      → ⊥

  -- Whatever revoked digest a roll still meets stands in the list.
  abbrev Listed : List Text → ℕ → PersistedKeysetEpoch → Type 0
  Listed live n p =
      (k : ℕ) (d : Text)
      → k ≤ n
      → digest (epoch (rolls now window k p)) ≡ ok d
      → is_revoked ss d ≡ true
      → contains d live ≡ true

  Listed-roll :
      (live : List Text) (n : ℕ) (p : PersistedKeysetEpoch) (d : Text)
      → digest (epoch p) ≡ ok d
      → Distinguished (suc n) p
      → Listed live (suc n) p
      → Listed (del d live) n (roll_forward p now window)
  unfolding rolls
  Listed-roll live n p d h apart listed k d' le e revoked = ground (
    arith,
    contains-del d' d live,
    listed (suc k) d' (omega arith) (unfold rolls in e) revoked,
    λ (same : d ≡ d').
        apart 0 (suc k) d' (omega arith) (omega arith) (unfold rolls in h ∙ ap ok same)
          (unfold rolls in e),
  )

  Distinguished-roll :
      (n : ℕ) (p : PersistedKeysetEpoch)
      → Distinguished (suc n) p
      → Distinguished n (roll_forward p now window)
  unfolding rolls
  Distinguished-roll n p apart i j d lt le e f =
      apart (suc i) (suc j) d (omega arith) (omega arith) (unfold rolls in e) (unfold rolls in f)

  abbrev Unrevoked : KeysetEpoch → Type 0
  Unrevoked e = (d : Text) × (digest e ≡ ok d) × (is_revoked ss d ≡ false)

  -- A round that meets a revoked digest has one of the list.
  del_shorter :
      (live : List Text) (n : ℕ) (p : PersistedKeysetEpoch) (d : Text)
      → Listed live n p
      → digest (epoch p) ≡ ok d
      → is_revoked ss d ≡ true
      → length (del d live) < length live
  del_shorter live n p d listed k revoked =
      del-shorter d live (listed 0 d (omega arith) (unfold rolls in k) revoked)

  -- What a round does, when the digest of its epoch is there.
  roll_round :
      (n : ℕ) (p q : PersistedKeysetEpoch)
      → roll_loop digest ss now window (suc n) p ≡ ok q
      → Unrevoked (epoch q)
        ⊎ ((d : Text) × (digest (epoch p) ≡ ok d)
            × (is_revoked ss d ≡ true)
            × (roll_loop digest ss now window n (roll_forward p now window) ≡ ok q))
  unfolding roll_loop
  roll_round n p q h = elim (Result-cases (digest (epoch p))) [
    | inl (e, k) ↦ absurd (cc (rw (k, roll_loop) at h))
    | inr (d, k) ↦ elim (Bool-cases (is_revoked ss d)) [
      | inl revoked ↦ inr (d, k, revoked, rw (k, revoked, roll_loop) at h)
      | inr fine ↦
          let same : p ≡ q = cc (rw (k, fine, roll_loop) at h) in
          inl (d, subst (λ x. digest (epoch x) ≡ ok d) same k, fine)
    ]
  ]

  -- The loop stops at a digest that is not revoked, as long as fewer are listed than rounds are left.
  pub roll_loop-Unrevoked :
      (n : ℕ) (live : List Text) (p q : PersistedKeysetEpoch)
      → length live ≤ n
      → Distinguished n p
      → Listed live n p
      → roll_loop digest ss now window (suc n) p ≡ ok q
      → Unrevoked (epoch q)
  roll_loop-Unrevoked zero live p q small apart listed h = elim (roll_round zero p q h) [
    | inl u ↦ u
    | inr (d, k, revoked, f) ↦
        absurd (let lt = del_shorter live zero p d listed k revoked in omega arith)
  ]
  roll_loop-Unrevoked (suc m) live p q small apart listed h = elim (roll_round (suc m) p q h) [
    | inl u ↦ u
    | inr (d, k, revoked, f) ↦
        let lt = del_shorter live (suc m) p d listed k revoked in
        roll_loop-Unrevoked m (del d live) (roll_forward p now window) q (omega arith)
          (Distinguished-roll m p apart) (Listed-roll live m p d k apart listed) f
  ]

  loop_Unrevoked :
      (p q : PersistedKeysetEpoch)
      → Distinguished (length ss + 1) p
      → roll_loop digest ss now window (length ss + 2) p ≡ ok q
      → Unrevoked (epoch q)
  loop_Unrevoked p q apart h =
      roll_loop-Unrevoked (length ss + 1) (digests ss) p q (omega (arith, length-digests ss)) apart
        (λ k d le e revoked. sym (is_revoked-digests ss d) ∙ revoked)
        (subst (λ n. roll_loop digest ss now window n p ≡ ok q)
          (let e : length ss + 2 ≡ suc (length ss + 1) = omega arith in e) h)

-- The state at the path: the one written, or else the one found.
abbrev pub after :
    Option PersistedKeysetEpoch → Option PersistedKeysetEpoch → Option PersistedKeysetEpoch
after (some p) previous = some p
after none previous = previous

finish_launched :
    (previous : Option PersistedKeysetEpoch) (stores : Bool) (p : PersistedKeysetEpoch)
    (e : KeysetEpoch) (w : Option PersistedKeysetEpoch)
    → finish previous stores p ≡ launched e w
    → (epoch p ≡ e) × (after w previous ≡ some p)
unfolding finish
finish_launched none true p e w h = ground arith
finish_launched none false p e w h = absurd (cc h)
finish_launched (some previous) true p e w h = ground (arith, persisted_discrete previous p)
finish_launched (some previous) false p e w h = ground (arith, persisted_discrete previous p)

module _ (sha256 : Bytes → Text) (make_keyset : KeysetEpoch → WorkloadKeyset)
    (ss : List RevocationStatement) (now window : ℕ) where
  -- A launch that finds a state or none at the path serves, if it is not refused, an epoch whose
  -- keyset has a digest, and that digest is not revoked; and the state at the path afterwards, the
  -- one written or else the one found, is of that epoch. The rounds that the code gives its loop are
  -- enough, where the first rolls of the epoch, one more than there are revocations, give keysets of
  -- different digests.
  pub launched-unrevoked :
      (previous : Option PersistedKeysetEpoch) (stores : Bool) (e : KeysetEpoch)
      (w : Option PersistedKeysetEpoch) (fingerprint : Text)
      → keyset_material_fingerprint sha256 (make_keyset (record { version = 0; not_after = 0 }))
        ≡ ok fingerprint
      → Distinguished
          (digest_at sha256 make_keyset ss now window)
          ss
          now
          window
          (length ss + 1)
          (resolve_epoch previous fingerprint now window)
      → resolve_launcher_epoch sha256 make_keyset ss now window (state previous) stores
        ≡ launched e w
      → (d : Text) × (workload_keyset_digest sha256 (make_keyset e) ≡ ok d)
        × (is_revoked ss d ≡ false)
        × (p : PersistedKeysetEpoch) × (epoch p ≡ e)
        × (after w previous ≡ some p)
  unfolding resolve_launcher_epoch resolve_with
  launched-unrevoked previous stores e w fingerprint f apart h =
      let start = resolve_epoch previous fingerprint now window in
      let k = rw (f, resolve_launcher_epoch) at h in
      elim (Result-cases (
        roll_loop (digest_at sha256 make_keyset ss now window) ss now window (length ss + 2)
          start)) [
            | inl (x, r) ↦ absurd (cc (rw (r, resolve_with) at k))
            | inr (q, r) ↦
                let (d, u, v) =
                  loop_Unrevoked (digest_at sha256 make_keyset ss now window) ss now window start q
                    apart r in
                let (a, b) = finish_launched previous stores q e w (rw (r, resolve_with) at k) in
                (
                  d,
                  subst (λ x. workload_keyset_digest sha256 (make_keyset x) ≡ ok d) a u,
                  v,
                  q,
                  a,
                  b,
                )
          ]
