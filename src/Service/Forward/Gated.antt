-- ===== src/Service/Forward/Gated.antt =====
-- No request reaches an upstream past the gate, and how often one does.
use phala_llm_router.Base.{
  ℕ, zero, suc, ◌+◌, ◌≤◌, Bool, true, false, ◌||◌, not, Option, none, some, Text, or_default,
  if◌then◌else◌, ◌≡◌, ◌⊎◌, refl, sym, ap, ◌∙◌, subst, inl, inr, arith, Bool-cases,
}
use phala_llm_router.Canonical.{Bytes}
use phala_llm_router.Receipts.Types.{UpstreamVerifiedEvent, VerificationResult, verified}
use phala_llm_router.Service.Errors.{
  routing, transport, channel_binding_mismatch, rejected, Served, served, failing,
}
use phala_llm_router.Service.Forward.{
  UpstreamVerificationRequest, UpstreamVerifier, Attempt, response, not_forwarded, gate,
  if_verified, verified_by, recorded_upstream_event, invalidated_by, invalidate_upstream_event,
  refresh_upstream_event, flushed, settled, refreshed, reverify_loop, forward_with_binding_reverify,
  unverified_event, Left,
}
use phala_llm_router.Upstream.Prepare.{PreparedUpstreamRequest}

-- A forward is permitted on a verified event, or where no verification is required.
abbrev pub Permitted : Bool → UpstreamVerifiedEvent → Type 0
Permitted required event = (required ≡ false) ⊎ (event.result ≡ verified)

-- A property of the world that counts the forwards: verifying keeps it, and one permitted forward
-- adds one.
pub record Counts (W R : Type 0) (Inv : ℕ → W → Type 0) (verifier : Option (UpstreamVerifier W))
    (forward : W → PreparedUpstreamRequest → UpstreamVerifiedEvent → W × Attempt R)
    (required : PreparedUpstreamRequest → Bool) : Type 0 where
  pub verifies :
      (v : UpstreamVerifier W)
      → verifier ≡ some v
      → (n : ℕ) (w : W) (q : UpstreamVerificationRequest) → Inv n w
      → Inv n (v.verify w q).0
  pub invalidates :
      (v : UpstreamVerifier W)
      → verifier ≡ some v
      → (n : ℕ) (w : W) (q : UpstreamVerificationRequest) → Inv n w
      → Inv n (v.invalidate w q)
  pub forwards :
      (n : ℕ) (w : W) (prepared : PreparedUpstreamRequest) (event : UpstreamVerifiedEvent)
      → Permitted (required prepared) event
      → Inv n w
      → Inv (suc n) (forward w prepared event).0

-- It holds for at most `k` forwards.
abbrev pub AtMost : {W : Type 0} → (ℕ → W → Type 0) → ℕ → W → Type 0
AtMost Inv k w = (n : ℕ) × (n ≤ k) × Inv n w

unless-some {ℓ} : {A : Type ℓ} (b : Bool) (x y : A) → (if b then none else some x) ≡ some y → x ≡ y
unless-some true x y h = absurd (cc h)
unless-some false x y h = cc h

if_verified-Permitted :
    (v : VerificationResult) (event e : UpstreamVerifiedEvent)
    → event.result ≡ v
    → if_verified v event ≡ served e
    → e.result ≡ verified
if_verified-Permitted verified event e r h =
    let same : event ≡ e = cc h in ap (λ x. x.result) (sym same) ∙ r
if_verified-Permitted VerificationResult.failed event e r h = absurd (cc h)

pub gate-Permitted :
    (required missing : Bool) (event e : UpstreamVerifiedEvent)
    → gate required missing event ≡ served e
    → Permitted required e
gate-Permitted false missing event e h = inl refl
gate-Permitted true true event e h = absurd (cc h)
gate-Permitted true false event e h = inr (if_verified-Permitted event.result event e refl h)

module _ {W R : Type 0} (sha256 : Bytes → Text) (verifier : Option (UpstreamVerifier W))
    (default : Bool) (Inv : ℕ → W → Type 0)
    (forward : W → PreparedUpstreamRequest → UpstreamVerifiedEvent → W × Attempt R)
    (required : PreparedUpstreamRequest → Bool)
    (counts : Counts W R Inv verifier forward required) where
  verified_by-Inv :
      (o : Option (UpstreamVerifier W)) (n : ℕ) (w : W) (prepared : PreparedUpstreamRequest)
      (r : Bool)
      → verifier ≡ o
      → Inv n w
      → Inv n (verified_by sha256 verifier default o w prepared r).0
  verified_by-Inv none n w prepared r e i = i
  verified_by-Inv (some v) n w prepared r e i = counts.verifies v e n w _ i

  pub recorded_upstream_event-Inv :
      (n : ℕ) (w : W) (prepared : PreparedUpstreamRequest) (ur : Option Bool)
      (event : Option UpstreamVerifiedEvent)
      → Inv n w
      → Inv n (recorded_upstream_event sha256 verifier default w prepared ur event).0
  unfolding recorded_upstream_event
  recorded_upstream_event-Inv n w prepared ur none i =
      verified_by-Inv verifier n w prepared (or_default ur default) refl i
  recorded_upstream_event-Inv n w prepared ur (some event) i = i

  verified_by-Permitted :
      (o : Option (UpstreamVerifier W)) (w : W) (prepared : PreparedUpstreamRequest) (r : Bool)
      (e : UpstreamVerifiedEvent)
      → (verified_by sha256 verifier default o w prepared r).1 ≡ served e
      → Permitted r e
  verified_by-Permitted none w prepared r e h =
      gate-Permitted r true (unverified_event prepared r) e h
  verified_by-Permitted (some v) w prepared r e h = gate-Permitted r false _ e h

  pub recorded_upstream_event-Permitted :
      (w : W) (prepared : PreparedUpstreamRequest) (ur : Option Bool)
      (event : Option UpstreamVerifiedEvent) (e : UpstreamVerifiedEvent)
      → (recorded_upstream_event sha256 verifier default w prepared ur event).1 ≡ served e
      → Permitted (or_default ur default) e
  unfolding recorded_upstream_event
  recorded_upstream_event-Permitted w prepared ur none e h =
      verified_by-Permitted verifier w prepared (or_default ur default) e h
  recorded_upstream_event-Permitted w prepared ur (some event) e h =
      gate-Permitted (or_default ur default) false _ e h

  invalidated_by-Inv :
      (o : Option (UpstreamVerifier W)) (n : ℕ) (w : W) (prepared : PreparedUpstreamRequest)
      (r : Bool)
      → verifier ≡ o
      → Inv n w
      → Inv n (invalidated_by sha256 verifier default o w prepared r)
  invalidated_by-Inv none n w prepared r e i = i
  invalidated_by-Inv (some v) n w prepared r e i = counts.invalidates v e n w _ i

  invalidate-Inv :
      (n : ℕ) (w : W) (prepared : PreparedUpstreamRequest) (ur : Option Bool)
      → Inv n w
      → Inv n (invalidate_upstream_event sha256 verifier default w prepared ur)
  unfolding invalidate_upstream_event
  invalidate-Inv n w prepared ur i = invalidated_by-Inv verifier n w prepared _ refl i

  refresh-Inv :
      (n : ℕ) (w : W) (prepared : PreparedUpstreamRequest) (ur : Option Bool)
      → Inv n w
      → Inv n (refresh_upstream_event sha256 verifier default w prepared ur).0
  unfolding refresh_upstream_event
  refresh-Inv n w prepared ur i =
      recorded_upstream_event-Inv n _ prepared (some (or_default ur default)) none
        (invalidate-Inv n w prepared (some (or_default ur default)) i)

  refresh-Permitted :
      (w : W) (prepared : PreparedUpstreamRequest) (ur : Option Bool) (e : UpstreamVerifiedEvent)
      → (refresh_upstream_event sha256 verifier default w prepared ur).1 ≡ served e
      → Permitted (or_default ur default) e
  unfolding refresh_upstream_event
  refresh-Permitted w prepared ur e h =
      recorded_upstream_event-Permitted _ prepared (some (or_default ur default)) none e h

  module _ (prepared : PreparedUpstreamRequest) (ur : Option Bool)
      (mode : or_default ur default ≡ required prepared) (caller always : Bool) where
    flushed-Inv :
        (n : ℕ) (w : W)
        → Inv n w
        → Inv n (flushed sha256 verifier default forward prepared ur caller always w)
    flushed-Inv n w i = elim (Bool-cases (always || not caller)) [
      | inl e ↦ rw e (invalidate-Inv n w prepared ur i)
      | inr e ↦ rw e i
    ]

    settled-AtMost :
        (k n : ℕ) (again : Option (W → Left W R)) (event : UpstreamVerifiedEvent)
        (p : W × Attempt R)
        → n ≤ k
        → Inv n p.0
        → ((f : W → Left W R) → again ≡ some f → (w : W) → Inv n w → AtMost Inv k (f w).0)
        → AtMost Inv k
            (settled sha256 verifier default forward prepared ur caller always again event p).0
    settled-AtMost k n again event (w, response r) le i h = (n, le, i)
    settled-AtMost k n (some f) event (w, not_forwarded (channel_binding_mismatch m)) le i h =
        h f refl w i
    settled-AtMost k n none event (w, not_forwarded (channel_binding_mismatch m)) le i h =
        (n, le, flushed-Inv n w i)
    settled-AtMost k n again event (w, not_forwarded (routing m)) le i h = (n, le, i)
    settled-AtMost k n again event (w, not_forwarded (transport m)) le i h = (n, le, i)
    settled-AtMost k n again event (w, not_forwarded (rejected status body)) le i h = (n, le, i)

    refreshed-AtMost :
        (k n : ℕ) (next : UpstreamVerifiedEvent → W → Left W R) (event : UpstreamVerifiedEvent)
        (p : W × Served UpstreamVerifiedEvent)
        → n ≤ k
        → Inv n p.0
        → ((e : UpstreamVerifiedEvent) → p.1 ≡ served e → AtMost Inv k (next e p.0).0)
        → AtMost Inv k
            (refreshed sha256 verifier default forward prepared ur caller always next event p).0
    refreshed-AtMost k n next event (w, served e) le i h = h e refl
    refreshed-AtMost k n next event (w, failing x) le i h = (n, le, i)

    more : (n left : ℕ) → suc n ≤ n + suc (suc left)
    more n left = omega arith

    later :
        (n left : ℕ) {w : W} → AtMost Inv (suc n + suc left) w → AtMost Inv (n + suc (suc left)) w
    later n left (m, le, i) = (m, omega (arith, le), i)

    reverify_loop-AtMost :
        (left n : ℕ) (event : UpstreamVerifiedEvent) (w : W)
        → Permitted (required prepared) event
        → Inv n w
        → AtMost Inv
            (n + suc left)
            (reverify_loop sha256 verifier default forward prepared ur caller always left event w).0
    unfolding reverify_loop
    reverify_loop-AtMost zero n event w p i =
        settled-AtMost (n + 1) (suc n) none event (forward w prepared event) (omega arith)
          (counts.forwards n w prepared event p i) (λ f e. absurd (cc e))
    reverify_loop-AtMost (suc left) n event w p i =
        let loop = reverify_loop sha256 verifier default forward prepared ur caller always left in
        let round : W → Left W R = λ w'.
          refreshed sha256 verifier default forward prepared ur caller always loop event
            (refresh_upstream_event sha256 verifier default w' prepared ur) in
        settled-AtMost (n + suc (suc left)) (suc n) (if caller then none else some round) event
          (forward w prepared event) (omega arith) (counts.forwards n w prepared event p i)
          (λ f e w' i'.
            subst (λ (g : W → Left W R). AtMost Inv (n + suc (suc left)) (g w').0)
              (unless-some caller round f e)
              (refreshed-AtMost (n + suc (suc left)) (suc n) loop event
                (refresh_upstream_event sha256 verifier default w' prepared ur) (more n left)
                (refresh-Inv (suc n) w' prepared ur i')
                (λ e' eq. later n left (
                  reverify_loop-AtMost left (suc n) e' _
                    (subst (λ b. Permitted b e') mode (refresh-Permitted w' prepared ur e' eq))
                    (refresh-Inv (suc n) w' prepared ur i')))))

    -- One forward of a candidate is at most three calls of its upstream.
    pub forward_with_binding_reverify-AtMost :
        (n : ℕ) (event : UpstreamVerifiedEvent) (w : W)
        → Permitted (required prepared) event
        → Inv n w
        → AtMost Inv
            (n + 3)
            (forward_with_binding_reverify sha256 verifier default forward prepared ur caller always
              event w).0
    unfolding forward_with_binding_reverify
    forward_with_binding_reverify-AtMost n event w p i = reverify_loop-AtMost 2 n event w p i
