-- ===== src/Router/Accounting/Counts.antt =====
-- The running count of a route is the number of the guards that hold it.
use phala_llm_router.Base.{
  ℕ, ◌+◌, ◌<◌, ◌≤◌, List, [], ◌∷◌, Option, none, some, Text, u64_mod, text_eq, text_eq_iff, length,
  ◌≡◌, refl, ap, ◌∙◌, arith, Option-cases, Bool-cases, inl, inr, length-append,
}
use phala_llm_router.Dict
use phala_llm_router.Dict.{get-insert, get-adjust, get-retain}
use phala_llm_router.Router.Types.{Floats}
use phala_llm_router.Router.InFlight.{
  System, Event, starts, retargets, drops, selects, polls, forgets, stats_of, decrement_running,
  retarget, step, run, idle, get_elem?, held, retarget_held, drop_held, update_upstream_metrics,
  retain_upstream_metrics,
}
use phala_llm_router.Router.Accounting.{
  running, holders, holders-append, holders-set, length-set, holders-le-length,
  running-mark_started, running-decrement, running-increment, running-select,
}

-- Every route's running count is the number of guards that hold it.
abbrev Counts : System → Type 0
Counts y = (q : Text) → running y.state q ≡ holders q y.guards

held-some : (g : Option (Option Text)) (r : Text) → held g ≡ some r → g ≡ some (some r)
held-some none r h = absurd (cc h)
held-some (some none) r h = absurd (cc h)
held-some (some (some t)) r h = ap some h

drop-Counts :
    (y : System) (i : ℕ) (r : Text)
    → get_elem? y.guards i ≡ some (some r)
    → Counts y
    → Counts (drop_held y i (some r))
drop-Counts y i r e h q =
    ground (arith, running-decrement y.state r q, holders-set q y.guards i (some r) none e, h q)

retarget-Counts :
    (y : System) (i : ℕ) (p r : Text)
    → get_elem? y.guards i ≡ some (some p)
    → length y.guards + 1 < u64_mod
    → Counts y
    → Counts (retarget_held y i r (some p))
unfolding retarget
retarget-Counts y i p r e small h q = elim (Bool-cases (text_eq p r)) [
  | inl same ↦
      rw (same, retarget)
        (ground
          (arith, (text_eq_iff p r).0 same, holders-set q y.guards i (some p) (some r) e, h q))
  | inr other ↦
      rw (other, retarget)
        (ground (
          arith,
          text_eq_iff p r,
          running-increment (decrement_running y.state p) r q,
          running-decrement y.state p q,
          running-decrement y.state p r,
          holders-set q y.guards i (some p) (some r) e,
          holders-le-length r y.guards,
          h q,
          h r,
        ))
]

module _ (fl : Floats) where
  step-Counts :
      (y : System) (e : Event) → length y.guards + 1 < u64_mod → Counts y → Counts (step fl y e)
  unfolding step
  step-Counts y (starts s) small h q = ground (
    arith,
    running-mark_started y.state s q,
    holders-append q y.guards (some s.route_id),
    holders-le-length s.route_id y.guards,
    h q,
    h s.route_id,
  )
  step-Counts y (selects config tier now model text rs) small h q =
      running-select fl config tier now y.state model text q rs ∙ h q
  step-Counts y (polls name m) small h q = unfold running stats_of update_upstream_metrics in h q
  step-Counts y (forgets names) small h q = unfold running stats_of retain_upstream_metrics in h q
  step-Counts y (drops i) small h q = elim (Option-cases (held (get_elem? y.guards i))) [
    | inl e ↦ rw (e, drop_held) (h q)
    | inr (r, e) ↦ rw (e, drop_held) (drop-Counts y i r (held-some _ r e) h q)
  ]
  step-Counts y (retargets i r) small h q = elim (Option-cases (held (get_elem? y.guards i))) [
    | inl e ↦ rw (e, retarget_held) (h q)
    | inr (p, e) ↦ rw (e, retarget_held) (retarget-Counts y i p r (held-some _ p e) small h q)
  ]

  step-length : (y : System) (e : Event) → length (step fl y e).guards ≤ length y.guards + 1
  unfolding step
  step-length y (starts s) = omega (arith, length-append y.guards (some s.route_id ∷ []))
  step-length y (drops i) = elim (Option-cases (held (get_elem? y.guards i))) [
    | inl e ↦ rw (e, drop_held) (omega arith)
    | inr (r, e) ↦ rw (e, drop_held) (omega (arith, length-set y.guards i none))
  ]
  step-length y (retargets i r) = elim (Option-cases (held (get_elem? y.guards i))) [
    | inl e ↦ rw (e, retarget_held) (omega arith)
    | inr (p, e) ↦ rw (e, retarget_held) (omega (arith, length-set y.guards i (some r)))
  ]
  step-length y _ = omega arith

  run-Counts :
      (es : List Event) (y : System)
      → length y.guards + length es < u64_mod
      → Counts y
      → Counts (run fl y es)
  unfolding run
  run-Counts [] y small h = h
  run-Counts (e ∷ es) y small h =
      run-Counts es (step fl y e) (omega (arith, step-length y e)) (step-Counts y e (omega arith) h)

  -- After any fewer than 2^64 events (requests that start, are retargeted and end, in any order and
  -- interleaved with selections and polls), the running count of every route is the number of
  -- guards that hold it: none is lost, and none is counted twice.
  pub running-holders :
      (es : List Event) (q : Text)
      → length es < u64_mod
      → running (run fl idle es).state q ≡ holders q (run fl idle es).guards
  unfolding running stats_of holders Dict.get
  running-holders es q small = run-Counts es idle (omega arith) (λ k. refl) q
