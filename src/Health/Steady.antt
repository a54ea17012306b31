-- ===== src/Health/Steady.antt =====
-- A streak that lasts is reported.
use gitops_dashboard.Prelude.{
  ℕ, ◌+◌, ◌≤◌, ◌≡◌, refl, sym, ◌∙◌, ap, true, false, List, [], ◌∷◌, if◌then◌else◌, arith, inl, inr,
  Bool-cases, length,
}
use gitops_dashboard.Prelude.Text.{Text, text_eq}
use gitops_dashboard.Core.{HealthState, health_eq, health_eq_refl, is_not_applicable}
use gitops_dashboard.Health.Machine.{Observation}
use gitops_dashboard.Health.Spec.{
  Promise, distinct_in, streak_start, extend, lasts, confirms, promise_step,
}

-- Observations of one rollup, each other than the one before it.
abbrev pub Steady : HealthState → Text → List Observation → Type 0
Steady rollup id [] = Unit
Steady rollup id (o ∷ os) = (o.rollup ≡ rollup) × (text_eq id o.id ≡ false) × Steady rollup o.id os

-- The time of the last observation.
abbrev pub last_time : Observation → List Observation → ℕ
last_time o [] = o.at
last_time o (p ∷ os) = last_time p os

-- The observations of a run whose reports are all stored.
unfoldable pub run_promise : ℕ → ℕ → List Observation → Promise → Promise
run_promise samples debounce [] p = p
run_promise samples debounce (o ∷ os) p =
    run_promise samples debounce os (promise_step samples debounce true o p)

promise_step-reported :
    (samples debounce : ℕ) (o : Observation) (p : Promise)
    → p.reported ≡ o.rollup
    → (promise_step samples debounce true o p).reported ≡ o.rollup
unfolding promise_step
promise_step-reported samples debounce o p same =
    let back : health_eq p.reported o.rollup ≡ true = rw same (health_eq_refl o.rollup) in
    elim (Bool-cases (is_not_applicable o.rollup)) [ inl e ↦ rw e same | inr e ↦ rw (e, back) same ]

run_promise-reported :
    (samples debounce : ℕ) (rollup : HealthState) (id : Text) (os : List Observation) (p : Promise)
    → p.reported ≡ rollup
    → Steady rollup id os
    → (run_promise samples debounce os p).reported ≡ rollup
unfolding run_promise
run_promise-reported samples debounce rollup id [] p same steady = same
run_promise-reported samples debounce rollup id (o ∷ os) p same steady =
    run_promise-reported samples debounce rollup o.id os (promise_step samples debounce true o p)
      (promise_step-reported samples debounce o p (same ∙ sym steady.0) ∙ steady.0) steady.2

-- An observation that is no confirmation extends the streak, one that is reports the rollup.
promise_step-extends :
    (samples debounce : ℕ) (o : Observation) (p : Promise)
    → is_not_applicable o.rollup ≡ false
    → health_eq p.reported o.rollup ≡ false
    → promise_step samples debounce true o p ≡ (
        if confirms samples debounce o (extend o p.streak)
        then record { reported = o.rollup; streak = [] }
        else record { reported = p.reported; streak = extend o p.streak })
unfolding promise_step
promise_step-extends samples debounce o p applies apart =
    elim (Bool-cases (confirms samples debounce o (extend o p.streak))) [
      | inl e ↦ rw (applies, apart, e) refl
      | inr e ↦ rw (applies, apart, e) refl
    ]

extend-agreed :
    (o q : Observation) (rest : List Observation)
    → q.rollup ≡ o.rollup
    → extend o (q ∷ rest) ≡ o ∷ q ∷ rest
unfolding extend
extend-agreed o q rest same =
    let agreed : health_eq q.rollup o.rollup ≡ true = rw same (health_eq_refl o.rollup) in
    rw agreed refl

distinct_in-fresh :
    (o q : Observation) (rest : List Observation)
    → text_eq q.id o.id ≡ false
    → distinct_in (o ∷ q ∷ rest) ≡ distinct_in (q ∷ rest) + 1
unfolding distinct_in
distinct_in-fresh o q rest fresh = rw fresh refl

streak_start-cons :
    (o q : Observation) (rest : List Observation)
    → streak_start (o ∷ q ∷ rest) ≡ streak_start (q ∷ rest)
unfolding streak_start
streak_start-cons o q rest = refl

pub run_promise-Steady :
    (samples debounce : ℕ) (p : Promise) (o : Observation) (rest os : List Observation)
    → extend o p.streak ≡ o ∷ rest
    → is_not_applicable o.rollup ≡ false
    → health_eq p.reported o.rollup ≡ false
    → Steady o.rollup o.id os
    → samples ≤ distinct_in (o ∷ rest) + length os
    → lasts debounce (last_time o os) (streak_start (o ∷ rest)) ≡ true
    → (run_promise samples debounce (o ∷ os) p).reported ≡ o.rollup
unfolding run_promise
run_promise-Steady samples debounce p o rest [] grown applies apart steady enough long =
    let confirmed : confirms samples debounce o (o ∷ rest) ≡ true =
      unfold confirms in ground arith in
    rw (promise_step-extends samples debounce o p applies apart, grown, confirmed) refl
run_promise-Steady samples debounce p o rest (next ∷ os) grown applies apart steady enough long =
    let (same, fresh, later) = steady in
    elim (Bool-cases (confirms samples debounce o (o ∷ rest))) [
      | inl confirmed ↦
          run_promise-reported samples debounce o.rollup o.id (next ∷ os)
            (promise_step samples debounce true o p)
            (rw (promise_step-extends samples debounce o p applies apart, grown, confirmed) refl)
            steady
      | inr early ↦
          let agreed = extend-agreed next o rest (sym same) in
          let after : Promise = record { reported = p.reported; streak = o ∷ rest } in
          let step : promise_step samples debounce true o p ≡ after =
            rw (promise_step-extends samples debounce o p applies apart, grown, early) refl in
          ap (λ x. (run_promise samples debounce (next ∷ os) x).reported) step
          ∙ run_promise-Steady samples debounce after next (o ∷ rest) os agreed (rw same applies)
              (rw same apart) (rw same later)
              (rw (distinct_in-fresh next o rest fresh) (omega (arith, enough)))
              (rw (streak_start-cons next o rest) long)
          ∙ same
    ]
