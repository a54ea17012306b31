-- ===== src/Health/Spec.antt =====
-- What the health alerts promise: a change of health is reported when enough distinct observations
-- in a row agree on it, over a long enough time.
use gitops_dashboard.Prelude.{
  ℕ, ◌+◌, ◌-◌, Bool, false, not, ◌&&◌, ◌||◌, List, [], ◌∷◌, Option, none, some, leb, ◌==◌,
  if◌then◌else◌,
}
use gitops_dashboard.Prelude.Text.{text_eq}
use gitops_dashboard.Core.{HealthState, health_eq, is_not_applicable}
use gitops_dashboard.Health.Machine.{Observation}

-- The reported health, and the observations since then that agree on another, the newest first.
pub record Promise : Type 0 where
  pub reported : HealthState
  pub streak : List Observation

-- How often the observation changes along a streak, counting its first one.
unfoldable pub distinct_in : List Observation → ℕ
distinct_in [] = 0
distinct_in (o ∷ []) = 1
distinct_in (o ∷ p ∷ rest) = distinct_in (p ∷ rest) + (if text_eq p.id o.id then 0 else 1)

-- The time of the first observation of a streak.
unfoldable pub streak_start : List Observation → Option ℕ
streak_start [] = none
streak_start (o ∷ []) = some o.at
streak_start (o ∷ p ∷ rest) = streak_start (p ∷ rest)

-- A streak goes on with an observation that agrees, and starts again with another.
unfoldable pub extend : Observation → List Observation → List Observation
extend o [] = o ∷ []
extend o (p ∷ rest) = if health_eq p.rollup o.rollup then o ∷ p ∷ rest else o ∷ []

-- A streak that lasts; the zero time is no start.
unfoldable pub lasts : ℕ → ℕ → Option ℕ → Bool
lasts debounce at none = debounce == 0
lasts debounce at (some started) =
    debounce == 0 || (not (started == 0) && leb started at && leb debounce (at - started))

-- Whether an observation confirms a change.
unfoldable pub confirms : ℕ → ℕ → Observation → List Observation → Bool
unfolding distinct_in streak_start lasts
confirms samples debounce o streak =
    leb samples (distinct_in streak) && lasts debounce o.at (streak_start streak)

-- Whether an observation is a change to report.
unfoldable pub reports : ℕ → ℕ → Observation → Promise → Bool
unfolding extend confirms
reports samples debounce o p =
    if is_not_applicable o.rollup
    then false
    else if health_eq p.reported o.rollup
    then false
    else confirms samples debounce o (extend o p.streak)

-- One observation, where `accepted` tells whether a report of it was stored.
unfoldable pub promise_step : ℕ → ℕ → Bool → Observation → Promise → Promise
unfolding extend confirms
promise_step samples debounce accepted o p =
    if is_not_applicable o.rollup
    then p
    else if health_eq p.reported o.rollup
    then record { reported = p.reported; streak = [] }
    else if not (confirms samples debounce o (extend o p.streak))
    then record { reported = p.reported; streak = extend o p.streak }
    else if accepted
    then record { reported = o.rollup; streak = [] }
    else p
