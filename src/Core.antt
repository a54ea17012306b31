-- ===== src/Core.antt =====
-- internal/core/models.go: the health states, and their comparison.
use gitops_dashboard.Prelude.{◌≡◌, refl, arith, Bool, true, false}
use gitops_dashboard.Prelude.Text.{Text, codes}

pub data HealthState : Type 0 where
  healthy degraded unhealthy unknown error not_applicable : HealthState

-- `state == HealthNotApplicable`.
abbrev pub is_not_applicable : HealthState → Bool
is_not_applicable HealthState.not_applicable = true
is_not_applicable HealthState.healthy = false
is_not_applicable HealthState.degraded = false
is_not_applicable HealthState.unhealthy = false
is_not_applicable HealthState.unknown = false
is_not_applicable HealthState.error = false

-- The string of a health state.
abbrev pub health_text : HealthState → Text
health_text HealthState.healthy = codes "healthy"
health_text HealthState.degraded = codes "degraded"
health_text HealthState.unhealthy = codes "unhealthy"
health_text HealthState.unknown = codes "unknown"
health_text HealthState.error = codes "error"
health_text HealthState.not_applicable = codes "not_applicable"

-- `a == b` on health states.
abbrev pub health_eq : HealthState → HealthState → Bool
health_eq HealthState.healthy HealthState.healthy = true
health_eq HealthState.degraded HealthState.degraded = true
health_eq HealthState.unhealthy HealthState.unhealthy = true
health_eq HealthState.unknown HealthState.unknown = true
health_eq HealthState.error HealthState.error = true
health_eq HealthState.not_applicable HealthState.not_applicable = true
health_eq _ _ = false

pub health_eq→eq : (a b : HealthState) → health_eq a b ≡ true → a ≡ b
health_eq→eq HealthState.healthy b h = ground arith
health_eq→eq HealthState.degraded b h = ground arith
health_eq→eq HealthState.unhealthy b h = ground arith
health_eq→eq HealthState.unknown b h = ground arith
health_eq→eq HealthState.error b h = ground arith
health_eq→eq HealthState.not_applicable b h = ground arith

pub health_eq_refl : (a : HealthState) → health_eq a a ≡ true
health_eq_refl HealthState.healthy = refl
health_eq_refl HealthState.degraded = refl
health_eq_refl HealthState.unhealthy = refl
health_eq_refl HealthState.unknown = refl
health_eq_refl HealthState.error = refl
health_eq_refl HealthState.not_applicable = refl
