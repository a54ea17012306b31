-- ===== src/Alerts/Policy.antt =====
-- `AlertRetryPolicy`: its defaults and its exponential backoff.
pub mod Bounds
use gitops_dashboard.Prelude.{ℕ, zero, suc, ◌*◌, ◌/◌, ◌-◌, Bool, if◌then◌else◌, ltb, leb, ◌==◌}

pub record AlertRetryPolicy : Type 0 where
  pub max_attempts : ℕ
  pub initial_interval : ℕ
  pub max_interval : ℕ

abbrev pub default_max_attempts : ℕ
default_max_attempts = 3

abbrev pub default_initial_interval : ℕ
default_initial_interval = 10_000_000_000

abbrev pub default_max_interval : ℕ
default_max_interval = 300_000_000_000

unfoldable pub default_policy : AlertRetryPolicy
default_policy = record {
  max_attempts = default_max_attempts;
  initial_interval = default_initial_interval;
  max_interval = default_max_interval;
}

abbrev or_default : ℕ → ℕ → ℕ
or_default n d = if n == 0 then d else n

unfoldable pub normalized : AlertRetryPolicy → AlertRetryPolicy
normalized policy =
    let attempts = or_default policy.max_attempts default_max_attempts in
    let initial = or_default policy.initial_interval default_initial_interval in
    let longest = or_default policy.max_interval default_max_interval in
    record {
      max_attempts = attempts;
      initial_interval = initial;
      max_interval = if ltb longest initial then initial else longest;
    }

-- The loop of `backoff`, over the rounds that are left; the tests return early.
unfoldable pub backoff_loop : ℕ → ℕ → ℕ → ℕ
backoff_loop zero longest interval = if ltb longest interval then longest else interval
backoff_loop (suc rounds) longest interval =
    let rest = backoff_loop rounds longest (interval * 2) in
    if leb longest interval then longest else if ltb (longest / 2) interval then longest else rest

unfoldable pub backoff : AlertRetryPolicy → ℕ → ℕ
backoff policy attempts =
    let p = normalized policy in
    if leb attempts 1
    then p.initial_interval
    else backoff_loop (attempts - 1) p.max_interval p.initial_interval
