-- ===== src/Alerts/Policy/Bounds.antt =====
-- The backoff is the doubled interval, capped, and never overflows.
use Prim.Native.Nat.{min}
use native.Mathlib.Nat.{pow-suc}
use gitops_dashboard.Prelude.{ℕ, zero, suc, ◌*◌, ◌^◌, ◌≤◌, ◌≡◌, arith}
use gitops_dashboard.Alerts.Policy.{AlertRetryPolicy, normalized, backoff, backoff_loop}

pow_pos : (r : ℕ) → 1 ≤ 2 ^ r
pow_pos zero = omega arith
pow_pos (suc r) = omega (arith, pow_pos r, pow-suc 2 r)

double_pow : (i r : ℕ) → i * 2 ^ suc r ≡ i * 2 * 2 ^ r
double_pow i r = rw pow-suc (omega arith)

le-mul_pow : (i r : ℕ) → i ≤ i * 2 ^ r
le-mul_pow i r = grind (arith, pow_pos r)

pub backoff_loop-eq-min :
    (rounds longest interval : ℕ)
    → backoff_loop rounds longest interval ≡ min longest (interval * 2 ^ rounds)
unfolding backoff_loop
backoff_loop-eq-min zero longest interval = ground arith
backoff_loop-eq-min (suc r) longest interval = ground (
  arith,
  backoff_loop-eq-min r longest (interval * 2),
  double_pow interval r,
  le-mul_pow (interval * 2) r,
)

-- Normalising gives a policy whose numbers are positive and in order.
pub normalized_lem :
    (p : AlertRetryPolicy)
    → (1 ≤ (normalized p).max_attempts)
      × (1 ≤ (normalized p).initial_interval)
      × ((normalized p).initial_interval ≤ (normalized p).max_interval)
unfolding normalized
normalized_lem p = ground arith

-- Normalising twice is normalising once.
pub normalized_idem : (p : AlertRetryPolicy) → normalized (normalized p) ≡ normalized p
unfolding normalized
normalized_idem p = ground arith

-- The backoff after attempts + 1 attempts is the initial interval doubled that many times less
-- one, or the longest interval where that is shorter.
pub backoff-eq-min :
    (p : AlertRetryPolicy) (attempts : ℕ)
    → backoff p (suc attempts)
      ≡ min (normalized p).max_interval ((normalized p).initial_interval * 2 ^ attempts)
unfolding backoff
backoff-eq-min p zero = ground (arith, normalized_lem p)
backoff-eq-min p (suc attempts) = ground (
  arith,
  backoff_loop-eq-min (suc attempts) (normalized p).max_interval (normalized p).initial_interval,
)

-- The backoff never falls from one attempt to the next, and lies between the initial and the
-- longest interval.
pub backoff_mono :
    (p : AlertRetryPolicy) (attempts : ℕ)
    → (backoff p (suc attempts) ≤ backoff p (suc (suc attempts)))
      × (backoff p (suc (suc attempts)) ≤ (normalized p).max_interval)
      × ((normalized p).initial_interval ≤ backoff p (suc attempts))
backoff_mono p attempts = omega (
  arith,
  backoff-eq-min p attempts,
  backoff-eq-min p (suc attempts),
  double_pow (normalized p).initial_interval attempts,
  le-mul_pow (normalized p).initial_interval attempts,
  normalized_lem p,
)
