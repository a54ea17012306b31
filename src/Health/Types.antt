-- ===== src/Health/Types.antt =====
-- The rows that the health alert producer of internal/storage/status.go reads and writes. Times and
-- durations are nanoseconds; 0 is the zero time and a duration that is not positive. A text of a
-- time that may be empty is an option.
use gitops_dashboard.Prelude.{ℕ, Bool, List, Option}
use gitops_dashboard.Prelude.Text.{Text}
use gitops_dashboard.Core.{HealthState}
use gitops_dashboard.Alerts.Types.{AlertError, Store}

-- The columns of `status_results` that the producer reads.
pub record StatusRow : Type 0 where
  pub service_id : Text
  pub target : Text
  pub health : HealthState
  pub checked_at : ℕ

-- The columns of `services` that the producer reads.
pub record ServiceRow : Type 0 where
  pub id : Text
  pub incarnation : Text

-- A row of `health_alert_states`.
pub record HealthAlertState : Type 0 where
  pub service_id : Text
  pub stable : HealthState
  pub candidate : HealthState
  pub samples : ℕ
  pub candidate_started : Option ℕ
  pub candidate_observation : Text
  pub failure_started : Option ℕ
  pub incarnation : Text

pub record HealthAlertConfig : Type 0 where
  pub enabled : Bool
  pub sinks : List Text
  pub debounce : ℕ
  pub cooldown : ℕ
  pub stability_samples : ℕ

-- The texts of package time: a time in the layout RFC3339Nano, and the time from a start to an
-- end, rounded to seconds.
pub record Formats : Type 0 where
  pub timestamp : ℕ → Text
  pub elapsed : ℕ → ℕ → Text

-- The parts of the database that the producer uses.
pub record HealthStore : Type 0 where
  pub alerts : Store
  pub services : List ServiceRow
  pub statuses : List StatusRow
  pub states : List HealthAlertState

pub data HealthAlertError : Type 0 where
  not_enqueued : AlertError → HealthAlertError
  edge_not_persisted : HealthAlertError
