-- ===== src/Checks/Health.antt =====
-- The theorems on the health alerts of internal/storage/status.go at concrete inputs.
use gitops_dashboard.Health.Latest.{latest_from}
use gitops_dashboard.Health.Newest.{Beats, latest_from-newest}
use gitops_dashboard.Health.Types.{StatusRow}
use gitops_dashboard.Prelude.{
  Distinct, All, Elem, inl, inr, ℕ, ◌≡◌, refl, true, false, List, [], ◌∷◌, none, some, arith,
}
use mathlib.Core.List.{Permᴰ}
use gitops_dashboard.Prelude.Text.{
  Text, codes, text_eq, trim_space, trim_left, trim_right, is_space, has_prefix, text_lt,
  insert_new,
}
use gitops_dashboard.Prelude.Rows.{find_where, select_where, order_by, exists_where, update_where}
use gitops_dashboard.Core.{HealthState}
use gitops_dashboard.Alerts.Types.{sinks_required}
use gitops_dashboard.Alerts.Invariant.{Consistent}
use gitops_dashboard.Alerts.Prepare.{
  is_locked, unless, prepare_event, clean, proceed, prepare_sinks, prepare_sinks_from, with_key,
  key_problem, validate_sink_identity, alert_dedupe_hash,
}
use gitops_dashboard.Alerts.Enqueue.{
  enqueue_in_tx, enqueue_problem, enqueue_prepared, pending_row, cooldown_row, store_unless_cooling,
  store_event, insert_event, ensure_dispatches, stamp,
}
use gitops_dashboard.Sanitizer.{
  redact, redactor_redact, replace_tokens, normalize_tokens, note_tokens, redact_url_userinfo,
  strip_from, url_match, run_of, is_letter, is_digit, is_word, in_scheme, in_userinfo, in_host,
  is_blank, flatten_lines,
}
use gitops_dashboard.Health.Types.{
  HealthAlertState, HealthAlertConfig, Formats, HealthStore, not_enqueued,
}
use gitops_dashboard.Health.Rollup.{aggregate_target_health}
use gitops_dashboard.Health.Order.{aggregate_target_health-order}
use gitops_dashboard.Health.Produce.{
  observe, is_of, incarnation_of, produce_health_alert, produce_observed,
}
use gitops_dashboard.Health.Spec.{Promise, reports, promise_step, lasts, distinct_in, streak_start}
use gitops_dashboard.Health.Stored.{Stored, succeeded}
use gitops_dashboard.Health.Promised.{produce_health_alert-promise, produce_health_alert-quiet}
use gitops_dashboard.Health.Failures.{produce_health_alert-fails, produce_health_alert-Consistent}
use gitops_dashboard.Health.Live.{Call, observed, run_calls, Smooth, run_calls-reports}
use gitops_dashboard.Prelude.{◌++◌, ◌==◌, if◌then◌else◌}
use gitops_dashboard.Checks.Samples.{
  sample_hashes, sample_env, no_tables, sample_store, no_tables-Consistent,
}

abbrev formats : Formats
formats = record { timestamp = λ t. b'T' ∷ []; elapsed = λ s t. b'E' ∷ [] }

abbrev config : ℕ → List Text → HealthAlertConfig
config samples sinks = record {
  enabled = true;
  sinks = sinks;
  debounce = 0;
  cooldown = 0;
  stability_samples = samples;
}

abbrev service : Text
service = codes "s"

abbrev healthy_row : HealthAlertState
healthy_row = record {
  service_id = service;
  stable = HealthState.healthy;
  candidate = HealthState.healthy;
  samples = 0;
  candidate_started = none;
  candidate_observation = [];
  failure_started = none;
  incarnation = codes "legacy:s";
}

-- A service that was healthy, and of which a target fails.
abbrev failing : HealthStore
failing = record {
  alerts = sample_store no_tables;
  services = [];
  statuses =
      record {
        service_id = service;
        target = codes "t";
        health = HealthState.unhealthy;
        checked_at = 500;
      }
      ∷ [];
  states = healthy_row ∷ [];
}

abbrev was_healthy : Promise
was_healthy = record { reported = HealthState.healthy; streak = [] }

failing-Stored : Stored failing service was_healthy
unfolding find_where text_eq incarnation_of distinct_in streak_start
failing-Stored = record {
  row = healthy_row;
  found = refl;
  current = refl;
  represents = record {
    same_stable = refl;
    same_candidate = refl;
    same_samples = refl;
    same_observation = refl;
    same_start = refl;
  };
}

unlocked : is_locked failing.alerts ≡ false
unfolding is_locked
unlocked = refl

produce_health_alert-promise_example :
    Stored
      (produce_health_alert sample_hashes formats
        (config 1 (service ∷ []))
        sample_env
        service
        600
        failing).0
      service
      (promise_step 1 0
        (succeeded
          (produce_health_alert sample_hashes formats
            (config 1 (service ∷ []))
            sample_env
            service
            600
            failing).1)
        (observe formats failing.statuses service 600)
        was_healthy)
produce_health_alert-promise_example =
    produce_health_alert-promise sample_hashes formats (config 1 (service ∷ [])) sample_env service
      600 was_healthy failing refl unlocked failing-Stored

too_early : reports 2 0 (observe formats failing.statuses service 600) was_healthy ≡ false
unfolding reports observe select_where text_eq
too_early = refl

produce_health_alert-quiet_example :
    ((produce_health_alert sample_hashes formats
        (config 2 (service ∷ []))
        sample_env
        service
        600
        failing).0.alerts
      ≡ sample_store no_tables)
    × ((produce_health_alert sample_hashes formats
          (config 2 (service ∷ []))
          sample_env
          service
          600
          failing).1
        ≡ none)
produce_health_alert-quiet_example =
    produce_health_alert-quiet sample_hashes formats (config 2 (service ∷ [])) sample_env service
      600 was_healthy failing refl unlocked failing-Stored too_early

refused :
    (produce_health_alert sample_hashes formats (config 1 []) sample_env service 600 failing).1
    ≡ some (not_enqueued sinks_required)
unfolding produce_health_alert produce_observed is_locked find_where text_eq select_where
    enqueue_in_tx unless enqueue_problem prepare_event clean trim_space trim_left trim_right
    is_space redact redactor_redact replace_tokens normalize_tokens order_by note_tokens
    redact_url_userinfo strip_from url_match run_of is_letter is_digit is_word in_scheme in_userinfo
    in_host is_blank has_prefix flatten_lines proceed prepare_sinks prepare_sinks_from text_lt
    exists_where update_where
refused = refl

produce_health_alert-fails_example :
    ((produce_health_alert sample_hashes formats
        (config 1 [])
        sample_env
        service
        600
        failing).0.states
      ≡ healthy_row ∷ [])
    × ((produce_health_alert sample_hashes formats
          (config 1 [])
          sample_env
          service
          600
          failing).0.alerts.tables
        ≡ no_tables)
produce_health_alert-fails_example =
    produce_health_alert-fails sample_hashes formats (config 1 []) sample_env service 600 failing
      (not_enqueued sinks_required) refused

produce_health_alert-Consistent_example :
    Consistent
      (produce_health_alert sample_hashes formats
        (config 1 (service ∷ []))
        sample_env
        service
        600
        failing).0.alerts.tables
produce_health_alert-Consistent_example =
    produce_health_alert-Consistent sample_hashes formats (config 1 (service ∷ [])) sample_env
      service 600 failing no_tables-Consistent

abbrev failed_status : ℕ → StatusRow
failed_status checked_at = record {
  service_id = service;
  target = codes "t";
  health = HealthState.unhealthy;
  checked_at = checked_at;
}

-- Texts that tell the check at 500 from the others.
abbrev ticking : Formats
ticking = record { timestamp = λ t. if t == 500 then b'T' ∷ [] else b'U' ∷ []; elapsed = λ s t. [] }

-- Two calls, with a check of the target before each.
abbrev call_at : ℕ → ℕ → Call
call_at checked_at at = record {
  env = sample_env;
  at = at;
  statuses = failed_status checked_at ∷ [];
  alerts = sample_store no_tables;
}

all_stored :
    Smooth sample_hashes ticking
      (config 2 (service ∷ []))
      service
      (call_at 500 600 ∷ call_at 650 700 ∷ [])
      failing
unfolding Smooth produce_health_alert observe produce_observed is_locked find_where text_eq
    select_where enqueue_in_tx unless enqueue_problem prepare_event clean trim_space trim_left
    trim_right is_space redact redactor_redact replace_tokens normalize_tokens order_by note_tokens
    redact_url_userinfo strip_from url_match run_of is_letter is_digit is_word in_scheme in_userinfo
    in_host is_blank has_prefix flatten_lines proceed prepare_sinks prepare_sinks_from text_lt
    exists_where update_where with_key key_problem enqueue_prepared pending_row cooldown_row
    store_unless_cooling store_event insert_event ensure_dispatches validate_sink_identity
    insert_new stamp alert_dedupe_hash gitops_dashboard.Prelude.Strings.join
all_stored = (refl, refl, (refl, refl, tt))

run_calls-reports_example :
    (row : HealthAlertState) × (find_where
        (is_of service)
        (run_calls sample_hashes ticking
          (config 2 (service ∷ []))
          service
          (call_at 500 600 ∷ call_at 650 700 ∷ [])
          failing).states
      ≡ some row)
    × (row.stable ≡ (observed ticking service (call_at 500 600)).rollup)
unfolding observe select_where text_eq lasts gitops_dashboard.Prelude.Strings.join order_by
run_calls-reports_example =
    run_calls-reports sample_hashes ticking (config 2 (service ∷ [])) service (call_at 500 600)
      (call_at 650 700 ∷ []) failing was_healthy refl failing-Stored refl refl refl (refl, refl, tt)
      (omega arith) refl all_stored

aggregate_target_health-order_example :
    aggregate_target_health
      (HealthState.healthy ∷ HealthState.error ∷ HealthState.not_applicable ∷ [])
    ≡ aggregate_target_health
        (HealthState.error ∷ HealthState.healthy ∷ HealthState.not_applicable ∷ [])
aggregate_target_health-order_example =
    aggregate_target_health-order
      (HealthState.healthy ∷ HealthState.error ∷ HealthState.not_applicable ∷ [])
      (HealthState.error ∷ HealthState.healthy ∷ HealthState.not_applicable ∷ [])
      (Permᴰ.swap refl refl)

abbrev row_at : HealthState → ℕ → StatusRow
row_at health checked_at = record {
  service_id = service;
  target = codes "t";
  health = health;
  checked_at = checked_at;
}

-- A healthy and an unhealthy status of the same time, and an older one.
abbrev three_rows : List StatusRow
three_rows =
    row_at HealthState.error 400
    ∷ row_at HealthState.healthy 500
    ∷ row_at HealthState.unhealthy 500
    ∷ []

latest_from-newest_example :
    Distinct (λ r. r.target) (latest_from service [] three_rows)
    × All (λ r. Elem r three_rows × (r.service_id ≡ service)) (latest_from service [] three_rows)
    × ((r : StatusRow) × Elem r (latest_from service [] three_rows)
        × (r.target ≡ codes "t")
        × Beats r (row_at HealthState.healthy 500))
latest_from-newest_example =
    latest_from-newest service three_rows (row_at HealthState.healthy 500) (inr (inl refl)) refl
