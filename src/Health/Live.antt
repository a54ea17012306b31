-- ===== src/Health/Live.antt =====
-- A change of health that lasts is reported.
use gitops_dashboard.Prelude.{
  ℕ, suc, ◌≤◌, ◌≡◌, refl, ◌∙◌, subst, true, false, List, [], ◌∷◌, none, some, arith, length,
}
use gitops_dashboard.Prelude.Text.{Text}
use gitops_dashboard.Core.{health_eq, is_not_applicable}
use gitops_dashboard.Alerts.Types.{Env, Hashes, Store}
use gitops_dashboard.Alerts.Prepare.{is_locked}
use gitops_dashboard.Health.Types.{
  StatusRow, HealthAlertState, HealthAlertConfig, Formats, HealthStore,
}
use gitops_dashboard.Health.Machine.{Observation}
use gitops_dashboard.Health.Produce.{is_of, observe, produce_health_alert}
use gitops_dashboard.Prelude.Rows.{find_where}
use gitops_dashboard.Health.Spec.{Promise, distinct_in, streak_start, extend, lasts, promise_step}
use gitops_dashboard.Health.Promised.{produce_health_alert-promise}
use gitops_dashboard.Health.Stored.{Stored, succeeded}
use gitops_dashboard.Health.Steady.{Steady, last_time, run_promise, run_promise-Steady}

-- A call of `produceHealthAlert`: its environment and time, and what the others have made of the
-- status rows and of the alert state before it.
pub record Call : Type 0 where
  pub env : Env
  pub at : ℕ
  pub statuses : List StatusRow
  pub alerts : Store

abbrev pub before_call : Call → HealthStore → HealthStore
before_call call store = record store { statuses = call.statuses; alerts = call.alerts }

-- `observeHealthAlert`: an error of `produceHealthAlert` is logged at most.
unfoldable pub observe_health_alert :
    Hashes → Formats → HealthAlertConfig → Env → Text → ℕ → HealthStore → HealthStore
unfolding produce_health_alert
observe_health_alert hashes formats config env service_id at store =
    (produce_health_alert hashes formats config env service_id at store).0

-- The calls for a service, one after the other.
unfoldable pub run_calls :
    Hashes → Formats → HealthAlertConfig → Text → List Call → HealthStore → HealthStore
unfolding observe_health_alert
run_calls hashes formats config service_id [] store = store
run_calls hashes formats config service_id (call ∷ calls) store =
    run_calls hashes formats config service_id calls (
      observe_health_alert hashes formats config call.env service_id call.at
        (before_call call store))

-- The alert state is not locked at a call of a run, and no call fails.
unfoldable pub Smooth :
    Hashes → Formats → HealthAlertConfig → Text → List Call → HealthStore → Type 0
Smooth hashes formats config service_id [] store = Unit
Smooth hashes formats config service_id (call ∷ calls) store =
    let r =
      produce_health_alert hashes formats config call.env service_id call.at
        (before_call call store) in
    (is_locked call.alerts ≡ false)
    × (r.1 ≡ none)
    × Smooth hashes formats config service_id calls r.0

-- What a call observes, and what the calls of a run do.
abbrev pub observed : Formats → Text → Call → Observation
observed formats service_id call = observe formats call.statuses service_id call.at

abbrev pub observations : Formats → Text → List Call → List Observation
observations formats service_id [] = []
observations formats service_id (call ∷ calls) =
    observed formats service_id call ∷ observations formats service_id calls

length-observations :
    (formats : Formats) (service_id : Text) (calls : List Call)
    → length (observations formats service_id calls) ≡ length calls
length-observations formats service_id [] = refl
length-observations formats service_id (call ∷ calls) =
    omega (arith, length-observations formats service_id calls)

-- The row of a service does not depend on the status rows and the alert state.
before_call-Stored :
    (call : Call) (store : HealthStore) (service_id : Text) (p : Promise)
    → Stored store service_id p
    → Stored (before_call call store) service_id p
before_call-Stored call store service_id p stored = record {
  row = stored.row;
  found = stored.found;
  current = stored.current;
  represents = stored.represents;
}

smooth_call :
    (hashes : Hashes) (formats : Formats) (config : HealthAlertConfig) (service_id : Text)
    (call : Call) (p : Promise) (store : HealthStore)
    → config.enabled ≡ true
    → is_locked call.alerts ≡ false
    → Stored store service_id p
    → (produce_health_alert hashes formats config call.env service_id call.at
        (before_call call store)).1
      ≡ none
    → Stored
        (produce_health_alert hashes formats config call.env service_id call.at
          (before_call call store)).0
        service_id
        (promise_step config.stability_samples config.debounce true
          (observed formats service_id call)
          p)
smooth_call hashes formats config service_id call p store enabled free stored quiet =
    let start = before_call call store in
    let r = produce_health_alert hashes formats config call.env service_id call.at start in
    subst
      (λ e. Stored r.0 service_id (
        promise_step config.stability_samples config.debounce (succeeded e)
          (observed formats service_id call) p))
      quiet
      (produce_health_alert-promise hashes formats config call.env service_id call.at p start
        enabled free (before_call-Stored call store service_id p stored))

run_calls-Stored :
    (hashes : Hashes) (formats : Formats) (config : HealthAlertConfig) (service_id : Text)
    (calls : List Call) (store : HealthStore) (p : Promise)
    → config.enabled ≡ true
    → Stored store service_id p
    → Smooth hashes formats config service_id calls store
    → Stored (run_calls hashes formats config service_id calls store) service_id (
        run_promise config.stability_samples config.debounce
          (observations formats service_id calls)
          p)
unfolding run_calls observe_health_alert Smooth run_promise
run_calls-Stored hashes formats config service_id [] store p enabled stored smooth = stored
run_calls-Stored hashes formats config service_id (call ∷ calls) store p enabled stored smooth =
    run_calls-Stored hashes formats config service_id calls
      (produce_health_alert hashes formats config call.env service_id call.at
        (before_call call store)).0
      (promise_step config.stability_samples config.debounce true (observed formats service_id call)
        p)
      enabled
      (smooth_call hashes formats config service_id call p store enabled smooth.0 stored smooth.1)
      smooth.2

-- Where alerts are enabled, the row of a service that stands for a reported health with no streak
-- becomes stable at another health that applies, by calls of produceHealthAlert, as many as
-- stability asks for, between which the status rows and the alert state change in any way: if the
-- status rows show that health at each call, each time with an observation other than the one
-- before, if the calls last the debounce, and if the alert state is not locked at any call and no
-- call fails.
pub run_calls-reports :
    (hashes : Hashes) (formats : Formats) (config : HealthAlertConfig) (service_id : Text)
    (call : Call) (calls : List Call) (store : HealthStore) (p : Promise)
    → config.enabled ≡ true
    → Stored store service_id p
    → p.streak ≡ []
    → is_not_applicable (observed formats service_id call).rollup ≡ false
    → health_eq p.reported (observed formats service_id call).rollup ≡ false
    → Steady
        (observed formats service_id call).rollup
        (observed formats service_id call).id
        (observations formats service_id calls)
    → config.stability_samples ≤ suc (length calls)
    → lasts config.debounce
        (last_time (observed formats service_id call) (observations formats service_id calls))
        (some call.at)
      ≡ true
    → Smooth hashes formats config service_id (call ∷ calls) store
    → (row : HealthAlertState) × (find_where
          (is_of service_id)
          (run_calls hashes formats config service_id (call ∷ calls) store).states
        ≡ some row)
      × (row.stable ≡ (observed formats service_id call).rollup)
unfolding observe
run_calls-reports hashes formats config service_id call calls store p enabled stored fresh applies
      apart steady enough long smooth =
    let o = observed formats service_id call in
    let after =
      run_calls-Stored hashes formats config service_id (call ∷ calls) store p enabled stored
        smooth in
    let grown : extend o p.streak ≡ o ∷ [] = rw fresh (unfold extend in refl) in
    (
      after.row,
      after.found,
      after.represents.same_stable
          ∙ run_promise-Steady config.stability_samples config.debounce p o []
              (observations formats service_id calls) grown applies apart steady
              (unfold distinct_in in
                omega (arith, enough, length-observations formats service_id calls))
              (unfold streak_start in long),
    )
