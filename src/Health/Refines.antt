-- ===== src/Health/Refines.antt =====
-- The row of a service keeps the promise of the health alerts.
use gitops_dashboard.Prelude.{
  ℕ, ◌≡◌, refl, false, List, [], ◌∷◌, Option, none, some, arith, inl, inr, Bool-cases,
}
use gitops_dashboard.Prelude.Text.{Text, text_eq, text_eq→eq}
use gitops_dashboard.Core.{HealthState, health_eq, health_eq→eq}
use gitops_dashboard.Health.Types.{HealthAlertState, HealthAlertConfig}
use gitops_dashboard.Health.Machine.{
  Observation, first_state, back_to_stable, count_candidate, start_failure, with_candidate,
  is_continuous, is_edge, edge_state,
}
use gitops_dashboard.Health.Spec.{distinct_in, streak_start, extend, lasts, confirms}

abbrev candidate_of : HealthState → List Observation → HealthState
candidate_of reported [] = reported
candidate_of reported (o ∷ rest) = o.rollup

abbrev observation_of : List Observation → Text
observation_of [] = []
observation_of (o ∷ rest) = o.id

-- The columns of a row that stand for a reported health and a streak.
pub record Represents (s : HealthAlertState) (reported : HealthState) (streak : List Observation)
    : Type 0 where
  pub same_stable : s.stable ≡ reported
  pub same_candidate : s.candidate ≡ candidate_of reported streak
  pub same_samples : s.samples ≡ distinct_in streak
  pub same_observation : s.candidate_observation ≡ observation_of streak
  pub same_start : s.candidate_started ≡ streak_start streak

count_candidate-Represents :
    (o : Observation) (s : HealthAlertState) (reported : HealthState) (streak : List Observation)
    → Represents s reported streak
    → health_eq reported o.rollup ≡ false
    → Represents (count_candidate o s) reported (extend o streak)
unfolding count_candidate extend distinct_in streak_start
count_candidate-Represents o s reported [] r apart =
    let other : health_eq s.candidate o.rollup ≡ false = rw r.same_candidate apart in
    rw other (record {
      same_stable = r.same_stable;
      same_candidate = refl;
      same_samples = refl;
      same_observation = refl;
      same_start = refl;
    })
count_candidate-Represents o s reported (q ∷ rest) r apart =
    elim (Bool-cases (health_eq q.rollup o.rollup)) [
      | inr other ↦
          rw (r.same_candidate, other)
            (record {
              same_stable = r.same_stable;
              same_candidate = refl;
              same_samples = refl;
              same_observation = refl;
              same_start = refl;
            })
      | inl same ↦ elim (Bool-cases (text_eq q.id o.id)) [
        | inl again ↦
            rw (r.same_candidate, same, r.same_observation, again)
              (record {
                same_stable = r.same_stable;
                same_candidate = health_eq→eq q.rollup o.rollup same;
                same_samples = rw again (omega (arith, r.same_samples));
                same_observation = text_eq→eq q.id o.id again;
                same_start = r.same_start;
              })
        | inr fresh ↦
            rw (r.same_candidate, same, r.same_observation, fresh)
              (record {
                same_stable = r.same_stable;
                same_candidate = health_eq→eq q.rollup o.rollup same;
                same_samples = rw fresh (omega (arith, r.same_samples));
                same_observation = refl;
                same_start = r.same_start;
              })
      ]
    ]

pub with_candidate-Represents :
    (o : Observation) (s : HealthAlertState) (reported : HealthState) (streak : List Observation)
    → Represents s reported streak
    → health_eq reported o.rollup ≡ false
    → Represents (with_candidate o s) reported (extend o streak)
unfolding with_candidate start_failure
with_candidate-Represents o s reported streak r apart =
    let c = count_candidate-Represents o s reported streak r apart in
    record {
      same_stable = c.same_stable;
      same_candidate = c.same_candidate;
      same_samples = c.same_samples;
      same_observation = c.same_observation;
      same_start = c.same_start;
    }

is_continuous-lasts :
    (debounce at : ℕ) (started : Option ℕ)
    → is_continuous debounce started at ≡ lasts debounce at started
unfolding is_continuous lasts
is_continuous-lasts debounce at none = ground arith
is_continuous-lasts debounce at (some n) = refl

pub is_edge-confirms :
    (config : HealthAlertConfig) (o : Observation) (s : HealthAlertState) (reported : HealthState)
    (streak : List Observation)
    → Represents s reported streak
    → is_edge config o s ≡ confirms config.stability_samples config.debounce o streak
unfolding is_edge confirms
is_edge-confirms config o s reported streak r =
    rw (is_continuous-lasts config.debounce o.at s.candidate_started, r.same_samples, r.same_start)
      refl

pub back_to_stable-Represents :
    (s : HealthAlertState) (reported : HealthState) (streak : List Observation)
    → Represents s reported streak
    → Represents (back_to_stable s) reported []
unfolding back_to_stable distinct_in streak_start
back_to_stable-Represents s reported streak r = record {
  same_stable = r.same_stable;
  same_candidate = r.same_stable;
  same_samples = refl;
  same_observation = refl;
  same_start = refl;
}

pub edge_state-Represents :
    (o : Observation) (s : HealthAlertState) → Represents (edge_state o s) o.rollup []
unfolding edge_state distinct_in streak_start
edge_state-Represents o s = record {
  same_stable = refl;
  same_candidate = refl;
  same_samples = refl;
  same_observation = refl;
  same_start = refl;
}

pub first_state-Represents :
    (service_id incarnation : Text) (o : Observation)
    → Represents (first_state service_id incarnation o) o.rollup []
unfolding first_state distinct_in streak_start
first_state-Represents service_id incarnation o = record {
  same_stable = refl;
  same_candidate = refl;
  same_samples = refl;
  same_observation = refl;
  same_start = refl;
}
