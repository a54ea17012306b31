-- ===== src/Alerter/Delivered.antt =====
-- What a delivery of the worker leaves in the table of the dispatches.
use gitops_dashboard.Prelude.{
  ℕ, ◌+◌, ◌≤◌, ◌<◌, ◌≡◌, refl, ap, ◌∙◌, ◌⊎◌, true, List, none, some, inl, inr, arith, ◌==◌, leb,
  Bool-cases, Option-cases,
}
use gitops_dashboard.Prelude.Text.{Text}
use gitops_dashboard.Prelude.Rows.{find_where}
use gitops_dashboard.Alerts.Types.{AlertDelivery, AlertDispatch, DispatchStatus, Store, Env, Hashes}
use gitops_dashboard.Alerts.Policy.{normalized}
use gitops_dashboard.Alerts.Status.{valid_result_status}
use gitops_dashboard.Alerts.Record.{Completion, promoted, complete}
use gitops_dashboard.Alerts.Invariant.{Keyed}
use gitops_dashboard.Alerts.Invariant.Settled.{
  IsReady, IsHeld, prepared, settled_tables, settled_tables-found, record_dispatch_result-held,
}
use gitops_dashboard.Alerter.Routing.{matches}
use gitops_dashboard.Alerter.Filters.{Accepts, matches-Accepts, Accepts-matches}
use gitops_dashboard.Alerter.Worker.{
  Sink, Worker, Answers, sink_of, answer_of, outcome_of, deliver_one,
}

-- The sink of a delivery, which takes the event, and a delivery that no sink takes.
abbrev pub TakenBy : List Sink → AlertDelivery → Sink → Type 0
TakenBy sinks x sink = (sink_of x.dispatch.sink sinks ≡ some sink) × Accepts sink.filters x.event

abbrev pub IsRefused : List Sink → AlertDelivery → Type 0
IsRefused sinks x =
    (sink_of x.dispatch.sink sinks ≡ none)
    ⊎ ((sink : Sink) × (sink_of x.dispatch.sink sinks ≡ some sink) × ¬ Accepts sink.filters x.event)

-- The status of the row `r` that a delivery of the row `d` leaves, by what the sink did.
abbrev pub IsSettled : Worker → Answers → AlertDelivery → AlertDispatch → AlertDispatch → Type 0
IsSettled w answers x d r =
    (r.attempts ≡ d.attempts + 1)
    × (((r.status ≡ DispatchStatus.delivered)
          × ((sink : Sink) × TakenBy w.sinks x sink × (answers sink x.event ≡ none)))
        ⊎ ((r.status ≡ DispatchStatus.skipped) × IsRefused w.sinks x)
        ⊎ ((((r.status ≡ DispatchStatus.pending)
                × (d.attempts + 1 < (normalized w.retry_policy).max_attempts))
              ⊎ ((r.status ≡ DispatchStatus.dead_lettered)
                  × ((normalized w.retry_policy).max_attempts ≤ d.attempts + 1)))
            × ((sink : Sink) × (error : Text) × TakenBy w.sinks x sink
                × (answers sink x.event ≡ some error))))

-- What the worker says of a delivery.
abbrev pub said : Worker → Answers → AlertDelivery → Completion
said w answers x = record {
  dispatch_id = x.dispatch.id;
  worker = w.worker_id;
  claim = x.dispatch.claim_id;
  status = (outcome_of answers w.sinks x).0;
  last_error = (outcome_of answers w.sinks x).1;
}

retried :
    (attempts max : ℕ)
    → ((promoted DispatchStatus.pending attempts max ≡ DispatchStatus.pending) × (attempts < max))
      ⊎ ((promoted DispatchStatus.pending attempts max ≡ DispatchStatus.dead_lettered)
          × (max ≤ attempts))
retried attempts max = elim (Bool-cases (leb max attempts)) [
  | inl e ↦ inr (rw e refl, ground arith)
  | inr e ↦ inl (rw e refl, ground arith)
]

-- The status that the worker records, promoted, is the one that the sink's answer asks for.
outcome_of-IsSettled :
    (w : Worker) (answers : Answers) (x : AlertDelivery) (d r : AlertDispatch)
    → r.attempts ≡ d.attempts + 1
    → r.status
      ≡ promoted
          (outcome_of answers w.sinks x).0
          (d.attempts + 1)
          (normalized w.retry_policy).max_attempts
    → IsSettled w answers x d r
unfolding outcome_of answer_of
outcome_of-IsSettled w answers x d r counted status =
    elim (Option-cases (sink_of x.dispatch.sink w.sinks)) [
      | inl missing ↦
          let skipped : r.status ≡ DispatchStatus.skipped = rw (missing, outcome_of) at status in
          (counted, inr (inl (skipped, inl missing)))
      | inr (sink, found) ↦ elim (Bool-cases (matches sink.filters x.event)) [
        | inr apart ↦
            let skipped : r.status ≡ DispatchStatus.skipped =
              rw (found, outcome_of, apart) at status in
            let refused : ¬ Accepts sink.filters x.event =
              λ a. cc (apart, Accepts-matches sink.filters x.event a) in
            (counted, inr (inl (skipped, inr (sink, found, refused))))
        | inl fits ↦
            let taken = matches-Accepts sink.filters x.event fits in
            elim (Option-cases (answers sink x.event)) [
              | inl silent ↦
                  let delivered : r.status ≡ DispatchStatus.delivered =
                    rw (found, outcome_of, fits, silent, answer_of) at status in
                  (counted, inl (delivered, (sink, (found, taken), silent)))
              | inr (error, failed) ↦
                  let again : r.status
                      ≡ promoted DispatchStatus.pending (d.attempts + 1)
                          (normalized w.retry_policy).max_attempts =
                    rw (found, outcome_of, fits, failed, answer_of) at status in
                  (
                    counted,
                    inr (
                        inr (
                          elim (retried (d.attempts + 1) (normalized w.retry_policy).max_attempts) [
                            | inl (same, left) ↦ inl (again ∙ same, left)
                            | inr (same, spent) ↦ inr (again ∙ same, spent)
                          ],
                          (sink, error, (found, taken), failed),
                        )),
                  )
            ]
      ]
    ]

outcome_of-valid :
    (answers : Answers) (sinks : List Sink) (x : AlertDelivery)
    → valid_result_status (outcome_of answers sinks x).0 ≡ true
unfolding outcome_of answer_of
outcome_of-valid answers sinks x = elim (Option-cases (sink_of x.dispatch.sink sinks)) [
  | inl missing ↦ rw (missing, outcome_of) refl
  | inr (sink, found) ↦ elim (Bool-cases (matches sink.filters x.event)) [
    | inr apart ↦ rw (found, outcome_of, apart) refl
    | inl fits ↦ elim (Option-cases (answers sink x.event)) [
      | inl silent ↦ rw (found, outcome_of, fits, silent, answer_of) refl
      | inr (error, failed) ↦ rw (found, outcome_of, fits, failed, answer_of) refl
    ]
  ]
]

-- The worker holds the dispatch of a delivery, and can record how it ended.
abbrev pub Deliverable :
    Hashes → Worker → Answers → Env → Store → AlertDelivery → AlertDispatch → Type 0
Deliverable hashes w answers env store x d =
    IsReady hashes store env (prepared store (said w answers x))
    × IsHeld store.tables env.now (prepared store (said w answers x)) d

pub deliver_one-tables :
    (hashes : Hashes) (w : Worker) (answers : Answers) (env : Env) (store : Store)
    (x : AlertDelivery) (d : AlertDispatch)
    → Keyed store.tables
    → Deliverable hashes w answers env store x d
    → deliver_one hashes w answers env x store ≡ record store {
      tables =
          settled_tables
            (prepared store (said w answers x))
            (normalized w.retry_policy)
            env.now
            d
            store.tables;
    }
unfolding deliver_one
deliver_one-tables hashes w answers env store x d k (ready, held) =
    record_dispatch_result-held hashes env (said w answers x) w.retry_policy store d k ready
      (outcome_of-valid answers w.sinks x) held

pub deliver_one-IsSettled :
    (hashes : Hashes) (w : Worker) (answers : Answers) (env : Env) (store : Store)
    (x : AlertDelivery) (d : AlertDispatch)
    → Keyed store.tables
    → Deliverable hashes w answers env store x d
    → (r : AlertDispatch) × (find_where
          (λ r. r.id == x.dispatch.id)
          (deliver_one hashes w answers env x store).tables.dispatches
        ≡ some r)
      × IsSettled w answers x d r
unfolding complete
deliver_one-IsSettled hashes w answers env store x d k deliverable =
    let c = prepared store (said w answers x) in
    let r = complete c (normalized w.retry_policy) env.now d.attempts d in
    (
      r,
      ap (λ (s : Store). find_where (λ r. r.id == x.dispatch.id) s.tables.dispatches)
            (deliver_one-tables hashes w answers env store x d k deliverable)
          ∙ settled_tables-found store.tables (normalized w.retry_policy) env.now c d k
              deliverable.1,
      outcome_of-IsSettled w answers x d r refl refl,
    )
