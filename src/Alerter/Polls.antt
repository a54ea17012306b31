-- ===== src/Alerter/Polls.antt =====
-- What a poll leaves of the dispatches that it claims.
use gitops_dashboard.Prelude.{
  ◌≡◌, ◌≢◌, refl, sym, ap, ◌∙◌, subst, List, [], ◌∷◌, some, ◌==◌, All, Distinct,
}
use gitops_dashboard.Prelude.Rows.{find_where}
use gitops_dashboard.Alerts.Types.{AlertDelivery, AlertDispatch, Store, Env, Hashes, ok}
use gitops_dashboard.Alerts.Policy.{normalized}
use gitops_dashboard.Alerts.Prepare.{is_locked, key_problem, clean}
use gitops_dashboard.Alerts.Claim.{claim_pending_deliveries}
use gitops_dashboard.Alerts.Invariant.{Consistent}
use gitops_dashboard.Alerts.Invariant.Record.{record_dispatch_result-Consistent}
use gitops_dashboard.Alerts.Invariant.Claim.{claim_pending_deliveries-Consistent}
use gitops_dashboard.Alerts.Invariant.Settled.{prepared}
use gitops_dashboard.Alerts.Invariant.Apart.{settled_tables-apart, IsHeld-settled}
use gitops_dashboard.Alerter.Worker.{Worker, Answers, deliver_one, deliver_all, poll_once}
use gitops_dashboard.Alerter.Delivered.{
  IsSettled, Deliverable, said, deliver_one-tables, deliver_one-IsSettled,
}

module _ (hashes : Hashes) (w : Worker) (answers : Answers) (envs : AlertDelivery → Env)
    (rows : AlertDelivery → AlertDispatch) where
  -- The worker can record how a delivery ended.
  abbrev pub CanRecord : Store → AlertDelivery → Type 0
  CanRecord store x = Deliverable hashes w answers (envs x) store x (rows x)

  deliver_one-Consistent :
      (x : AlertDelivery) (store : Store)
      → Consistent store.tables
      → Consistent (deliver_one hashes w answers (envs x) x store).tables
  unfolding deliver_one
  deliver_one-Consistent x store h =
      record_dispatch_result-Consistent hashes (envs x) (said w answers x) w.retry_policy store h

  -- A delivery leaves those of the other dispatches.
  deliver_one-CanRecord :
      (x y : AlertDelivery) (store : Store)
      → Consistent store.tables
      → y.dispatch.id ≢ x.dispatch.id
      → CanRecord store x
      → CanRecord store y
      → CanRecord (deliver_one hashes w answers (envs x) x store) y
  unfolding is_locked key_problem clean
  deliver_one-CanRecord x y store h other mine (ready, held) =
      subst (λ s. CanRecord s y)
        (sym (deliver_one-tables hashes w answers (envs x) store x (rows x) h.keyed mine))
        (
          record {
            free = ready.free;
            current = ready.current;
            has_id = ready.has_id;
            has_worker = ready.has_worker;
            has_claim = ready.has_claim;
            worker_kept = ready.worker_kept;
            claim_kept = ready.claim_kept;
          },
          IsHeld-settled (prepared store (said w answers x)) (prepared store (said w answers y)) _ _
              _ (rows x) (rows y) store.tables other held,
        )

  others-CanRecord :
      (x : AlertDelivery) (deliveries : List AlertDelivery) (store : Store)
      → Consistent store.tables
      → CanRecord store x
      → All (λ y. y.dispatch.id ≢ x.dispatch.id) deliveries
      → All (CanRecord store) deliveries
      → All (CanRecord (deliver_one hashes w answers (envs x) x store)) deliveries
  others-CanRecord x [] store h mine others can = tt
  others-CanRecord x (y ∷ deliveries) store h mine others can = (
    deliver_one-CanRecord x y store h others.0 mine can.0,
    others-CanRecord x deliveries store h mine others.1 can.1,
  )

  deliver_one-apart :
      (x y : AlertDelivery) (store : Store)
      → Consistent store.tables
      → y.dispatch.id ≢ x.dispatch.id
      → CanRecord store y
      → find_where
          (λ r. r.id == x.dispatch.id)
          (deliver_one hashes w answers (envs y) y store).tables.dispatches
        ≡ find_where (λ r. r.id == x.dispatch.id) store.tables.dispatches
  deliver_one-apart x y store h other can =
      ap (λ (s : Store). find_where (λ r. r.id == x.dispatch.id) s.tables.dispatches)
        (deliver_one-tables hashes w answers (envs y) store y (rows y) h.keyed can)
      ∙ settled_tables-apart (prepared store (said w answers y)) (normalized w.retry_policy)
          (envs y).now (rows y) store.tables x.dispatch.id (λ e. other (sym e))

  -- The deliveries after one leave the row of its dispatch.
  deliver_all-apart :
      (x : AlertDelivery) (deliveries : List AlertDelivery) (store : Store)
      → Consistent store.tables
      → All (λ y. y.dispatch.id ≢ x.dispatch.id) deliveries
      → Distinct (λ y. y.dispatch.id) deliveries
      → All (CanRecord store) deliveries
      → find_where
          (λ r. r.id == x.dispatch.id)
          (deliver_all hashes w answers envs deliveries store).tables.dispatches
        ≡ find_where (λ r. r.id == x.dispatch.id) store.tables.dispatches
  unfolding deliver_all
  deliver_all-apart x [] store h others d can = refl
  deliver_all-apart x (y ∷ deliveries) store h others d can =
      deliver_all-apart x deliveries (deliver_one hashes w answers (envs y) y store)
        (deliver_one-Consistent y store h) others.1 d.1
        (others-CanRecord y deliveries store h can.0 d.0 can.1)
      ∙ deliver_one-apart x y store h others.0 can.0

  deliver_all-IsSettled :
      (deliveries : List AlertDelivery) (store : Store)
      → Consistent store.tables
      → Distinct (λ y. y.dispatch.id) deliveries
      → All (CanRecord store) deliveries
      → All
          (λ x.
            (r : AlertDispatch) × (find_where
                (λ r. r.id == x.dispatch.id)
                (deliver_all hashes w answers envs deliveries store).tables.dispatches
              ≡ some r)
            × IsSettled w answers x (rows x) r)
          deliveries
  unfolding deliver_all
  deliver_all-IsSettled [] store h d can = tt
  deliver_all-IsSettled (x ∷ deliveries) store h d can =
      let (r, found, settled) =
        deliver_one-IsSettled hashes w answers (envs x) store x (rows x) h.keyed can.0 in
      let after = deliver_one hashes w answers (envs x) x store in
      let h' = deliver_one-Consistent x store h in
      let can' = others-CanRecord x deliveries store h can.0 d.0 can.1 in
      (
        (r, deliver_all-apart x deliveries after h' d.0 d.1 can' ∙ found, settled),
        deliver_all-IsSettled deliveries after h' d.1 can',
      )

  -- In a poll on consistent tables whose claim gives deliveries of distinct dispatches, where at
  -- the time of each completion the claim is held with a live lease and can be completed (the
  -- store is not locked, its key is current, the texts of the claim survive cleaning), every
  -- dispatch is settled after the poll, with one attempt more: it is delivered if its sink is
  -- configured, its filters take the event and the sink answers with no error; it is skipped if no
  -- sink has its name or the filters of the sink do not take the event; and if the sink takes the
  -- event and fails, it is pending while attempts are left under the worker's normalized policy
  -- and dead-lettered otherwise. Filters take an event if no exclude list names it and each
  -- include list is empty or names it.
  pub poll_once-IsSettled :
      (env : Env) (store claimed : Store) (deliveries : List AlertDelivery)
      → Consistent store.tables
      → claim_pending_deliveries hashes env w.worker_id w.lease_duration w.claim_batch
          w.retry_policy store
        ≡ (claimed, ok deliveries)
      → Distinct (λ y. y.dispatch.id) deliveries
      → All (CanRecord claimed) deliveries
      → All
          (λ x.
            (r : AlertDispatch) × (find_where
                (λ r. r.id == x.dispatch.id)
                (poll_once hashes w answers env envs store).tables.dispatches
              ≡ some r)
            × IsSettled w answers x (rows x) r)
          deliveries
  unfolding poll_once
  poll_once-IsSettled env store claimed deliveries h claims d can =
      let h' : Consistent claimed.tables =
        subst (λ r. Consistent r.0.tables) claims
          (claim_pending_deliveries-Consistent hashes env w.worker_id w.lease_duration w.claim_batch
            w.retry_policy store h) in
      rw claims (deliver_all-IsSettled deliveries claimed h' d can)
