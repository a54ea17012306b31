-- ===== src/Alerts/Invariant/Record.antt =====
-- Recording a result keeps the tables consistent.
use gitops_dashboard.Prelude.{
  ℕ, ◌≡◌, refl, sym, ap, ◌∙◌, Bool, true, false, ◌&&◌, [], ◌∷◌, ◌⊎◌, inl, inr, ◌==◌, arith,
  Bool-cases, Elem, Distinct-same, ==_iff,
}
use gitops_dashboard.Prelude.Rows.{count_where, find_where-some}
use gitops_dashboard.Alerts.Types.{
  AlertDispatch, Tables, claim_not_held, DispatchStatus, status_eq, Store, Hashes, Env,
}
use gitops_dashboard.Alerts.Policy.{AlertRetryPolicy, normalized}
use gitops_dashboard.Alerts.Status.{sync_event_status, terminal_status}
use gitops_dashboard.Alerts.Status.Tally.{
  SameTallies, SyncedBut, Synced, tally-update_where, sync_events-SyncedBut, Synced-of_SyncedBut,
  SyncedBut-of_Synced, Synced-of_SameTallies,
}
use gitops_dashboard.Alerts.Prepare.{prepare_dispatch}
use gitops_dashboard.Alerts.Record.{
  Completion, holds, is_claimed_row, lease_is_live, complete, complete_tables, note_expired,
  dispatch_row, finish_completion, complete_row, reread, late_completion, record_in_tx,
  record_dispatch_result,
}
use gitops_dashboard.Alerts.Invariant.{
  Keyed, Consistent, Commits, Commits-reject_if, Commits-with_key, Commits-require, Commits-commit,
  Commits-rollback, when_unlocked_keeps,
}
use gitops_dashboard.Alerts.Invariant.Keys.{sync_event_status-Keyed, update_dispatches-Keyed}

-- The row that is completed is the only one with its id, so only its event is out of date.
complete_tables-tallies :
    (c : Completion) (policy : AlertRetryPolicy) (now : ℕ) (d : AlertDispatch) (t : Tables)
    → Keyed t
    → Elem d t.dispatches
    → d.id ≡ c.dispatch_id
    → (i : ℕ)
    → Elem i (d.event_id ∷ [])
      ⊎ SameTallies i t.dispatches (complete_tables c policy now d.attempts t).dispatches
unfolding complete_tables complete
complete_tables-tallies c policy now d t k m own i = elim (Bool-cases (i == d.event_id)) [
  | inl e ↦ inl (inl ((==_iff i d.event_id).0 e))
  | inr other ↦ inr (λ b _.
      tally-update_where b i _ _ t.dispatches (λ r. refl)
        (λ r mr hit same. absurd (other_event r mr hit same other)))
]
  where
    other_event :
        (r : AlertDispatch)
        → Elem r t.dispatches
        → (is_claimed_row c r && lease_is_live now r) ≡ true
        → r.event_id ≡ i
        → (i == d.event_id) ≡ false
        → ⊥
    other_event r mr hit same other =
        let one : r ≡ d =
          Distinct-same (λ x. x.id) r d t.dispatches k.dispatch_ids mr m (ground arith) in
        let e : i ≡ d.event_id = sym same ∙ ap (λ (x : AlertDispatch). x.event_id) one in
        cc (other, (==_iff i d.event_id).1 e)

module _ (c : Completion) (policy : AlertRetryPolicy) (now : ℕ) (d : AlertDispatch) (t : Tables)
    (h : Consistent t) (m : Elem d t.dispatches) (own : d.id ≡ c.dispatch_id) where
  completed-SyncedBut :
      SyncedBut
        (d.event_id ∷ [])
        (complete_tables c policy now d.attempts t).dispatches
        (complete_tables c policy now d.attempts t).events
  unfolding complete_tables
  completed-SyncedBut =
      SyncedBut-of_Synced (d.event_id ∷ []) t.dispatches _ t.events
        (complete_tables-tallies c policy now d t h.keyed m own) h.synced

  completed-Synced :
      Synced
        (sync_event_status d.event_id (complete_tables c policy now d.attempts t)).dispatches
        (sync_event_status d.event_id (complete_tables c policy now d.attempts t)).events
  unfolding sync_event_status
  completed-Synced = Synced-of_SyncedBut _ _ (
      sync_events-SyncedBut (complete_tables c policy now d.attempts t).dispatches d.event_id []
        (complete_tables c policy now d.attempts t).events completed-SyncedBut)

  completed-Keyed : Keyed (complete_tables c policy now d.attempts t)
  unfolding complete_tables complete
  completed-Keyed = update_dispatches-Keyed _ _ t (λ r. refl) (λ r. refl) h.keyed

  completed-Consistent :
      Consistent (sync_event_status d.event_id (complete_tables c policy now d.attempts t))
  completed-Consistent = record {
    keyed = sync_event_status-Keyed d.event_id _ completed-Keyed;
    synced = completed-Synced;
  }

-- A late completion changes no status.
note_expired-Consistent :
    (c : Completion) (now : ℕ) (t : Tables) → Consistent t → Consistent (note_expired c now t).0
unfolding note_expired
note_expired-Consistent c now t h = record {
  keyed = update_dispatches-Keyed _ _ t (λ d. refl) (λ d. refl) h.keyed;
  synced =
      Synced-of_SameTallies t.dispatches _ t.events
        (λ i b _. tally-update_where b i _ _ t.dispatches (λ d. refl) (λ d _ _ _. refl)) h.synced;
}

reread-Consistent :
    (store : Store) (c : Completion) (t : Tables)
    → Consistent t
    → Commits Consistent (reread store c t)
unfolding reread
reread-Consistent store c t h = Commits-require _ _ _ (λ r _. Commits-commit _ h)

late-Consistent : (r : Tables × Bool) → Consistent r.0 → Commits Consistent (late_completion r)
late-Consistent (t, true) h = Commits-commit _ h
late-Consistent (t, false) h = Commits-rollback claim_not_held

finish_completion-Consistent :
    (store : Store) (c : Completion) (policy : AlertRetryPolicy) (now : ℕ) (d : AlertDispatch)
    (t : Tables)
    → Consistent t
    → Elem d t.dispatches
    → d.id ≡ c.dispatch_id
    → Commits Consistent (finish_completion store c policy now (prepare_dispatch store d) t)
unfolding finish_completion prepare_dispatch
finish_completion-Consistent store c policy now d t h m own =
    elim (Bool-cases
      (count_where (λ r. is_claimed_row c r && lease_is_live now r) t.dispatches == 1)) [
        | inl one ↦ rw one (
            reread-Consistent store c
              (sync_event_status d.event_id (complete_tables c policy now d.attempts t))
              (completed-Consistent c policy now d t h m own))
        | inr gone ↦
            rw gone (late-Consistent (note_expired c now t) (note_expired-Consistent c now t h))
      ]

complete_row-Consistent :
    (store : Store) (c : Completion) (policy : AlertRetryPolicy) (now : ℕ) (d : AlertDispatch)
    (t : Tables)
    → Consistent t
    → Elem d t.dispatches
    → d.id ≡ c.dispatch_id
    → Commits Consistent (complete_row store c policy now (prepare_dispatch store d) t)
unfolding complete_row
complete_row-Consistent store c policy now d t h m own =
    elim (Bool-cases (terminal_status r.status)) [
      | inl done ↦ rw done (Commits-reject_if _ _ (Commits-reject_if _ _ (Commits-commit _ h)))
      | inr other ↦
          rw other
            (elim (Bool-cases (
              status_eq r.status DispatchStatus.pending
              && holds c r
              && status_eq c.status DispatchStatus.pending)) [
                | inl replay ↦ rw replay (Commits-commit _ h)
                | inr new ↦ rw new (
                    Commits-reject_if _ _
                      (finish_completion-Consistent store c policy now d t h m own))
              ])
    ]
  where
    r : AlertDispatch
    r = prepare_dispatch store d

record_in_tx-Consistent :
    (hashes : Hashes) (store : Store) (env : Env) (c : Completion) (policy : AlertRetryPolicy)
    → Consistent store.tables
    → Commits Consistent (record_in_tx hashes store env c policy)
unfolding record_in_tx dispatch_row
record_in_tx-Consistent hashes store env c policy h = Commits-reject_if _ _ (
    Commits-reject_if _ _ (
      Commits-reject_if _ _ (
        Commits-reject_if _ _ (
          Commits-with_key _ (
            Commits-require _ _ _ (λ d e.
              let (m, hit) = find_where-some _ d store.tables.dispatches e in
              complete_row-Consistent store _ policy env.now d store.tables h m (ground arith)))))))

-- Recording a result keeps the tables consistent, however it ends.
pub record_dispatch_result-Consistent :
    (hashes : Hashes) (env : Env) (c : Completion) (policy : AlertRetryPolicy) (store : Store)
    → Consistent store.tables
    → Consistent (record_dispatch_result hashes env c policy store).0.tables
unfolding record_dispatch_result
record_dispatch_result-Consistent hashes env c policy store h =
    when_unlocked_keeps {P = Consistent} store (record_in_tx hashes store env c (normalized policy))
      h (record_in_tx-Consistent hashes store env c (normalized policy) h)
