-- ===== src/Alerts/Invariant/Within.antt =====
-- Each operation keeps the attempts of the dispatches within those that the retry policy allows.
use gitops_dashboard.Prelude.{
  ℕ, ◌+◌, ◌<◌, ◌≤◌, ◌≡◌, refl, sym, ◌∙◌, subst, Bool, true, false, ◌&&◌, List, inl, inr, ◌==◌,
  arith, Bool-cases, Elem, All, All-append, Distinct-same, if◌then◌else◌,
}
use gitops_dashboard.Prelude.Text.{Text, text_eq}
use gitops_dashboard.Prelude.Rows.{exists_where, count_where, find_where-some}
use gitops_dashboard.Prelude.Keys.{All-update_where-Elem}
use gitops_dashboard.Alerts.Types.{
  AlertEvent, AlertDispatch, DispatchStatus, Tables, Store, Env, Hashes, status_eq, claim_not_held,
}
use gitops_dashboard.Alerts.Policy.{AlertRetryPolicy, normalized}
use gitops_dashboard.Alerts.Status.{
  is_open, terminal_status, valid_result_status, sync_event_status,
}
use gitops_dashboard.Alerts.Prepare.{clean, prepare_dispatch}
use gitops_dashboard.Alerts.Claim.{
  is_exhausted, is_due, is_in_flight, dead_letter, expire, lease_to, lease_due, claim_tables,
  claim_in_tx, claim_pending_deliveries,
}
use gitops_dashboard.Alerts.Record.{
  Completion, is_claimed_row, lease_is_live, holds, complete, note_expired, complete_tables, reread,
  late_completion, finish_completion, complete_row, dispatch_row, record_in_tx,
  record_dispatch_result,
}
use gitops_dashboard.Alerts.Invariant.{
  Keyed, Consistent, Commits, Commits-commit, Commits-rollback, Commits-with_key, Commits-require,
  Commits-reject_if, Commits-checked, when_unlocked_keeps,
}
use gitops_dashboard.Alerts.Invariant.Claim.{due_ids-due, expire-Consistent}
use gitops_dashboard.Alerts.Invariant.Leases.{expire-dispatches}
use gitops_dashboard.Alerts.Enqueue.{ensure_dispatch, enqueue_alert_event}
use gitops_dashboard.Alerts.Invariant.Grow.{enqueue_alert_event-grows}

-- The attempts of a dispatch are at most `max`, and fewer while it is open.
abbrev pub WithinAttempts : ℕ → AlertDispatch → Type 0
WithinAttempts max d = (d.attempts ≤ max) × (is_open d.status ≡ true → d.attempts < max)

abbrev pub Within : ℕ → Tables → Type 0
Within max t = All (WithinAttempts max) t.dispatches

expire-Within : (now max : ℕ) (t : Tables) → Within max t → Within max (expire now max t)
expire-Within now max t h =
    rw (expire-dispatches now max t)
      (All-update_where-Elem (WithinAttempts max) _ _ t.dispatches (λ d _ hit k. dead d hit k) h)
  where
    dead :
        (d : AlertDispatch)
        → is_exhausted now max d ≡ true
        → WithinAttempts max d
        → WithinAttempts max (dead_letter now d)
    dead d hit k = (few (is_open d.status) refl (k.1), λ o. cc o)
      where
        few :
            (b : Bool)
            → is_open d.status ≡ b
            → (is_open d.status ≡ true → d.attempts < max)
            → d.attempts + 1 ≤ max
        few true e f = omega (arith, f e)
        few false e f = absurd (ground arith)

leased-Within :
    (worker claim : Text) (now lease max : ℕ) (d : AlertDispatch)
    → is_due now max d ≡ true
    → WithinAttempts max d
    → WithinAttempts max (lease_to worker claim now lease d)
leased-Within worker claim now lease max d due h =
    let below : d.attempts + (if is_in_flight d then 1 else 0) < max = few (is_in_flight d) refl in
    (omega arith, λ _. below)
  where
    few : (b : Bool) → is_in_flight d ≡ b → d.attempts + (if b then 1 else 0) < max
    few true e = ground arith
    few false e = let o : is_open d.status ≡ true = ground arith in omega (arith, h.1 o)

claim_tables-Within :
    (now lease limit max : ℕ) (worker claim : Text) (t : Tables)
    → Consistent t
    → Within max t
    → Within max (claim_tables now lease limit max worker claim t)
unfolding claim_tables lease_due
claim_tables-Within now lease limit max worker claim t c h =
    let t' = expire now max t in
    let c' : Consistent t' = expire-Consistent now max t c in
    All-update_where-Elem (WithinAttempts max) _ _ t'.dispatches
      (λ d m hit k.
        let (x, mx, due, same) = due_ids-due now max limit d.id t' hit in
        let one : d ≡ x =
          Distinct-same (λ y. y.id) d x t'.dispatches c'.keyed.dispatch_ids m mx same in
        leased-Within worker claim now lease max d
          (subst (λ y. is_due now max y ≡ true) (sym one) due) k)
      (expire-Within now max t h)

complete-Within :
    (c : Completion) (policy : AlertRetryPolicy) (now : ℕ) (d : AlertDispatch)
    → valid_result_status c.status ≡ true
    → is_claimed_row c d ≡ true
    → WithinAttempts policy.max_attempts d
    → WithinAttempts policy.max_attempts (complete c policy now d.attempts d)
unfolding complete
complete-Within c policy now d good claimed h =
    let o : is_open d.status ≡ true = ground arith in
    let below = h.1 o in (omega arith, λ still. ground arith)

complete_tables-Within :
    (c : Completion) (policy : AlertRetryPolicy) (now : ℕ) (d : AlertDispatch) (t : Tables)
    → valid_result_status c.status ≡ true
    → Keyed t
    → Elem d t.dispatches
    → d.id ≡ c.dispatch_id
    → Within policy.max_attempts t
    → Within policy.max_attempts (complete_tables c policy now d.attempts t)
unfolding complete_tables
complete_tables-Within c policy now d t good k m own h =
    All-update_where-Elem (WithinAttempts policy.max_attempts) _ _ t.dispatches
      (λ r mr hit w.
        let row : r.id ≡ c.dispatch_id = ground arith in
        let same : r ≡ d =
          Distinct-same (λ x. x.id) r d t.dispatches k.dispatch_ids mr m (row ∙ sym own) in
        subst (λ x. WithinAttempts policy.max_attempts (complete c policy now x.attempts r)) same
          (complete-Within c policy now r good (ground arith) w))
      h

finish_completion-Within :
    (store : Store) (c : Completion) (policy : AlertRetryPolicy) (now : ℕ) (d : AlertDispatch)
    (t : Tables)
    → valid_result_status c.status ≡ true
    → Keyed t
    → Elem d t.dispatches
    → d.id ≡ c.dispatch_id
    → Within policy.max_attempts t
    → Commits
        (Within policy.max_attempts)
        (finish_completion store c policy now (prepare_dispatch store d) t)
unfolding finish_completion prepare_dispatch reread sync_event_status note_expired
finish_completion-Within store c policy now d t good k m own h =
    elim (Bool-cases
      (count_where (λ r. is_claimed_row c r && lease_is_live now r) t.dispatches == 1)) [
        | inl one ↦ rw one (
            Commits-require _ _ _
              (λ x _. Commits-commit _ (complete_tables-Within c policy now d t good k m own h)))
        | inr gone ↦ rw gone (
            late (note_expired c now t) (
              All-update_where-Elem (WithinAttempts policy.max_attempts) _ _ t.dispatches
                (λ r _ _ w. w) h))
      ]
  where
    late :
        (r : Tables × Bool)
        → Within policy.max_attempts r.0
        → Commits (Within policy.max_attempts) (late_completion r)
    late (t, true) w = Commits-commit _ w
    late (t, false) w = Commits-rollback claim_not_held

complete_row-Within :
    (store : Store) (c : Completion) (policy : AlertRetryPolicy) (now : ℕ) (d : AlertDispatch)
    (t : Tables)
    → valid_result_status c.status ≡ true
    → Keyed t
    → Elem d t.dispatches
    → d.id ≡ c.dispatch_id
    → Within policy.max_attempts t
    → Commits
        (Within policy.max_attempts)
        (complete_row store c policy now (prepare_dispatch store d) t)
unfolding complete_row
complete_row-Within store c policy now d t good k m own h =
    elim (Bool-cases (terminal_status r.status)) [
      | inl done ↦ rw done (Commits-reject_if _ _ (Commits-reject_if _ _ (Commits-commit _ h)))
      | inr other ↦
          rw other
            (elim (Bool-cases (
              status_eq r.status DispatchStatus.pending
              && holds c r
              && status_eq c.status DispatchStatus.pending)) [
                | inl replay ↦ rw replay (Commits-commit _ h)
                | inr new ↦ rw new (
                    Commits-reject_if _ _
                      (finish_completion-Within store c policy now d t good k m own h))
              ])
    ]
  where
    r : AlertDispatch
    r = prepare_dispatch store d

-- Recording a result keeps the attempts within the policy.
pub record_dispatch_result-Within :
    (hashes : Hashes) (env : Env) (c : Completion) (policy : AlertRetryPolicy) (store : Store)
    → Keyed store.tables
    → Within (normalized policy).max_attempts store.tables
    → Within
        (normalized policy).max_attempts
        (record_dispatch_result hashes env c policy store).0.tables
unfolding record_dispatch_result record_in_tx dispatch_row
record_dispatch_result-Within hashes env c policy store k h =
    when_unlocked_keeps {P = Within (normalized policy).max_attempts} store _ h (
      Commits-reject_if _ _ (
        Commits-reject_if _ _ (
          Commits-reject_if _ _ (
            Commits-checked _ _ (λ good. Commits-with_key _ (
              Commits-require _ _ _ (λ d e.
                let (m, hit) = find_where-some _ d store.tables.dispatches e in
                complete_row-Within store _ (normalized policy) env.now d store.tables
                  (ground arith) k m (ground arith) h)))))))

-- A claim keeps the attempts within the policy.
pub claim_pending_deliveries-Within :
    (hashes : Hashes) (env : Env) (worker : Text) (lease limit : ℕ) (policy : AlertRetryPolicy)
    (store : Store)
    → Consistent store.tables
    → Within (normalized policy).max_attempts store.tables
    → Within
        (normalized policy).max_attempts
        (claim_pending_deliveries hashes env worker lease limit policy store).0.tables
unfolding claim_pending_deliveries claim_in_tx
claim_pending_deliveries-Within hashes env worker lease limit policy store c h =
    when_unlocked_keeps {P = Within (normalized policy).max_attempts} store _ h (
      Commits-reject_if _ _ (
        Commits-reject_if _ _ (
          Commits-reject_if _ _ (
            Commits-with_key _ (
              Commits-require _ _ _ (λ claim _. Commits-commit _ (
                claim_tables-Within env.now lease limit (normalized policy).max_attempts
                  (clean store worker) claim store.tables c h)))))))

added-Within :
    (max i : ℕ) (sink : Text) (at : ℕ) (t : Tables)
    → 1 ≤ max
    → Within max t
    → Within max (ensure_dispatch i sink at t)
unfolding ensure_dispatch
added-Within max i sink at t some_attempt h =
    elim (Bool-cases (exists_where (λ d. d.event_id == i && text_eq d.sink sink) t.dispatches)) [
      | inl old ↦ rw old h
      | inr new ↦
          rw new
            (All-append (WithinAttempts max) t.dispatches _ h ((omega arith, λ _. omega arith), tt))
    ]

pub enqueue_alert_event-Within :
    (max : ℕ) (hashes : Hashes) (env : Env) (event : AlertEvent) (sinks : List Text) (cooldown : ℕ)
    (store : Store)
    → 1 ≤ max
    → Within max store.tables
    → Within max (enqueue_alert_event hashes env event sinks cooldown store).0.tables
enqueue_alert_event-Within max hashes env event sinks cooldown store some_attempt =
    enqueue_alert_event-grows (Within max)
      (λ i sink at t. added-Within max i sink at t some_attempt) (λ t t' same h. rw same h) hashes
      env event sinks cooldown store
