-- ===== src/Alerts/Invariant/Settled.antt =====
-- A completion of a dispatch that is held is stored.
use gitops_dashboard.Prelude.{
  ℕ, ◌≤◌, ◌≡◌, refl, subst, Bool, true, false, ◌&&◌, [], List, ◌∷◌, none, some, inl, inr, arith,
  ◌==◌, Bool-cases, Elem, ==_iff, ==_refl,
}
use gitops_dashboard.Prelude.Text.{is_empty, text_eq_refl, trim_space}
use gitops_dashboard.Prelude.Rows.{
  count_where, find_where, find_where-some, exists_of_Elem, count_pos_of_exists,
  Distinct-update_where,
}
use gitops_dashboard.Prelude.Keys.{Elem-updated, find_where-key, count_key-le}
use gitops_dashboard.Alerts.Types.{
  AlertDispatch, Tables, DispatchStatus, status_eq, Store, Hashes, Env, commit, ok,
}
use gitops_dashboard.Alerts.Policy.{AlertRetryPolicy, normalized}
use gitops_dashboard.Alerts.Status.{sync_event_status, terminal_status, valid_result_status}
use gitops_dashboard.Alerts.Prepare.{
  clean, prepare_dispatch, key_problem, is_locked, when_unlocked, with_key, require, reject_if,
  settle,
}
use gitops_dashboard.Alerts.Claim.{is_in_flight}
use gitops_dashboard.Alerts.Record.{
  Completion, holds, is_claimed_row, lease_is_live, complete, complete_tables, result_error,
  dispatch_row, finish_completion, complete_row, reread, record_in_tx, record_dispatch_result,
}
use gitops_dashboard.Alerts.Invariant.{Keyed}

-- What a completion is taken for.
abbrev pub prepared : Store → Completion → Completion
prepared store raw = record {
  dispatch_id = raw.dispatch_id;
  worker = clean store raw.worker;
  claim = trim_space raw.claim;
  status = raw.status;
  last_error = result_error raw.status (clean store raw.last_error);
}

-- The completion can be made at all: its texts are kept by cleaning and not empty, and the key of
-- the store is the current one.
pub record IsReady (hashes : Hashes) (store : Store) (env : Env) (c : Completion) : Type 0 where
  pub free : is_locked store ≡ false
  pub current : key_problem hashes store env ≡ none
  pub has_id : (c.dispatch_id == 0) ≡ false
  pub has_worker : is_empty c.worker ≡ false
  pub has_claim : is_empty c.claim ≡ false
  pub worker_kept : clean store c.worker ≡ c.worker
  pub claim_kept : trim_space c.claim ≡ c.claim

-- The dispatch of a completion is in flight under its claim with a live lease.
pub record IsHeld (t : Tables) (now : ℕ) (c : Completion) (d : AlertDispatch) : Type 0 where
  pub found : dispatch_row c.dispatch_id t ≡ some d
  pub in_flight : d.status ≡ DispatchStatus.in_flight
  pub worker : d.worker_id ≡ c.worker
  pub claim : d.claim_id ≡ c.claim
  pub live : lease_is_live now d ≡ true

held_row :
    (t : Tables) (now : ℕ) (c : Completion) (d : AlertDispatch)
    → IsHeld t now c d
    → Elem d t.dispatches × (d.id ≡ c.dispatch_id)
unfolding dispatch_row
held_row t now c d h =
    let (m, e) = find_where-some _ d t.dispatches h.found in
    (m, (==_iff d.id c.dispatch_id).0 (ground arith))

held_hit :
    (t : Tables) (now : ℕ) (c : Completion) (d : AlertDispatch)
    → IsHeld t now c d
    → is_claimed_row c d && lease_is_live now d ≡ true
held_hit t now c d h =
    let own = (held_row t now c d h).1 in
    rw
      (
        own,
        h.in_flight,
        h.worker,
        h.claim,
        h.live,
        ==_refl c.dispatch_id,
        text_eq_refl c.worker,
        text_eq_refl c.claim,
      )
      refl

count_where-impl :
    (p q : AlertDispatch → Bool) (xs : List AlertDispatch)
    → ((x : AlertDispatch) → p x ≡ true → q x ≡ true)
    → count_where p xs ≤ count_where q xs
unfolding count_where
count_where-impl p q [] imp = omega arith
count_where-impl p q (x ∷ xs) imp =
    let rest = count_where-impl p q xs imp in
    elim (Bool-cases (p x)) [
      | inl e ↦ rw (e, imp x e) (omega (arith, rest))
      | inr e ↦ rw e (omega (arith, rest))
    ]

-- The UPDATE of the completion touches one row.
held_once :
    (t : Tables) (now : ℕ) (c : Completion) (d : AlertDispatch)
    → Keyed t
    → IsHeld t now c d
    → (count_where (λ r. is_claimed_row c r && lease_is_live now r) t.dispatches == 1) ≡ true
held_once t now c d k h =
    let hit : AlertDispatch → Bool = λ r. is_claimed_row c r && lease_is_live now r in
    let found =
      count_pos_of_exists hit t.dispatches
        (exists_of_Elem hit d t.dispatches (held_row t now c d h).0 (held_hit t now c d h)) in
    let one = count_key-le (λ r. r.id) c.dispatch_id t.dispatches k.dispatch_ids in
    let fewer =
      count_where-impl hit (λ r. r.id == c.dispatch_id) t.dispatches (λ r e. ground arith) in
    (==_iff (count_where hit t.dispatches) 1).1 (omega (arith, found, one, fewer))

-- The tables after the completion.
abbrev pub settled_tables : Completion → AlertRetryPolicy → ℕ → AlertDispatch → Tables → Tables
settled_tables c policy now d t =
    sync_event_status d.event_id (complete_tables c policy now d.attempts t)

pub settled_tables-found :
    (t : Tables) (policy : AlertRetryPolicy) (now : ℕ) (c : Completion) (d : AlertDispatch)
    → Keyed t
    → IsHeld t now c d
    → find_where (λ r. r.id == c.dispatch_id) (settled_tables c policy now d t).dispatches
      ≡ some (complete c policy now d.attempts d)
unfolding sync_event_status complete_tables complete
settled_tables-found t policy now c d k h =
    let (m, own) = held_row t now c d h in
    let row = complete c policy now d.attempts d in
    subst
      (λ i.
        find_where (λ r. r.id == i) (complete_tables c policy now d.attempts t).dispatches
        ≡ some row)
      own
      (find_where-key (λ r. r.id) row (complete_tables c policy now d.attempts t).dispatches
        (Distinct-update_where (λ r. r.id) _ _ t.dispatches (λ r. refl) k.dispatch_ids)
        (Elem-updated _ (complete c policy now d.attempts) d t.dispatches m (held_hit t now c d h)))

complete_row-held :
    (store : Store) (t : Tables) (policy : AlertRetryPolicy) (now : ℕ) (c : Completion)
    (d : AlertDispatch)
    → Keyed t
    → IsHeld t now c d
    → clean store c.worker ≡ c.worker
    → trim_space c.claim ≡ c.claim
    → complete_row store c policy now (prepare_dispatch store d) t
      ≡ commit
          (settled_tables c policy now d t)
          (ok (prepare_dispatch store (complete c policy now d.attempts d)))
unfolding complete_row finish_completion reread reject_if require prepare_dispatch
complete_row-held store t policy now c d k h worker claim =
    let open_row : terminal_status d.status ≡ false = rw h.in_flight refl in
    let claimed : status_eq d.status DispatchStatus.pending ≡ false = rw h.in_flight refl in
    let running : is_in_flight d ≡ true = rw h.in_flight refl in
    let held : holds c (prepare_dispatch store d) ≡ true =
      rw (h.worker, h.claim, worker, claim, text_eq_refl c.worker, text_eq_refl c.claim) refl in
    rw
      (
        open_row,
        claimed,
        running,
        held,
        held_once t now c d k h,
        settled_tables-found t policy now c d k h,
      )
      refl

-- A completion that can be made of a dispatch that is held writes the completed row, and syncs the
-- status of its event.
pub record_dispatch_result-held :
    (hashes : Hashes) (env : Env) (raw : Completion) (policy : AlertRetryPolicy) (store : Store)
    (d : AlertDispatch)
    → Keyed store.tables
    → IsReady hashes store env (prepared store raw)
    → valid_result_status raw.status ≡ true
    → IsHeld store.tables env.now (prepared store raw) d
    → (record_dispatch_result hashes env raw policy store).0 ≡ record store {
      tables = settled_tables (prepared store raw) (normalized policy) env.now d store.tables;
    }
unfolding record_dispatch_result when_unlocked record_in_tx reject_if require with_key settle
record_dispatch_result-held hashes env raw policy store d k ready valid h =
    rw
      (
        ready.free,
        ready.has_id,
        ready.has_worker,
        ready.has_claim,
        valid,
        ready.current,
        h.found,
        complete_row-held store store.tables (normalized policy) env.now (prepared store raw) d k h
            ready.worker_kept ready.claim_kept,
      )
      refl
