-- ===== src/Alerts/Invariant.antt =====
-- What holds of the two alert tables between two transactions.
pub mod Keys
pub mod Claim
pub mod Record
pub mod Added
pub mod Inserted
pub mod Enqueue
pub mod Leases
pub mod Grow
pub mod Kept
pub mod Within
pub mod Attempts
pub mod History
pub mod Dedupe
pub mod Replay
pub mod Settled
pub mod Apart
pub mod Claimed
pub mod Fresh
use gitops_dashboard.Prelude.{
  ℕ, ◌<◌, ◌≡◌, refl, List, All, Distinct, Bool, true, false, Option, none, some, Bool-cases, inl,
  inr,
}
use gitops_dashboard.Alerts.Types.{
  AlertEvent, AlertDispatch, Tables, Outcome, commit, rollback, rollback_locked, Store, AlertError,
  LockReason, Result, ok, err,
}
use gitops_dashboard.Alerts.Prepare.{
  settle, lock_alert_state, with_key, unless, require, proceed, reject_if, when_unlocked, is_locked,
}
use gitops_dashboard.Alerts.Status.Tally.{Synced}

-- The ids are keys, below the counters that give the next ones, and no dispatch points past the
-- events.
pub record Keyed (t : Tables) : Type 0 where
  pub event_ids : Distinct (λ e. e.id) t.events
  pub events_below : All (λ e. e.id < t.next_event_id) t.events
  pub dispatch_ids : Distinct (λ d. d.id) t.dispatches
  pub dispatches_below :
      All (λ d. (d.id < t.next_dispatch_id) × (d.event_id < t.next_event_id)) t.dispatches

-- Every event has the status that its dispatches give it.
pub record Consistent (t : Tables) : Type 0 where
  pub keyed : Keyed t
  pub synced : Synced t.dispatches t.events

abbrev Committed {ℓ} : {A : Type ℓ} → (Tables → Type 0) → Outcome A → Type 0
Committed P (commit t r) = P t
Committed P (rollback e) = Unit
Committed P (rollback_locked reason) = Unit

-- Whatever a transaction commits has a property.
pub record Commits {ℓ} {A : Type ℓ} (P : Tables → Type 0) (o : Outcome A) : Type 0 where
  pub holds : Committed P o

module _ {ℓ} {A : Type ℓ} {P : Tables → Type 0} where
  pub Commits-commit : {t : Tables} (r : Result A) → P t → Commits P (commit t r)
  Commits-commit r h = record { holds = h }

  pub Commits-rollback : (e : AlertError) → Commits {A = A} P (rollback e)
  Commits-rollback e = record { holds = tt }

  pub Commits-reject_if :
      (b : Bool) (e : AlertError) {o : Outcome A} → Commits P o → Commits P (reject_if b e o)
  unfolding reject_if
  Commits-reject_if true e h = record { holds = tt }
  Commits-reject_if false e h = h

  -- What follows a check may use that it passed.
  pub Commits-checked :
      (b : Bool) (e : AlertError) {o : Outcome A}
      → (b ≡ false → Commits P o)
      → Commits P (reject_if b e o)
  unfolding reject_if
  Commits-checked true e h = record { holds = tt }
  Commits-checked false e h = h refl

  pub Commits-with_key :
      (problem : Option LockReason) {o : Outcome A} → Commits P o → Commits P (with_key problem o)
  unfolding with_key
  Commits-with_key none h = h
  Commits-with_key (some reason) h = record { holds = tt }

  pub Commits-unless :
      (problem : Option AlertError) {o : Outcome A} → Commits P o → Commits P (unless problem o)
  unfolding unless
  Commits-unless none h = h
  Commits-unless (some e) h = record { holds = tt }

  -- An operation keeps what its transaction keeps.
  pub when_unlocked_keeps :
      (store : Store) (o : Outcome A)
      → P store.tables
      → Commits P o
      → P (when_unlocked store o).0.tables
  unfolding when_unlocked lock_alert_state
  when_unlocked_keeps store o h c = elim (Bool-cases (is_locked store)) [
    | inl locked ↦ rw locked h
    | inr free ↦ rw free (settled o c)
  ]
    where
      settled : (o : Outcome A) → Commits P o → P (settle store o).0.tables
      settled (commit t r) c = c.holds
      settled (rollback e) c = h
      settled (rollback_locked reason) c = h

module _ {ℓ κ} {A : Type ℓ} {B : Type κ} {P : Tables → Type 0} where
  pub Commits-require :
      (e : AlertError) (o : Option B) (next : B → Outcome A)
      → ((b : B) → o ≡ some b → Commits P (next b))
      → Commits P (require e o next)
  unfolding require
  Commits-require e none next h = record { holds = tt }
  Commits-require e (some b) next h = h b refl

  pub Commits-proceed :
      (r : Result B) (next : B → Outcome A)
      → ((b : B) → r ≡ ok b → Commits P (next b))
      → Commits P (proceed r next)
  unfolding proceed
  Commits-proceed (ok b) next h = h b refl
  Commits-proceed (err e) next h = record { holds = tt }
