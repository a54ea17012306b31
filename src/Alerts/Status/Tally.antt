-- ===== src/Alerts/Status/Tally.antt =====
-- How tallies, and so the status of an event, react to a change of the dispatches.
use gitops_dashboard.Prelude.{
  ℕ, ◌+◌, ◌<◌, ◌≡◌, refl, sym, ◌∙◌, Bool, true, false, List, [], ◌∷◌, ◌++◌, ◌⊎◌, inl, inr, ◌==◌,
  arith, Bool-cases, All, ==_iff, Elem,
}
use gitops_dashboard.Prelude.Rows.{update_where, count_where-append, count_where-update_where}
use gitops_dashboard.Alerts.Types.{
  EventStatus, DispatchStatus, AlertEvent, AlertDispatch, status_eq,
}
use gitops_dashboard.Alerts.Status.{is_open, tally, status_from, derived_status, sync_events}

-- Two lists of dispatches that agree on every tally of an event, where pending and in flight count
-- as one.
abbrev pub SameTallies : ℕ → List AlertDispatch → List AlertDispatch → Type 0
SameTallies i ds ds' =
    (b : DispatchStatus → Bool)
    → b DispatchStatus.pending ≡ b DispatchStatus.in_flight
    → tally b i ds' ≡ tally b i ds

pub derived_of_SameTallies :
    (i : ℕ) (ds ds' : List AlertDispatch)
    → SameTallies i ds ds'
    → derived_status ds' i ≡ derived_status ds i
unfolding derived_status
derived_of_SameTallies i ds ds' same = rw (
  same is_open refl,
  same (λ s. status_eq s DispatchStatus.delivered) refl,
  same (λ s. status_eq s DispatchStatus.skipped) refl,
  same (λ s. status_eq s DispatchStatus.dead_lettered) refl,
  same (λ s. status_eq s DispatchStatus.reset) refl,
)

-- An event with an open dispatch is pending, and only such an event is.
pub derived_pending :
    (ds : List AlertDispatch) (i : ℕ)
    → 0 < tally is_open i ds
    → derived_status ds i ≡ EventStatus.pending
unfolding derived_status status_from
derived_pending ds i h = ground arith

pub open_of_pending :
    (ds : List AlertDispatch) (i : ℕ)
    → derived_status ds i ≡ EventStatus.pending
    → 0 < tally is_open i ds
unfolding derived_status status_from
open_of_pending ds i h = ground arith

pub tally-append :
    (b : DispatchStatus → Bool) (i : ℕ) (ds es : List AlertDispatch)
    → tally b i (ds ++ es) ≡ tally b i ds + tally b i es
unfolding tally
tally-append b i ds es = count_where-append _ ds es

-- An update that keeps the events and the buckets of the rows it touches keeps the tally.
pub tally-update_where :
    (b : DispatchStatus → Bool) (i : ℕ) (p : AlertDispatch → Bool)
    (f : AlertDispatch → AlertDispatch) (ds : List AlertDispatch)
    → ((d : AlertDispatch) → (f d).event_id ≡ d.event_id)
    → ((d : AlertDispatch) → Elem d ds → p d ≡ true → d.event_id ≡ i → b (f d).status ≡ b d.status)
    → tally b i (update_where p f ds) ≡ tally b i ds
unfolding tally
tally-update_where b i p f ds same_event same_bucket = count_where-update_where _ p f ds (λ d m hit.
    elim (Bool-cases (d.event_id == i)) [
      | inl e ↦ rw (same_event d, same_bucket d m hit ((==_iff d.event_id i).0 e))
      | inr e ↦ rw (same_event d, e)
    ])

-- The events whose ids are listed may be out of date, the others have the derived status.
abbrev pub SyncedBut : List ℕ → List AlertDispatch → List AlertEvent → Type 0
SyncedBut stale ds = All (λ e. Elem e.id stale ⊎ (e.status ≡ derived_status ds e.id))

-- Syncing an event takes its id off the list.
pub sync_events-SyncedBut :
    (ds : List AlertDispatch) (i : ℕ) (stale : List ℕ) (es : List AlertEvent)
    → SyncedBut (i ∷ stale) ds es
    → SyncedBut stale ds (sync_events ds i es)
unfolding sync_events update_where
sync_events-SyncedBut ds i stale [] h = tt
sync_events-SyncedBut ds i stale (e ∷ es) h = elim (Bool-cases (e.id == i)) [
  | inl hit ↦
      let same : e.id ≡ i = (==_iff e.id i).0 hit in
      rw hit (inr (rw same refl), sync_events-SyncedBut ds i stale es h.1)
  | inr miss ↦ rw miss (drop_first e h.0 miss, sync_events-SyncedBut ds i stale es h.1)
]
  where
    drop_first :
        (e : AlertEvent)
        → Elem e.id (i ∷ stale) ⊎ (e.status ≡ derived_status ds e.id)
        → (e.id == i) ≡ false
        → Elem e.id stale ⊎ (e.status ≡ derived_status ds e.id)
    drop_first e (inl (inl same)) miss = absurd (ground arith)
    drop_first e (inl (inr later)) miss = inl later
    drop_first e (inr synced) miss = inr synced

-- With nothing out of date every event has the derived status.
abbrev pub Synced : List AlertDispatch → List AlertEvent → Type 0
Synced ds = All (λ e. e.status ≡ derived_status ds e.id)

pub Synced-of_SyncedBut :
    (ds : List AlertDispatch) (es : List AlertEvent) → SyncedBut [] ds es → Synced ds es
Synced-of_SyncedBut ds [] h = tt
Synced-of_SyncedBut ds (e ∷ es) h = (settled h.0, Synced-of_SyncedBut ds es h.1)
  where
    settled : Elem e.id [] ⊎ (e.status ≡ derived_status ds e.id) → e.status ≡ derived_status ds e.id
    settled (inl none_left) = elim none_left [ ]
    settled (inr synced) = synced

-- After a change of the dispatches, the events that keep their tallies stay up to date.
pub SyncedBut-of_Synced :
    (stale : List ℕ) (ds ds' : List AlertDispatch) (es : List AlertEvent)
    → ((i : ℕ) → Elem i stale ⊎ SameTallies i ds ds')
    → Synced ds es
    → SyncedBut stale ds' es
SyncedBut-of_Synced stale ds ds' [] keep h = tt
SyncedBut-of_Synced stale ds ds' (e ∷ es) keep h =
    (settled (keep e.id), SyncedBut-of_Synced stale ds ds' es keep h.1)
  where
    settled :
        Elem e.id stale ⊎ SameTallies e.id ds ds'
        → Elem e.id stale ⊎ (e.status ≡ derived_status ds' e.id)
    settled (inl touched) = inl touched
    settled (inr same) = inr (h.0 ∙ sym (derived_of_SameTallies e.id ds ds' same))

pub Synced-of_SameTallies :
    (ds ds' : List AlertDispatch) (es : List AlertEvent)
    → ((i : ℕ) → SameTallies i ds ds')
    → Synced ds es
    → Synced ds' es
Synced-of_SameTallies ds ds' es same h =
    Synced-of_SyncedBut ds' es (SyncedBut-of_Synced [] ds ds' es (λ i. inr (same i)) h)
