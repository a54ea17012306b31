-- ===== src/Alerts/Invariant/Dedupe.antt =====
-- Deduplication: an occurrence that is stored stands for the later ones of its hash.
use gitops_dashboard.Prelude.{
  ℕ, ◌≡◌, refl, sym, ◌∙◌, subst, Bool, true, false, ◌&&◌, List, [], ◌∷◌, ◌++◌, inl, inr, ◌==◌,
  arith, Bool-cases, Option-cases, Elem, All-Elem, some,
}
use gitops_dashboard.Prelude.Text.{Text, text_eq, text_eq_refl}
use gitops_dashboard.Prelude.Rows.{exists_where, exists_of_Elem, exists_of_count_pos, query_empty}
use gitops_dashboard.Alerts.Types.{AlertEvent, EventStatus, Tables, Store, Outcome, commit, ok}
use gitops_dashboard.Alerts.Status.{tally}
use gitops_dashboard.Alerts.Status.Tally.{open_of_pending}
use gitops_dashboard.Alerts.Prepare.{prepare_event}
use gitops_dashboard.Alerts.Enqueue.{
  is_pending_for, pending_row, cooldown_row, ensure_dispatch, ensure_dispatches, join_pending,
  store_event, store_unless_cooling, enqueue_prepared,
}
use gitops_dashboard.Alerts.Invariant.{Consistent}
use gitops_dashboard.Alerts.Invariant.Enqueue.{insert_event-inserts}
use gitops_dashboard.Alerts.Invariant.Inserted.{inserted_row, with_event, inserted-Consistent}

-- What an enqueueing commits, where it stores no event of its own.
abbrev pub JoinsEvent : Tables → Outcome (AlertEvent × Bool) → Type 0
JoinsEvent t o =
    (t' : Tables) × (e : AlertEvent) × (o ≡ commit t' (ok (e, false))) × (t'.events ≡ t.events)

ensure_dispatches-events :
    (i : ℕ) (sinks : List Text) (at : ℕ) (t : Tables)
    → (ensure_dispatches i sinks at t).events ≡ t.events
unfolding ensure_dispatches
ensure_dispatches-events i [] at t = refl
ensure_dispatches-events i (sink ∷ sinks) at t =
    ensure_dispatches-events i sinks at (ensure_dispatch i sink at t) ∙ one
  where
    one : (ensure_dispatch i sink at t).events ≡ t.events
    one =
        unfold ensure_dispatch in
        elim (Bool-cases
          (exists_where (λ d. d.event_id == i && text_eq d.sink sink) t.dispatches)) [
            | inl old ↦ rw old refl
            | inr new ↦ rw new refl
          ]

-- A pending event of consistent tables is found by its hash.
pending_row-finds :
    (t : Tables) (e : AlertEvent)
    → Consistent t
    → Elem e t.events
    → e.status ≡ EventStatus.pending
    → (f : AlertEvent) × (pending_row t e.dedupe_hash ≡ some f)
unfolding pending_row tally
pending_row-finds t e c m is_pending = elim (Option-cases (pending_row t e.dedupe_hash)) [
  | inr found ↦ found
  | inl missing ↦
      let busy =
        open_of_pending t.dispatches e.id (sym (All-Elem _ e t.events c.synced m) ∙ is_pending) in
      let opened = exists_of_count_pos _ t.dispatches busy in
      let listed =
        exists_of_Elem (is_pending_for e.dedupe_hash t.dispatches) e t.events m
          (ground (arith, opened, text_eq_refl e.dedupe_hash, is_pending)) in
      absurd
        (cc (listed, query_empty (is_pending_for e.dedupe_hash t.dispatches) _ t.events missing))
]

-- An occurrence joins the pending event of its hash.
enqueue_prepared-joins :
    (store : Store) (event e : AlertEvent) (sinks : List Text) (cooldown : ℕ) (t : Tables)
    → pending_row t event.dedupe_hash ≡ some e
    → JoinsEvent t (enqueue_prepared store event sinks cooldown t)
unfolding enqueue_prepared join_pending
enqueue_prepared-joins store event e sinks cooldown t found =
    rw (found, enqueue_prepared)
      (
        ensure_dispatches e.id sinks event.created_at t,
        prepare_event store e,
        refl,
        ensure_dispatches-events e.id sinks event.created_at t,
      )

Elem-append_last {ℓ} : {A : Type ℓ} (x : A) (xs : List A) → Elem x (xs ++ x ∷ [])
Elem-append_last x [] = inl refl
Elem-append_last x (y ∷ xs) = inr (Elem-append_last x xs)

-- A stored event is pending in the tables, under its hash.
stored-pending :
    (event : AlertEvent) (sink : Text) (sinks : List Text) (t : Tables)
    → Consistent t
    → (f : AlertEvent) × (pending_row
          (ensure_dispatches t.next_event_id (sink ∷ sinks) event.created_at (with_event event t))
          event.dedupe_hash
        ≡ some f)
stored-pending event sink sinks t c =
    let t' =
      ensure_dispatches t.next_event_id (sink ∷ sinks) event.created_at (with_event event t) in
    let row = inserted_row event t.next_event_id in
    pending_row-finds t' row (inserted-Consistent event sink sinks event.created_at t c)
      (rw
        (ensure_dispatches-events t.next_event_id (sink ∷ sinks) event.created_at
          (with_event event t))
        (Elem-append_last row t.events))
      refl

-- Where an enqueueing into consistent tables, with one sink at least, stores an event, a later
-- occurrence of the same hash right after stores none, whatever its sinks and its cooldown are.
pub enqueue_prepared-dedupes :
    (store later : Store) (event again : AlertEvent) (sink : Text) (sinks more : List Text)
    (cooldown cooldown' : ℕ) (t t' : Tables) (e : AlertEvent)
    → Consistent t
    → enqueue_prepared store event (sink ∷ sinks) cooldown t ≡ commit t' (ok (e, true))
    → again.dedupe_hash ≡ event.dedupe_hash
    → JoinsEvent t' (enqueue_prepared later again more cooldown' t')
unfolding enqueue_prepared join_pending store_unless_cooling store_event
enqueue_prepared-dedupes store later event again sink sinks more cooldown cooldown' t t' e c stored
      same =
    elim (Option-cases (pending_row t event.dedupe_hash)) [
      | inr (f, found) ↦ absurd (cc (rw (found, enqueue_prepared) at stored))
      | inl missing ↦ elim (Option-cases (cooldown_row t event cooldown)) [
        | inr (f, cooling) ↦
            absurd
              (cc (rw (cooling, store_unless_cooling) at rw (missing, enqueue_prepared) at stored))
        | inl free ↦
            let run =
              rw (insert_event-inserts t event c missing, store_event) at rw
                (free, store_unless_cooling) at rw (missing, enqueue_prepared) at stored in
            let tables : ensure_dispatches t.next_event_id (sink ∷ sinks) event.created_at
                  (with_event event t)
                ≡ t' =
              cc run in
            let (f, found) = stored-pending event sink sinks t c in
            enqueue_prepared-joins later again f more cooldown' t'
              (rw same (subst (λ x. pending_row x event.dedupe_hash ≡ some f) tables found))
      ]
    ]
