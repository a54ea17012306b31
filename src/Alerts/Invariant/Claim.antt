-- ===== src/Alerts/Invariant/Claim.antt =====
-- A claim keeps the tables consistent.
use gitops_dashboard.Prelude.{
  ℕ, ◌≡◌, refl, sym, subst, true, false, ◌||◌, List, [], ◌∷◌, ◌⊎◌, inl, inr, ◌==◌, arith,
  Bool-cases, All, All-of_Elem, All-Elem, All-take, All-append, Elem, Elem-map, Distinct,
  Distinct-same, id_elem, id_elem→Elem, take, map, or_true, true_or, ==_refl, ==_iff,
}
use gitops_dashboard.Prelude.Rows.{
  select_where, update_where, order_by, Elem-select_where, All-select_where_both, All-order_by,
}
use gitops_dashboard.Prelude.Text.{Text}
use gitops_dashboard.Alerts.Types.{
  DispatchStatus, AlertEvent, AlertDispatch, AlertDelivery, Tables, Hashes, Env, Store,
}
use gitops_dashboard.Alerts.Status.{is_open, sync_event_status}
use gitops_dashboard.Alerts.Status.Tally.{
  SameTallies, SyncedBut, Synced, tally-update_where, sync_events-SyncedBut, Synced-of_SyncedBut,
  SyncedBut-of_Synced, Synced-of_SameTallies,
}
use gitops_dashboard.Alerts.Policy.{AlertRetryPolicy, normalized}
use gitops_dashboard.Alerts.Prepare.{clean}
use gitops_dashboard.Alerts.Claim.{
  claim_in_tx, claim_pending_deliveries, is_exhausted, is_due, dead_letter, event_ids,
  dead_letter_expired, sync_all, expire, joined, due_ids, lease_due, claim_tables, delivery_order,
}
use gitops_dashboard.Alerts.Invariant.{
  Keyed, Consistent, Commits-reject_if, Commits-with_key, Commits-require, Commits-commit, Commits,
  when_unlocked_keeps,
}
use gitops_dashboard.Alerts.Invariant.Keys.{sync_event_status-Keyed, update_dispatches-Keyed}

event_ids-covers :
    (d : AlertDispatch) (ds : List AlertDispatch)
    → Elem d ds
    → id_elem d.event_id (event_ids ds) ≡ true
unfolding event_ids id_elem
event_ids-covers d [] m = elim m [ ]
event_ids-covers d (x ∷ ds) m = elim (Bool-cases (id_elem x.event_id (event_ids ds))) [
  | inl seen ↦ rw seen (covered_seen m (event_ids-covers d ds) seen)
  | inr new ↦ rw new (covered_new m (event_ids-covers d ds))
]
  where
    covered_seen :
        Elem d (x ∷ ds)
        → (Elem d ds → id_elem d.event_id (event_ids ds) ≡ true)
        → id_elem x.event_id (event_ids ds) ≡ true
        → id_elem d.event_id (event_ids ds) ≡ true
    covered_seen (inl e) ih seen = rw e seen
    covered_seen (inr m) ih seen = ih m

    covered_new :
        Elem d (x ∷ ds)
        → (Elem d ds → id_elem d.event_id (event_ids ds) ≡ true)
        → (d.event_id == x.event_id || id_elem d.event_id (event_ids ds)) ≡ true
    covered_new (inl e) ih = true_or (d.event_id == x.event_id) _ (rw e (==_refl x.event_id))
    covered_new (inr m) ih = or_true (d.event_id == x.event_id) _ (ih m)

-- Dead-lettering changes the tallies of the events that it lists, and of no other.
dead_letter_expired-tallies :
    (now max_attempts : ℕ) (ds : List AlertDispatch) (i : ℕ)
    → Elem i (event_ids (select_where (is_exhausted now max_attempts) ds))
      ⊎ SameTallies i ds (update_where (is_exhausted now max_attempts) (dead_letter now) ds)
dead_letter_expired-tallies now max_attempts ds i =
    let listed = event_ids (select_where (is_exhausted now max_attempts) ds) in
    elim (Bool-cases (id_elem i listed)) [
      | inl touched ↦ inl (id_elem→Elem i listed touched)
      | inr other ↦ inr (λ b _.
          tally-update_where b i _ _ ds (λ d. refl)
            (λ d m hit same. absurd (
              listed_not i d listed (event_ids-covers d _ (Elem-select_where _ d ds m hit)) same
                other)))
    ]
  where
    listed_not :
        (i : ℕ) (d : AlertDispatch) (ids : List ℕ)
        → id_elem d.event_id ids ≡ true
        → d.event_id ≡ i
        → id_elem i ids ≡ false
        → ⊥
    listed_not i d ids covered same other = cc (subst (λ k. id_elem k ids ≡ true) same covered)

pub sync_all-dispatches : (ids : List ℕ) (t : Tables) → (sync_all ids t).dispatches ≡ t.dispatches
unfolding sync_all sync_event_status
sync_all-dispatches [] t = refl
sync_all-dispatches (i ∷ ids) t = sync_all-dispatches ids (sync_event_status i t)

sync_all-Synced :
    (ids : List ℕ) (t : Tables)
    → SyncedBut ids t.dispatches t.events
    → Synced (sync_all ids t).dispatches (sync_all ids t).events
unfolding sync_all sync_event_status
sync_all-Synced [] t h = Synced-of_SyncedBut t.dispatches t.events h
sync_all-Synced (i ∷ ids) t h =
    sync_all-Synced ids (sync_event_status i t)
      (sync_events-SyncedBut t.dispatches i ids t.events h)

-- The row of every delivery of the join stands in the table.
joined-Elem :
    (es : List AlertEvent) (ds : List AlertDispatch)
    → All (λ x. Elem x.dispatch ds × (x.dispatch.event_id ≡ x.event.id)) (joined es ds)
unfolding joined
joined-Elem [] ds = tt
joined-Elem (e ∷ es) ds =
    All-append _ (map (λ d. record { event = e; dispatch = d }) (select_where _ ds)) (joined es ds)
      (rows (select_where (λ d. d.event_id == e.id) ds) (
        All-select_where_both (λ d. Elem d ds) (λ d. d.event_id == e.id) ds
          (All-of_Elem _ ds (λ d m. m))))
      (joined-Elem es ds)
  where
    rows :
        (xs : List AlertDispatch)
        → All (λ d. Elem d ds × ((d.event_id == e.id) ≡ true)) xs
        → All {A = AlertDelivery}
            (λ x. Elem x.dispatch ds × (x.dispatch.event_id ≡ x.event.id))
            (map (λ d. record { event = e; dispatch = d }) xs)
    rows [] h = tt
    rows (d ∷ xs) h = ((h.0.0, (==_iff d.event_id e.id).0 h.0.1), rows xs h.1)

-- An id that the subquery returns is that of a due row.
pub due_ids-due :
    (now max_attempts limit i : ℕ) (t : Tables)
    → id_elem i (due_ids now max_attempts limit t) ≡ true
    → (d : AlertDispatch) × Elem d t.dispatches × (is_due now max_attempts d ≡ true) × (i ≡ d.id)
unfolding due_ids
due_ids-due now max_attempts limit i t h =
    let rows =
      select_where (λ x. is_due now max_attempts x.dispatch) (joined t.events t.dispatches) in
    let (x, m, e) =
      Elem-map (λ (y : AlertDelivery). y.dispatch.id) i (take limit (order_by delivery_order rows))
        (id_elem→Elem i _ h) in
    let found =
      All-Elem _ x (take limit (order_by delivery_order rows))
        (All-take _ limit _ (
          All-order_by _ delivery_order rows (
            All-select_where_both _ (λ y. is_due now max_attempts y.dispatch) _
              (joined-Elem t.events t.dispatches))))
        m in
    (x.dispatch, found.0.0, found.1, e)

due_is_open :
    (now max_attempts : ℕ) (d : AlertDispatch)
    → is_due now max_attempts d ≡ true
    → is_open d.status ≡ true
due_is_open now max_attempts d h = ground arith

-- A lease leaves every tally as it was: a due row is open, and stays open.
lease_due-tallies :
    (worker claim : Text) (now lease max_attempts limit : ℕ) (t : Tables) (i : ℕ)
    → Distinct (λ d. d.id) t.dispatches
    → SameTallies i t.dispatches
        (lease_due worker claim now lease (due_ids now max_attempts limit t) t).dispatches
unfolding lease_due
lease_due-tallies worker claim now lease max_attempts limit t i distinct b joint =
    tally-update_where b i _ _ t.dispatches (λ d. refl)
      (λ d m hit same.
        let (d', m', due, e) = due_ids-due now max_attempts limit d.id t hit in
        let one : d ≡ d' = Distinct-same (λ x. x.id) d d' t.dispatches distinct m m' e in
        stays d.status
          (subst (λ x. is_open x.status ≡ true) (sym one) (due_is_open now max_attempts d' due)))
  where
    stays : (s : DispatchStatus) → is_open s ≡ true → b DispatchStatus.in_flight ≡ b s
    stays DispatchStatus.in_flight h = refl
    stays DispatchStatus.pending h = sym joint
    stays _ h = cc

expire-Synced :
    (now max_attempts : ℕ) (t : Tables)
    → Synced t.dispatches t.events
    → Synced (expire now max_attempts t).dispatches (expire now max_attempts t).events
unfolding expire dead_letter_expired
expire-Synced now max_attempts t h =
    sync_all-Synced (event_ids (select_where (is_exhausted now max_attempts) t.dispatches))
      (dead_letter_expired now max_attempts t)
      (SyncedBut-of_Synced _ t.dispatches _ t.events
        (dead_letter_expired-tallies now max_attempts t.dispatches) h)

sync_all-Keyed : (ids : List ℕ) (t : Tables) → Keyed t → Keyed (sync_all ids t)
unfolding sync_all
sync_all-Keyed [] t k = k
sync_all-Keyed (i ∷ ids) t k =
    sync_all-Keyed ids (sync_event_status i t) (sync_event_status-Keyed i t k)

-- Dead-lettering the exhausted dispatches, with the statuses synced, keeps the tables consistent.
pub expire-Consistent :
    (now max_attempts : ℕ) (t : Tables) → Consistent t → Consistent (expire now max_attempts t)
unfolding expire dead_letter_expired
expire-Consistent now max_attempts t c = record {
  keyed =
      sync_all-Keyed _ (dead_letter_expired now max_attempts t)
        (update_dispatches-Keyed _ _ t (λ d. refl) (λ d. refl) c.keyed);
  synced = expire-Synced now max_attempts t c.synced;
}

-- A claim keeps the tables consistent.
pub claim_tables-Consistent :
    (now lease limit max_attempts : ℕ) (worker claim : Text) (t : Tables)
    → Consistent t
    → Consistent (claim_tables now lease limit max_attempts worker claim t)
unfolding claim_tables lease_due
claim_tables-Consistent now lease limit max_attempts worker claim t c =
    let t' = expire now max_attempts t in
    let c' : Consistent t' = expire-Consistent now max_attempts t c in
    record {
      keyed = update_dispatches-Keyed _ _ t' (λ d. refl) (λ d. refl) c'.keyed;
      synced =
          Synced-of_SameTallies t'.dispatches _ t'.events
            (λ i.
              lease_due-tallies worker claim now lease max_attempts limit t' i
                c'.keyed.dispatch_ids)
            c'.synced;
    }

claim_in_tx-Consistent :
    (hashes : Hashes) (store : Store) (env : Env) (worker : Text) (lease limit : ℕ)
    (policy : AlertRetryPolicy)
    → Consistent store.tables
    → Commits Consistent (claim_in_tx hashes store env worker lease limit policy)
unfolding claim_in_tx
claim_in_tx-Consistent hashes store env worker lease limit policy h = Commits-reject_if _ _ (
    Commits-reject_if _ _ (
      Commits-reject_if _ _
        (Commits-with_key _ (Commits-require _ _ _ (λ claim _. Commits-commit _ (claimed claim))))))
  where
    claimed :
        (claim : Text)
        → Consistent (
            claim_tables env.now lease limit policy.max_attempts
              (clean store worker)
              claim
              store.tables)
    claimed claim =
        claim_tables-Consistent env.now lease limit policy.max_attempts (clean store worker) claim
          store.tables h

-- `ClaimPendingAlertDeliveries` keeps the tables consistent, however it ends.
pub claim_pending_deliveries-Consistent :
    (hashes : Hashes) (env : Env) (worker : Text) (lease limit : ℕ) (policy : AlertRetryPolicy)
    (store : Store)
    → Consistent store.tables
    → Consistent (claim_pending_deliveries hashes env worker lease limit policy store).0.tables
unfolding claim_pending_deliveries
claim_pending_deliveries-Consistent hashes env worker lease limit policy store h =
    when_unlocked_keeps {P = Consistent} store
      (claim_in_tx hashes store env worker lease limit (normalized policy)) h
      (claim_in_tx-Consistent hashes store env worker lease limit (normalized policy) h)
