-- ===== src/Alerts/Prune/Batches.antt =====
-- The loop of `PruneTerminalAlertEvents` ends, and leaves no old closed event.
use gitops_dashboard.Prelude.{
  ℕ, zero, suc, ◌+◌, ◌-◌, ◌≤◌, ◌<◌, ◌≡◌, refl, sym, ◌∙◌, subst, Bool, true, false, not, ◌&&◌, List,
  [], ◌∷◌, inl, inr, ltb, leb, ◌==◌, arith, Bool-cases, All, All-impl, All-of_Elem, All-Elem,
  All-take, length, take, map, id_elem, Elem, Elem-id_elem, some, ==_iff, false_of_not_true,
  Elem-map, id_elem→Elem, Distinct-same,
}
use gitops_dashboard.Prelude.Rows.{
  select_where, count_where, order_by, All-select_where_both, All-order_by, Distinct-select_where,
  Elem-select_where, Elem-order_by,
}
use gitops_dashboard.Prelude.Keys.{
  length-deleted, count_where-select_where, Distinct-order_by, Distinct-take, length-take_full,
  count_ids-ge,
}
use gitops_dashboard.Alerts.Types.{AlertEvent, AlertDispatch, Tables}
use gitops_dashboard.Alerts.Status.{tally, derived_status}
use gitops_dashboard.Alerts.Status.Tally.{SameTallies, derived_of_SameTallies}
use gitops_dashboard.Alerts.Prune.{
  is_prunable, victims, delete_events, prune_loop, prune_terminal_events, default_batch_size,
}
use gitops_dashboard.Alerts.Invariant.{Keyed, Consistent}

-- What a query leaves has what all rows have.
All-kept {ℓ κ} :
    {A : Type ℓ} (P : A → Type κ) (p : A → Bool) (xs : List A)
    → All P xs
    → All P (select_where p xs)
All-kept P p xs h = All-impl _ _ (λ x k. k.0) (select_where p xs) (All-select_where_both P p xs h)

-- A dispatch goes with its event, so an event that stays keeps its dispatches and its tallies.
delete-tallies :
    (ids : List ℕ) (ds : List AlertDispatch) (i : ℕ)
    → id_elem i ids ≡ false
    → SameTallies i ds (select_where (λ d. not (id_elem d.event_id ids)) ds)
unfolding tally
delete-tallies ids ds i other b joint = count_where-select_where _ _ ds (λ d hit. kept d hit)
  where
    kept :
        (d : AlertDispatch)
        → (d.event_id == i && b d.status) ≡ true
        → not (id_elem d.event_id ids) ≡ true
    kept d hit = elim (Bool-cases (d.event_id == i)) [
      | inl e ↦ rw ((==_iff d.event_id i).0 e, other) refl
      | inr e ↦ cc (rw e at hit)
    ]

-- Deleting events with their dispatches keeps the tables consistent.
pub delete_events-Consistent :
    (ids : List ℕ) (t : Tables) → Consistent t → Consistent (delete_events ids t).0
unfolding delete_events
delete_events-Consistent ids t c = record {
  keyed = record {
    event_ids = Distinct-select_where (λ e. e.id) _ t.events c.keyed.event_ids;
    events_below = All-kept (λ e. e.id < t.next_event_id) _ t.events c.keyed.events_below;
    dispatch_ids = Distinct-select_where (λ d. d.id) _ t.dispatches c.keyed.dispatch_ids;
    dispatches_below = All-kept _ _ t.dispatches c.keyed.dispatches_below;
  };
  synced =
      All-impl _ _ (λ e k. still e k.0 k.1) (select_where (λ e. not (id_elem e.id ids)) t.events)
        (All-select_where_both _ (λ e. not (id_elem e.id ids)) t.events c.synced);
}
  where
    still :
        (e : AlertEvent)
        → e.status ≡ derived_status t.dispatches e.id
        → not (id_elem e.id ids) ≡ true
        → e.status
          ≡ derived_status (select_where (λ d. not (id_elem d.event_id ids)) t.dispatches) e.id
    still e k kept =
        k
        ∙ sym (
            derived_of_SameTallies e.id t.dispatches _
              (delete-tallies ids t.dispatches e.id (ground arith)))

-- The rows that a batch deletes, before their ids are taken.
abbrev batch_rows : ℕ → ℕ → Tables → List AlertEvent
batch_rows cutoff batch t =
    take batch (order_by (λ a b. leb a.id b.id) (select_where (is_prunable cutoff) t.events))

-- A batch deletes the rows that it lists at least.
batch-count :
    (cutoff batch : ℕ) (t : Tables)
    → Keyed t
    → length (batch_rows cutoff batch t)
      ≤ count_where (λ e. id_elem e.id (victims cutoff batch t)) t.events
unfolding victims
batch-count cutoff batch t k =
    count_ids-ge (λ (e : AlertEvent). e.id) (batch_rows cutoff batch t) t.events
      (Distinct-take (λ e. e.id) batch _
        (Distinct-order_by (λ e. e.id) _ _
          (Distinct-select_where (λ e. e.id) (is_prunable cutoff) t.events k.event_ids)))
      (All-take _ batch _ (
        All-order_by _ _ _ (
          All-impl _ _ (λ e m. m.0) (select_where (is_prunable cutoff) t.events)
            (All-select_where_both (λ e. Elem e t.events) (is_prunable cutoff) t.events
              (All-of_Elem _ t.events (λ e m. m))))))

Elem-map-key :
    (e : AlertEvent) (es : List AlertEvent) → Elem e es → id_elem e.id (map (λ x. x.id) es) ≡ true
Elem-map-key e es m = Elem-id_elem e.id _ (mapped es m)
  where
    mapped : (es : List AlertEvent) → Elem e es → Elem e.id (map (λ (x : AlertEvent). x.id) es)
    mapped [] m = elim m [ ]
    mapped (x ∷ es) (inl same) = inl (rw same refl)
    mapped (x ∷ es) (inr later) = inr (mapped es later)

-- A batch that is not full lists every row that is to go.
batch-covers :
    (cutoff batch : ℕ) (t : Tables) (e : AlertEvent)
    → length (batch_rows cutoff batch t) < batch
    → Elem e t.events
    → is_prunable cutoff e ≡ true
    → id_elem e.id (victims cutoff batch t) ≡ true
unfolding victims
batch-covers cutoff batch t e short m old =
    rw
      (length-take_full batch
        (order_by (λ a b. leb a.id b.id) (select_where (is_prunable cutoff) t.events)) short)
      (Elem-map-key e _ (Elem-order_by _ e _ (Elem-select_where _ e t.events m old)))

-- No event is left that closed before the cutoff.
abbrev pub Pruned : ℕ → Tables → Type 0
Pruned cutoff t = All (λ e. is_prunable cutoff e ≡ false) t.events

-- After a batch that is not full no event is left to prune.
last_batch-Pruned :
    (cutoff batch : ℕ) (t : Tables)
    → Keyed t
    → (delete_events (victims cutoff batch t) t).1 < batch
    → Pruned cutoff (delete_events (victims cutoff batch t) t).0
unfolding delete_events
last_batch-Pruned cutoff batch t k short =
    All-impl _ _ (λ e h. kept e h.0 h.1)
      (select_where (λ e. not (id_elem e.id (victims cutoff batch t))) t.events)
      (All-select_where_both (λ e. Elem e t.events) _ t.events (All-of_Elem _ t.events (λ e m. m)))
  where
    few : length (batch_rows cutoff batch t) < batch
    few = omega (arith, short, batch-count cutoff batch t k)

    kept :
        (e : AlertEvent)
        → Elem e t.events
        → not (id_elem e.id (victims cutoff batch t)) ≡ true
        → is_prunable cutoff e ≡ false
    kept e m stays = elim (Bool-cases (is_prunable cutoff e)) [
      | inl old ↦ absurd (ground (arith, batch-covers cutoff batch t e few m old))
      | inr fresh ↦ fresh
    ]

-- An event that is not to go stays through a batch.
batch-keeps :
    (cutoff batch : ℕ) (t : Tables) (e : AlertEvent)
    → Keyed t
    → Elem e t.events
    → is_prunable cutoff e ≡ false
    → Elem e (delete_events (victims cutoff batch t) t).0.events
unfolding delete_events victims
batch-keeps cutoff batch t e k m stays =
    Elem-select_where _ e t.events m
      (rw (false_of_not_true (id_elem e.id (victims cutoff batch t)) listed) refl)
  where
    listed : ¬ (id_elem e.id (victims cutoff batch t) ≡ true)
    listed h =
        let (x, among, same) =
          Elem-map (λ (y : AlertEvent). y.id) e.id (batch_rows cutoff batch t)
            (id_elem→Elem e.id _ h) in
        let found =
          All-Elem _ x (batch_rows cutoff batch t)
            (All-take _ batch _ (
              All-order_by _ _ _ (
                All-select_where_both (λ y. Elem y t.events) (is_prunable cutoff) t.events
                  (All-of_Elem _ t.events (λ y m. m)))))
            among in
        let one : e ≡ x = Distinct-same (λ y. y.id) e x t.events k.event_ids m found.0 same in
        absurd (cc (subst (λ y. is_prunable cutoff y ≡ false) one stays, found.1))

-- What the loop of the pruning gives: nothing left to prune, every other event left, the total
-- counted right, and consistent tables.
pub record PruneResult (cutoff total : ℕ) (t : Tables) (r : Tables × ℕ) : Type 0 where
  pub pruned : Pruned cutoff r.0
  pub kept : (e : AlertEvent) → Elem e t.events → is_prunable cutoff e ≡ false → Elem e r.0.events
  pub counted : r.1 + length r.0.events ≡ total + length t.events
  pub consistent : Consistent r.0

-- The events that a batch deletes and those that it leaves are all events.
deleted_lem :
    (ids : List ℕ) (t : Tables)
    → (delete_events ids t).1 + length (delete_events ids t).0.events ≡ length t.events
unfolding delete_events
deleted_lem ids t = length-deleted (λ e. id_elem e.id ids) t.events

-- With more fuel than there are events the loop ends, with that result.
pub prune_loop-returns :
    (fuel cutoff batch total : ℕ) (t : Tables)
    → 0 < batch
    → length t.events < fuel
    → Consistent t
    → (r : Tables × ℕ) × (prune_loop fuel cutoff batch total t ≡ some r)
      × PruneResult cutoff total t r
unfolding prune_loop
prune_loop-returns zero cutoff batch total t full enough c = absurd (omega arith)
prune_loop-returns (suc fuel) cutoff batch total t full enough c =
    let d = delete_events (victims cutoff batch t) t in
    let counted : d.1 + length d.0.events ≡ length t.events =
      deleted_lem (victims cutoff batch t) t in
    let c' = delete_events-Consistent (victims cutoff batch t) t c in
    elim (Bool-cases (ltb d.1 batch)) [
      | inl short ↦ rw short (
        (d.0, total + d.1),
        refl,
        record {
          pruned = last_batch-Pruned cutoff batch t c.keyed (ground arith);
          kept = λ e m stays. batch-keeps cutoff batch t e c.keyed m stays;
          counted = omega arith;
          consistent = c';
        },
      )
      | inr filled ↦
          let (r, returns, good) =
            prune_loop-returns fuel cutoff batch (total + d.1) d.0 full (ground arith) c' in
          rw filled (
            r,
            returns,
            record {
              pruned = good.pruned;
              kept = λ e m stays. good.kept e (batch-keeps cutoff batch t e c.keyed m stays) stays;
              counted = omega (arith, good.counted);
              consistent = good.consistent;
            },
          )
    ]

-- Pruning consistent tables with a positive horizon ends, with as much fuel as there are events
-- and one more: no closed event from before the cutoff is left, every other event is, the count is
-- that of the deleted events, and the tables stay consistent.
pub prune_terminal_events-returns :
    (now horizon batch_size : ℕ) (t : Tables)
    → 0 < horizon
    → Consistent t
    → (r : Tables × ℕ) × (prune_terminal_events (suc (length t.events)) now horizon batch_size t
        ≡ some r)
      × PruneResult (now - horizon) 0 t r
unfolding prune_terminal_events
prune_terminal_events-returns now horizon batch_size t some_horizon c =
    let on : (horizon == 0) ≡ false = ground arith in
    elim (Bool-cases (batch_size == 0)) [
      | inl unset ↦
          rw (on, unset)
            (prune_loop-returns (suc (length t.events)) (now - horizon) default_batch_size 0 t
              (omega arith) (omega arith) c)
      | inr given ↦
          rw (on, given)
            (prune_loop-returns (suc (length t.events)) (now - horizon) batch_size 0 t
              (ground arith) (omega arith) c)
    ]
