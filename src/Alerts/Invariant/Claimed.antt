-- ===== src/Alerts/Invariant/Claimed.antt =====
-- What a worker gets from a claim, it holds.
use gitops_dashboard.Prelude.{
  ◌≡◌, ◌≢◌, refl, sym, ap, ◌∙◌, Bool, true, ◌&&◌, List, [], ◌∷◌, ◌++◌, map, some, inl, inr, arith,
  ◌==◌, ==_iff, ==_refl, Elem, All, All-Elem, All-impl, All-append, All-of_Elem, Distinct,
  Distinct-same,
}
use gitops_dashboard.Prelude.Text.{Text, text_eq, text_eq→eq}
use gitops_dashboard.Prelude.Rows.{
  select_where, find_where, exists_where, exists_of_Elem, All-select_where_both, All-order_by,
  Distinct-select_where,
}
use gitops_dashboard.Prelude.Keys.{Distinct-order_by, find_where-misses}
use gitops_dashboard.Prelude.Rows.{find_where-some}
use gitops_dashboard.Prelude.{Option-cases}
use gitops_dashboard.Alerts.Types.{AlertEvent, AlertDispatch, AlertDelivery, DispatchStatus, Tables}
use gitops_dashboard.Alerts.Claim.{is_in_flight, joined, delivery_order, claimed}
use gitops_dashboard.Alerts.Record.{dispatch_row}
use gitops_dashboard.Alerts.Invariant.{Keyed}

-- The row of a delivery and its event are in the tables.
abbrev IsRow : List AlertEvent → List AlertDispatch → AlertDelivery → Type 0
IsRow es ds x = Elem x.event es × Elem x.dispatch ds × (x.dispatch.event_id ≡ x.event.id)

rows_of :
    (e : AlertEvent) (ds xs : List AlertDispatch)
    → All (λ d. Elem d ds × ((d.event_id == e.id) ≡ true)) xs
    → All {A = AlertDelivery}
        (λ x. (x.event ≡ e) × Elem x.dispatch ds × (x.dispatch.event_id ≡ e.id))
        (map (λ d. record { event = e; dispatch = d }) xs)
rows_of e ds [] h = tt
rows_of e ds (d ∷ xs) h = ((refl, h.0.0, (==_iff d.event_id e.id).0 h.0.1), rows_of e ds xs h.1)

own_rows :
    (e : AlertEvent) (ds : List AlertDispatch)
    → All {A = AlertDelivery}
        (λ x. (x.event ≡ e) × Elem x.dispatch ds × (x.dispatch.event_id ≡ e.id))
        (map (λ d. record { event = e; dispatch = d }) (select_where (λ d. d.event_id == e.id) ds))
own_rows e ds = rows_of e ds (select_where (λ d. d.event_id == e.id) ds) (
    All-select_where_both (λ d. Elem d ds) (λ d. d.event_id == e.id) ds
      (All-of_Elem _ ds (λ d m. m)))

joined-IsRow : (es : List AlertEvent) (ds : List AlertDispatch) → All (IsRow es ds) (joined es ds)
unfolding joined
joined-IsRow [] ds = tt
joined-IsRow (e ∷ es) ds =
    All-append (IsRow (e ∷ es) ds)
      (map (λ d. record { event = e; dispatch = d }) (select_where _ ds)) (joined es ds)
      (All-impl _ (IsRow (e ∷ es) ds)
        (λ x h. (inl h.0, h.1, h.2 ∙ ap (λ (y : AlertEvent). y.id) (sym h.0))) _ (own_rows e ds))
      (All-impl (IsRow es ds) (IsRow (e ∷ es) ds) (λ x h. (inr h.0, h.1, h.2)) (joined es ds)
        (joined-IsRow es ds))

Distinct-append :
    (xs ys : List AlertDelivery)
    → Distinct (λ x. x.dispatch.id) xs
    → Distinct (λ x. x.dispatch.id) ys
    → All (λ x. All (λ y. y.dispatch.id ≢ x.dispatch.id) ys) xs
    → Distinct (λ x. x.dispatch.id) (xs ++ ys)
Distinct-append [] ys dx dy apart = dy
Distinct-append (x ∷ xs) ys dx dy apart =
    (All-append _ xs ys dx.0 apart.0, Distinct-append xs ys dx.1 dy apart.1)

Distinct-rows :
    (e : AlertEvent) (ds : List AlertDispatch)
    → Distinct (λ d. d.id) ds
    → Distinct {A = AlertDelivery}
        (λ x. x.dispatch.id)
        (map (λ d. record { event = e; dispatch = d }) ds)
Distinct-rows e [] d = tt
Distinct-rows e (x ∷ ds) d = (others ds d.0, Distinct-rows e ds d.1)
  where
    others :
        (ys : List AlertDispatch)
        → All (λ y. y.id ≢ x.id) ys
        → All {A = AlertDelivery}
            (λ y. y.dispatch.id ≢ x.id)
            (map (λ d. record { event = e; dispatch = d }) ys)
    others [] h = tt
    others (y ∷ ys) h = (h.0, others ys h.1)

joined-Distinct :
    (es : List AlertEvent) (ds : List AlertDispatch)
    → Distinct (λ e. e.id) es
    → Distinct (λ d. d.id) ds
    → Distinct (λ x. x.dispatch.id) (joined es ds)
unfolding joined
joined-Distinct [] ds de dd = tt
joined-Distinct (e ∷ es) ds de dd =
    Distinct-append _ (joined es ds)
      (Distinct-rows e (select_where (λ d. d.event_id == e.id) ds)
        (Distinct-select_where (λ d. d.id) _ ds dd))
      (joined-Distinct es ds de.1 dd)
      (All-impl _ (λ x. All (λ y. y.dispatch.id ≢ x.dispatch.id) (joined es ds))
        (λ x h.
          All-impl (IsRow es ds) (λ y. y.dispatch.id ≢ x.dispatch.id)
            (λ y k same.
              let one : y.dispatch ≡ x.dispatch =
                Distinct-same (λ d. d.id) y.dispatch x.dispatch ds dd k.1 h.1 same in
              All-Elem (λ o. o.id ≢ e.id) y.event es de.0 k.0
                (sym k.2 ∙ ap (λ (d : AlertDispatch). d.event_id) one ∙ h.2))
            (joined es ds) (joined-IsRow es ds))
        _ (own_rows e ds))

pub claimed-Distinct :
    (worker claim : Text) (t : Tables)
    → Keyed t
    → Distinct (λ x. x.dispatch.id) (claimed worker claim t)
unfolding claimed
claimed-Distinct worker claim t k =
    Distinct-order_by (λ x. x.dispatch.id) delivery_order _
      (Distinct-select_where (λ x. x.dispatch.id) _ (joined t.events t.dispatches)
        (joined-Distinct t.events t.dispatches k.event_ids k.dispatch_ids))

-- The rows of the deliveries, found by their ids, in flight under the claim.
abbrev pub IsClaimed : Text → Text → Tables → AlertDelivery → Type 0
IsClaimed worker claim t x =
    Elem x.dispatch t.dispatches
    × (dispatch_row x.dispatch.id t ≡ some x.dispatch)
    × (x.dispatch.status ≡ DispatchStatus.in_flight)
    × (x.dispatch.worker_id ≡ worker)
    × (x.dispatch.claim_id ≡ claim)

flying :
    (s : DispatchStatus)
    → gitops_dashboard.Alerts.Types.status_eq s DispatchStatus.in_flight ≡ true
    → s ≡ DispatchStatus.in_flight
flying DispatchStatus.in_flight h = refl
flying _ h = cc

dispatch_row-IsRow :
    (t : Tables) (x : AlertDelivery)
    → Keyed t
    → IsRow t.events t.dispatches x
    → dispatch_row x.dispatch.id t ≡ some x.dispatch
unfolding dispatch_row
dispatch_row-IsRow t x k (me, md, own) =
    let p : AlertDispatch → Bool =
      λ d. d.id == x.dispatch.id && exists_where (λ e. e.id == d.event_id) t.events in
    let hit : p x.dispatch ≡ true =
      rw
        (
          ==_refl x.dispatch.id,
          exists_of_Elem (λ e. e.id == x.dispatch.event_id) x.event t.events me
              ((==_iff x.event.id x.dispatch.event_id).1 (sym own)),
        )
        refl in
    elim (Option-cases (find_where p t.dispatches)) [
      | inl missed ↦ cc (find_where-misses p x.dispatch t.dispatches missed md, hit)
      | inr (d, found) ↦
          let (m, e) = find_where-some p d t.dispatches found in
          let same : d.id ≡ x.dispatch.id = (==_iff d.id x.dispatch.id).0 (ground arith) in
          found
          ∙ ap some (Distinct-same (λ y. y.id) d x.dispatch t.dispatches k.dispatch_ids m md same)
    ]

pub claimed-IsClaimed :
    (worker claim : Text) (t : Tables)
    → Keyed t
    → All (IsClaimed worker claim t) (claimed worker claim t)
unfolding claimed
claimed-IsClaimed worker claim t k = All-order_by (IsClaimed worker claim t) delivery_order _ (
    All-impl _ (IsClaimed worker claim t)
      (λ x h.
        let fl : is_in_flight x.dispatch ≡ true = let hit = h.1 in ground arith in
        let w : text_eq x.dispatch.worker_id worker ≡ true = let hit = h.1 in ground arith in
        let c : text_eq x.dispatch.claim_id claim ≡ true = let hit = h.1 in ground arith in
        (
          h.0.1,
          dispatch_row-IsRow t x k h.0,
          flying x.dispatch.status fl,
          text_eq→eq _ _ w,
          text_eq→eq _ _ c,
        ))
      _
      (All-select_where_both (IsRow t.events t.dispatches) _ (joined t.events t.dispatches)
        (joined-IsRow t.events t.dispatches)))
