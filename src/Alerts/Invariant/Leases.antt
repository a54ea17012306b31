-- ===== src/Alerts/Invariant/Leases.antt =====
-- What a claim takes and what it leaves alone.
use gitops_dashboard.Prelude.{
  ℕ, ◌<◌, ◌≤◌, ◌≡◌, refl, subst, false, List, [], ◌∷◌, ◌⊎◌, inl, inr, arith, All, All-Elem, Elem,
  Distinct-same, id_elem, length, length-take-le, map, take, false_of_not_true,
}
use mathlib.Core.Option
use gitops_dashboard.Prelude.Text.{Text, is_empty, text_eq}
use gitops_dashboard.Prelude.Rows.{
  select_where, update_where, count_where, All-update_where, order_by,
}
use gitops_dashboard.Prelude.Keys.{count_ids-le, Elem-update_where, count_where-update_le}
use gitops_dashboard.Alerts.Types.{AlertDispatch, AlertDelivery, DispatchStatus, Tables}
use gitops_dashboard.Alerts.Status.{is_open}
use gitops_dashboard.Alerts.Claim.{
  is_exhausted, is_due, dead_letter, dead_letter_expired, expire, event_ids, due_ids, lease_due,
  lease_to, claim_tables, joined, delivery_order,
}
use gitops_dashboard.Alerts.Invariant.{Consistent}
use gitops_dashboard.Alerts.Invariant.Claim.{due_ids-due, sync_all-dispatches, expire-Consistent}

-- A dispatch that no claim at the time `now` may take: it is closed, or its lease still runs, or
-- its next attempt is later.
abbrev pub OutOfReach : ℕ → AlertDispatch → Type 0
OutOfReach now d =
    (is_open d.status ≡ false)
    ⊎ ((d.status ≡ DispatchStatus.in_flight) × (now < Option.get_or d.lease_expires_at 0))
    ⊎ ((d.status ≡ DispatchStatus.pending) × (now < d.next_attempt_at))

OutOfReach-quiet :
    (now max_attempts : ℕ) (d : AlertDispatch)
    → OutOfReach now d
    → (is_exhausted now max_attempts d ≡ false) × (is_due now max_attempts d ≡ false)
OutOfReach-quiet now max_attempts d (inl closed) = (ground arith, ground arith)
OutOfReach-quiet now max_attempts d (inr (inl (flying, live))) =
    (rw flying (ground arith), rw flying (ground arith))
OutOfReach-quiet now max_attempts d (inr (inr (waiting, later))) =
    (rw waiting refl, rw waiting (ground arith))

pub expire-dispatches :
    (now max_attempts : ℕ) (t : Tables)
    → (expire now max_attempts t).dispatches
      ≡ update_where (is_exhausted now max_attempts) (dead_letter now) t.dispatches
unfolding expire dead_letter_expired
expire-dispatches now max_attempts t =
    sync_all-dispatches (event_ids (select_where (is_exhausted now max_attempts) t.dispatches))
      (dead_letter_expired now max_attempts t)

-- A claim on consistent tables leaves every dispatch as it is that is closed, whose lease still
-- runs, or whose next attempt is later.
pub claim_tables-keeps :
    (now lease limit max_attempts : ℕ) (worker claim : Text) (t : Tables) (d : AlertDispatch)
    → Consistent t
    → Elem d t.dispatches
    → OutOfReach now d
    → Elem d (claim_tables now lease limit max_attempts worker claim t).dispatches
unfolding claim_tables lease_due
claim_tables-keeps now lease limit max_attempts worker claim t d c m far =
    let t' = expire now max_attempts t in
    let (spared, idle) = OutOfReach-quiet now max_attempts d far in
    let m' : Elem d t'.dispatches =
      rw (expire-dispatches now max_attempts t) (Elem-update_where _ _ d t.dispatches m spared) in
    let c' : Consistent t' = expire-Consistent now max_attempts t c in
    Elem-update_where _ _ d t'.dispatches m' (
      false_of_not_true _ (λ listed.
        let (x, mx, due, same) = due_ids-due now max_attempts limit d.id t' listed in
        let one : d ≡ x =
          Distinct-same (λ y. y.id) d x t'.dispatches c'.keyed.dispatch_ids m' mx same in
        cc (subst (λ y. is_due now max_attempts y ≡ false) one idle, due)))

length-map {ℓ κ} :
    {A : Type ℓ} {B : Type κ} (f : A → B) (xs : List A) → length (map f xs) ≡ length xs
length-map f [] = refl
length-map f (x ∷ xs) = omega (arith, length-map f xs)

due_ids-few :
    (now max_attempts limit : ℕ) (t : Tables) → length (due_ids now max_attempts limit t) ≤ limit
unfolding due_ids
due_ids-few now max_attempts limit t =
    let rows =
      order_by delivery_order
        (select_where (λ x. is_due now max_attempts x.dispatch) (joined t.events t.dispatches)) in
    omega (
      arith,
      length-map (λ (x : AlertDelivery). x.dispatch.id) (take limit rows),
      length-take-le limit rows,
    )

-- The dispatches under a claim.
unfoldable pub leased_count : Text → Tables → ℕ
leased_count claim t = count_where (λ d. text_eq d.claim_id claim) t.dispatches

pub no_claim : (claim : Text) → is_empty claim ≡ false → text_eq [] claim ≡ false
unfolding text_eq
no_claim [] h = cc
no_claim (x ∷ xs) h = refl

-- A claim on consistent tables with a fresh token that is not empty leases no more dispatches than
-- its limit.
pub claim_tables-limit :
    (now lease limit max_attempts : ℕ) (worker claim : Text) (t : Tables)
    → Consistent t
    → is_empty claim ≡ false
    → All (λ d. text_eq d.claim_id claim ≡ false) t.dispatches
    → leased_count claim (claim_tables now lease limit max_attempts worker claim t) ≤ limit
unfolding claim_tables lease_due leased_count
claim_tables-limit now lease limit max_attempts worker claim t c real fresh =
    let t' = expire now max_attempts t in
    let c' : Consistent t' = expire-Consistent now max_attempts t c in
    let ids = due_ids now max_attempts limit t' in
    let taken =
      count_where-update_le (λ d. text_eq d.claim_id claim) (λ d. id_elem d.id ids)
        (lease_to worker claim now lease) t'.dispatches
        (λ d m _. All-Elem _ d t'.dispatches still_fresh m) in
    omega (
      arith,
      taken,
      count_ids-le (λ (d : AlertDispatch). d.id) ids t'.dispatches c'.keyed.dispatch_ids,
      due_ids-few now max_attempts limit t',
    )
  where
    still_fresh : All (λ d. text_eq d.claim_id claim ≡ false) (expire now max_attempts t).dispatches
    still_fresh =
        rw (expire-dispatches now max_attempts t)
          (All-update_where _ _ _ t.dispatches (λ d _ _. no_claim claim real) fresh)
