-- ===== src/Alerts/Invariant/Apart.antt =====
-- A completion leaves the other dispatches.
use gitops_dashboard.Prelude.{
  ℕ, ◌≡◌, ◌≢◌, refl, sym, ap, ◌∙◌, Bool, true, false, ◌&&◌, List, [], ◌∷◌, inl, inr, arith, ◌==◌,
  Bool-cases, ==_iff,
}
use gitops_dashboard.Prelude.Rows.{update_where, exists_where, find_where}
use gitops_dashboard.Alerts.Types.{AlertDispatch, Tables}
use gitops_dashboard.Alerts.Policy.{AlertRetryPolicy}
use gitops_dashboard.Alerts.Status.{sync_event_status, sync_events}
use gitops_dashboard.Alerts.Record.{
  Completion, is_claimed_row, lease_is_live, complete, complete_tables, dispatch_row,
}
use gitops_dashboard.Alerts.Invariant.Settled.{IsHeld, settled_tables}

module _ {A : Type 0} where
  find_where-apart :
      (p q : A → Bool) (f : A → A) (xs : List A)
      → ((x : A) → p x ≡ true → (q x ≡ false) × (q (f x) ≡ false))
      → find_where q (update_where p f xs) ≡ find_where q xs
  unfolding find_where update_where
  find_where-apart p q f [] apart = refl
  find_where-apart p q f (x ∷ xs) apart =
      let rest = find_where-apart p q f xs apart in
      elim (Bool-cases (p x)) [
        | inl e ↦ rw (e, (apart x e).0, (apart x e).1) rest
        | inr e ↦ elim (Bool-cases (q x)) [
          | inl hit ↦ rw (e, hit) refl
          | inr miss ↦ rw (e, miss) rest
        ]
      ]

  exists_where-update_where :
      (p q : A → Bool) (f : A → A) (xs : List A)
      → ((x : A) → q (f x) ≡ q x)
      → exists_where q (update_where p f xs) ≡ exists_where q xs
  unfolding exists_where update_where
  exists_where-update_where p q f [] same = refl
  exists_where-update_where p q f (x ∷ xs) same =
      let rest = exists_where-update_where p q f xs same in
      elim (Bool-cases (p x)) [ inl e ↦ rw (e, same x, rest) refl | inr e ↦ rw (e, rest) refl ]

  find_where-same :
      (p q : A → Bool) (xs : List A) → ((x : A) → p x ≡ q x) → find_where p xs ≡ find_where q xs
  unfolding find_where
  find_where-same p q [] same = refl
  find_where-same p q (x ∷ xs) same = rw (same x, find_where-same p q xs same) refl

module _ (c : Completion) (policy : AlertRetryPolicy) (now : ℕ) (d : AlertDispatch) (t : Tables)
    (j : ℕ) (other : j ≢ c.dispatch_id) where
  -- The row that is completed has another id.
  claimed-other :
      (r : AlertDispatch) → is_claimed_row c r && lease_is_live now r ≡ true → (r.id == j) ≡ false
  claimed-other r hit = elim (Bool-cases (r.id == j)) [
    | inr e ↦ e
    | inl e ↦
        let own : (r.id == c.dispatch_id) ≡ true = ground arith in
        absurd (other (sym ((==_iff r.id j).0 e) ∙ (==_iff r.id c.dispatch_id).0 own))
  ]

  pub settled_tables-apart :
      find_where (λ r. r.id == j) (settled_tables c policy now d t).dispatches
      ≡ find_where (λ r. r.id == j) t.dispatches
  unfolding sync_event_status complete_tables complete
  settled_tables-apart =
      find_where-apart _ _ _ t.dispatches (λ r hit. (claimed-other r hit, claimed-other r hit))

  pub settled_tables-dispatch_row :
      dispatch_row j (settled_tables c policy now d t) ≡ dispatch_row j t
  unfolding dispatch_row sync_event_status sync_events complete_tables complete
  settled_tables-dispatch_row =
      find_where-same _ (λ r. r.id == j && exists_where (λ e. e.id == r.event_id) t.events) _
        (λ r. ap (λ b. r.id == j && b) (exists_where-update_where _ _ _ t.events (λ e. refl)))
      ∙ find_where-apart _ _ _ t.dispatches
          (λ r hit. let miss = claimed-other r hit in (rw miss refl, rw miss refl))

pub IsHeld-settled :
    (c c' : Completion) (policy : AlertRetryPolicy) (now now' : ℕ) (d d' : AlertDispatch)
    (t : Tables)
    → c'.dispatch_id ≢ c.dispatch_id
    → IsHeld t now' c' d'
    → IsHeld (settled_tables c policy now d t) now' c' d'
IsHeld-settled c c' policy now now' d d' t other h = record {
  found = settled_tables-dispatch_row c policy now d t c'.dispatch_id other ∙ h.found;
  in_flight = h.in_flight;
  worker = h.worker;
  claim = h.claim;
  live = h.live;
}
