-- ===== src/Alerter/Claims.antt =====
-- A poll settles every dispatch that it claims.
use gitops_dashboard.Prelude.{
  ◌+◌, ◌<◌, ◌≡◌, ◌≢◌, refl, sym, ap, ◌∙◌, subst, false, List, [], ◌∷◌, map, some, none, ◌==◌, arith,
  All, All-Elem, All-impl, All-of_Elem, Distinct,
}
use mathlib.Core.Option
use gitops_dashboard.Prelude.Text.{Text, is_empty, text_eq, text_eq_refl, trim_space}
use gitops_dashboard.Prelude.Rows.{find_where}
use gitops_dashboard.Alerts.Types.{AlertDelivery, AlertDispatch, Store, Env, Hashes, Tables, ok}
use gitops_dashboard.Alerts.Policy.{normalized}
use gitops_dashboard.Alerts.Prepare.{
  is_locked, key_problem, clean, prepare_dispatch, when_unlocked, with_key, require, reject_if,
  settle,
}
use gitops_dashboard.Alerts.Claim.{
  claim_pending_deliveries, claim_in_tx, claim_tables, claimed, prepare_delivery,
}
use gitops_dashboard.Alerts.Record.{dispatch_row}
use gitops_dashboard.Alerts.Invariant.{Consistent}
use gitops_dashboard.Alerts.Invariant.Claim.{claim_tables-Consistent}
use gitops_dashboard.Alerts.Invariant.Claimed.{IsClaimed, claimed-Distinct, claimed-IsClaimed}
use gitops_dashboard.Alerts.Invariant.Settled.{IsHeld, prepared}
use gitops_dashboard.Alerts.Invariant.Fresh.{claim_tables-lease, claim_tables-ids}
use gitops_dashboard.Alerter.Worker.{Worker, Answers, poll_once}
use gitops_dashboard.Alerter.Delivered.{IsSettled, said}
use gitops_dashboard.Alerter.Polls.{CanRecord, poll_once-IsSettled}

All-mapped :
    {A B : Type 0} (P : B → Type 0) (f : A → B) (xs : List A)
    → All (λ x. P (f x)) xs
    → All P (map f xs)
All-mapped P f [] h = tt
All-mapped P f (x ∷ xs) h = (h.0, All-mapped P f xs h.1)

All-of_map :
    {A B : Type 0} (P : B → Type 0) (f : A → B) (xs : List A)
    → All P (map f xs)
    → All (λ x. P (f x)) xs
All-of_map P f [] h = tt
All-of_map P f (x ∷ xs) h = (h.0, All-of_map P f xs h.1)

Distinct-prepared :
    (store : Store) (xs : List AlertDelivery)
    → Distinct (λ x. x.dispatch.id) xs
    → Distinct (λ x. x.dispatch.id) (map (prepare_delivery store) xs)
unfolding prepare_dispatch
Distinct-prepared store [] d = tt
Distinct-prepared store (x ∷ xs) d = (
  All-mapped (λ y. y.dispatch.id ≢ x.dispatch.id) (prepare_delivery store) xs d.0,
  Distinct-prepared store xs d.1,
)

-- The worker and the token of a poll: neither is empty, cleaning keeps them, no row has the token,
-- and the key of the store is the current one.
pub record CanPoll (hashes : Hashes) (w : Worker) (env : Env) (store : Store) (token : Text)
    : Type 0 where
  pub free : is_locked store ≡ false
  pub current : key_problem hashes store env ≡ none
  pub drawn : env.token ≡ some token
  pub worker_kept : clean store w.worker_id ≡ w.worker_id
  pub token_kept : trim_space token ≡ token
  pub has_worker : is_empty w.worker_id ≡ false
  pub has_token : is_empty token ≡ false
  pub has_lease : (w.lease_duration == 0) ≡ false
  pub has_batch : (w.claim_batch == 0) ≡ false
  pub fresh : All (λ d. text_eq d.claim_id token ≡ false) store.tables.dispatches
  pub ids : All (λ d. (d.id == 0) ≡ false) store.tables.dispatches

-- The tables after the claim of a poll.
abbrev pub polled_tables : Worker → Env → Text → Tables → Tables
polled_tables w env token t =
    claim_tables env.now w.lease_duration w.claim_batch (normalized w.retry_policy).max_attempts
      w.worker_id token t

claim_pending_deliveries-claims :
    (hashes : Hashes) (w : Worker) (env : Env) (store : Store) (token : Text)
    → CanPoll hashes w env store token
    → claim_pending_deliveries hashes env w.worker_id w.lease_duration w.claim_batch w.retry_policy
        store
      ≡ (
        record store { tables = polled_tables w env token store.tables },
        ok (
            map
              (prepare_delivery store)
              (claimed w.worker_id token (polled_tables w env token store.tables))),
      )
unfolding claim_pending_deliveries when_unlocked claim_in_tx reject_if with_key require settle
claim_pending_deliveries-claims hashes w env store token can =
    rw
      (
        can.free, can.worker_kept, can.has_worker, can.has_lease, can.has_batch, can.current,
        can.drawn,
      )
      refl

-- The row of a delivery in some tables.
row_in : Tables → AlertDelivery → AlertDispatch
row_in t y = Option.get_or (dispatch_row y.dispatch.id t) y.dispatch

claimed-CanRecord :
    (hashes : Hashes) (w : Worker) (answers : Answers) (env : Env) (envs : AlertDelivery → Env)
    (store : Store) (token : Text) (x : AlertDelivery)
    → CanPoll hashes w env store token
    → key_problem hashes store (envs (prepare_delivery store x)) ≡ none
    → (envs (prepare_delivery store x)).now < env.now + w.lease_duration
    → IsClaimed w.worker_id token (polled_tables w env token store.tables) x
    → CanRecord hashes w answers envs
        (row_in (polled_tables w env token store.tables))
        (record store { tables = polled_tables w env token store.tables })
        (prepare_delivery store x)
unfolding row_in is_locked key_problem clean prepare_dispatch
claimed-CanRecord hashes w answers env envs store token x can key early
      (m, found, flies, mine, own) =
    let t = polled_tables w env token store.tables in
    let lease : x.dispatch.lease_expires_at ≡ some (env.now + w.lease_duration) =
      All-Elem _ x.dispatch t.dispatches
        (claim_tables-lease env.now w.lease_duration w.claim_batch
          (normalized w.retry_policy).max_attempts w.worker_id token store.tables can.has_token
          can.fresh)
        m (rw own (text_eq_refl token)) in
    let id =
      All-Elem _ x.dispatch t.dispatches
        (claim_tables-ids env.now w.lease_duration w.claim_batch
          (normalized w.retry_policy).max_attempts w.worker_id token store.tables can.ids)
        m in
    let row : row_in t (prepare_delivery store x) ≡ x.dispatch = rw found refl in
    let claim : trim_space x.dispatch.claim_id ≡ token = ap trim_space own ∙ can.token_kept in
    let again : trim_space (trim_space x.dispatch.claim_id) ≡ token =
      ap trim_space claim ∙ can.token_kept in
    (
      record {
        free = can.free;
        current = key;
        has_id = id;
        has_worker = subst (λ v. is_empty v ≡ false) (sym can.worker_kept) can.has_worker;
        has_claim = subst (λ v. is_empty v ≡ false) (sym again) can.has_token;
        worker_kept = ap (clean store) can.worker_kept;
        claim_kept = ap trim_space again ∙ can.token_kept ∙ sym again;
      },
      subst
          (λ d.
            IsHeld t (envs (prepare_delivery store x)).now
              (prepared (record store { tables = t }) (said w answers (prepare_delivery store x)))
              d)
          (sym row)
          (record {
            found = found;
            in_flight = flies;
            worker = mine ∙ sym can.worker_kept;
            claim = own ∙ sym again;
            live = rw lease (ground (arith, early));
          }),
    )

-- In a poll on consistent tables of an unlocked store, under a current key, a worker and a fresh
-- token that cleaning keeps, with a positive lease and batch, where every completion is made under
-- a current key before the lease ends: every dispatch that the poll claims is settled after it,
-- with one attempt more than its claimed row. It is delivered if its sink is configured, its
-- filters take the event and the sink answers with no error; it is skipped if no sink has its name
-- or the filters of the sink do not take the event; and if the sink takes the event and fails, it
-- is pending while attempts are left under the worker's normalized policy, and dead-lettered
-- otherwise. Filters take an event if no exclude list names it and each include list is empty or
-- names it.
pub poll_once-settles :
    (hashes : Hashes) (w : Worker) (answers : Answers) (env : Env) (envs : AlertDelivery → Env)
    (store : Store) (token : Text)
    → Consistent store.tables
    → CanPoll hashes w env store token
    → ((y : AlertDelivery)
        → (key_problem hashes store (envs y) ≡ none) × ((envs y).now < env.now + w.lease_duration))
    → All
        (λ x.
          (r : AlertDispatch) × (find_where
              (λ r. r.id == x.dispatch.id)
              (poll_once hashes w answers env envs store).tables.dispatches
            ≡ some r)
          × IsSettled w answers (prepare_delivery store x) x.dispatch r)
        (claimed w.worker_id token (polled_tables w env token store.tables))
unfolding row_in prepare_dispatch
poll_once-settles hashes w answers env envs store token h can early =
    let t = polled_tables w env token store.tables in
    let k =
      (claim_tables-Consistent env.now w.lease_duration w.claim_batch
        (normalized w.retry_policy).max_attempts w.worker_id token store.tables h).keyed in
    let got = claimed w.worker_id token t in
    let held = claimed-IsClaimed w.worker_id token t k in
    let settled =
      poll_once-IsSettled hashes w answers envs (row_in t) env store (record store { tables = t })
        (map (prepare_delivery store) got) h
        (claim_pending_deliveries-claims hashes w env store token can)
        (Distinct-prepared store got (claimed-Distinct w.worker_id token t k))
        (All-mapped _ (prepare_delivery store) got (
          All-impl (IsClaimed w.worker_id token t) _
            (λ x c.
              let (key, soon) = early (prepare_delivery store x) in
              claimed-CanRecord hashes w answers env envs store token x can key soon c)
            got held)) in
    All-of_Elem _ got (λ x m.
      let c = All-Elem (IsClaimed w.worker_id token t) x got held m in
      let (r, found, s) =
        All-Elem
          (λ x.
            (r : AlertDispatch) × (find_where (λ r. r.id == x.dispatch.id)
                (poll_once hashes w answers env envs store).tables.dispatches
              ≡ some r)
            × IsSettled w answers (prepare_delivery store x) (row_in t (prepare_delivery store x))
                r)
          x got (All-of_map _ (prepare_delivery store) got settled) m in
      let row : row_in t (prepare_delivery store x) ≡ x.dispatch = rw c.1 refl in
      (r, found, subst (λ d. IsSettled w answers (prepare_delivery store x) d r) row s))
