-- ===== src/Checks/Alerts.antt =====
-- The theorems on internal/storage/alerts.go at concrete inputs.
use gitops_dashboard.Prelude.{
  ℕ, ◌-◌, ◌*◌, ◌^◌, ◌≡◌, ◌≤◌, refl, true, false, List, [], ◌∷◌, none, some, arith, Elem, All, inl,
  inr,
}
use Prim.Native.Nat.{min}
use gitops_dashboard.Prelude.Text.{
  has_prefix, Text, codes, text_eq, trim_space, trim_left, trim_right, is_space,
}
use gitops_dashboard.Prelude.Rows.{select_where, order_by, exists_where}
use gitops_dashboard.Alerts.Types.{DispatchStatus, EventStatus, Tables, Store, commit, ok}
use gitops_dashboard.Alerts.Policy.{normalized, backoff}
use gitops_dashboard.Alerts.Policy.Bounds.{backoff-eq-min, backoff_mono}
use gitops_dashboard.Alerts.Enqueue.{
  enqueue_prepared, enqueue_alert_event, insert_event, pending_row, cooldown_row,
  store_unless_cooling, store_event, ensure_dispatches,
}
use gitops_dashboard.Alerts.Claim.{claim_tables, claim_pending_deliveries}
use gitops_dashboard.Alerts.Prune.{prune_terminal_events}
use gitops_dashboard.Alerts.Prune.Batches.{PruneResult, prune_terminal_events-returns}
use gitops_dashboard.Alerts.Invariant.Replay.{complete_row-replays}
use gitops_dashboard.Alerts.Prepare.{clean, prepare_dispatch}
use gitops_dashboard.Sanitizer.{
  redact, redactor_redact, normalize_tokens, note_tokens, replace_tokens, flatten_lines,
  redact_url_userinfo, strip_from, url_match, run_of, is_letter, is_digit, is_word, in_scheme,
  in_userinfo, in_host, is_blank,
}
use gitops_dashboard.Alerts.Record.{
  is_claimed_row, complete, complete_tables, complete_row, Completion, record_dispatch_result,
}
use gitops_dashboard.Alerts.Invariant.{Consistent}
use gitops_dashboard.Alerts.Invariant.History.{Work, Step, Many, history-Consistent, history-closed}
use gitops_dashboard.Alerts.Invariant.Within.{Within}
use gitops_dashboard.Alerts.Invariant.Attempts.{PolicyWork, history-attempts}
use gitops_dashboard.Alerts.Invariant.Leases.{claim_tables-keeps, claim_tables-limit, leased_count}
use gitops_dashboard.Alerts.Invariant.Dedupe.{JoinsEvent, enqueue_prepared-dedupes}
use gitops_dashboard.Alerts.Invariant.Enqueue.{insert_event-inserts}
use gitops_dashboard.Alerts.Invariant.Inserted.{with_event}
use gitops_dashboard.Checks.Samples.{
  sample_hashes, sample_env, sample_policy, sample_event, sample_dispatch, sample_tables, no_tables,
  sample_store, no_tables-Consistent, delivered-Consistent, in_flight-Consistent,
}

abbrev sinks : List Text
sinks = codes "s" ∷ []

abbrev completion : Completion
completion = record {
  dispatch_id = 1;
  worker = codes "w";
  claim = codes "c";
  status = DispatchStatus.delivered;
  last_error = [];
}

abbrev delivered_tables : Tables
delivered_tables = sample_tables EventStatus.delivered DispatchStatus.delivered

abbrev in_flight_tables : Tables
in_flight_tables = sample_tables EventStatus.pending DispatchStatus.in_flight

abbrev enqueued : Store → Store
enqueued store =
    (enqueue_alert_event sample_hashes sample_env (sample_event EventStatus.unset) sinks 0 store).0

abbrev recorded : Store → Store
recorded store = (record_dispatch_result sample_hashes sample_env completion sample_policy store).0

abbrev leased : Store → Store
leased store =
    (claim_pending_deliveries sample_hashes sample_env (codes "w") 60 5 sample_policy store).0

history-Consistent_example : Consistent (leased (enqueued (sample_store no_tables))).tables
history-Consistent_example =
    history-Consistent sample_hashes (sample_store no_tables)
      (leased (enqueued (sample_store no_tables))) no_tables-Consistent
      (Many.next
        (Many.next Many.stop (
          Step.work (
            Work.enqueue sample_env (sample_event EventStatus.unset) sinks 0
              (sample_store no_tables))))
        (Step.work (
          Work.claim sample_env (codes "w") 60 5 sample_policy
            (enqueued (sample_store no_tables)))))

history-closed_example :
    Consistent (recorded (sample_store delivered_tables)).tables
    × Elem
        (sample_dispatch DispatchStatus.delivered)
        (recorded (sample_store delivered_tables)).tables.dispatches
history-closed_example =
    history-closed sample_hashes (sample_store delivered_tables)
      (recorded (sample_store delivered_tables)) (sample_dispatch DispatchStatus.delivered)
      delivered-Consistent refl (inl refl)
      (Many.next Many.stop
        (Work.record_result sample_env completion sample_policy (sample_store delivered_tables)))

in_flight-Within : Within (normalized sample_policy).max_attempts in_flight_tables
unfolding normalized
in_flight-Within = ((omega arith, λ _. omega arith), tt)

history-attempts_example :
    Consistent (recorded (sample_store in_flight_tables)).tables
    × Within
        (normalized sample_policy).max_attempts
        (recorded (sample_store in_flight_tables)).tables
history-attempts_example =
    history-attempts sample_hashes sample_policy (sample_store in_flight_tables)
      (recorded (sample_store in_flight_tables)) in_flight-Consistent in_flight-Within
      (Many.next Many.stop
        (PolicyWork.record_result sample_env completion (sample_store in_flight_tables)))

abbrev stored_tables : Tables
stored_tables =
    ensure_dispatches 1 sinks 100 (with_event (sample_event EventStatus.pending) no_tables)

stored_once :
    enqueue_prepared (sample_store no_tables) (sample_event EventStatus.pending) sinks 0 no_tables
    ≡ commit stored_tables (ok (sample_event EventStatus.pending, true))
unfolding enqueue_prepared pending_row cooldown_row store_unless_cooling store_event insert_event
    select_where order_by exists_where
stored_once = refl

enqueue_prepared-dedupes_example : JoinsEvent stored_tables (
    enqueue_prepared
      (sample_store stored_tables)
      (sample_event EventStatus.pending)
      []
      0
      stored_tables)
enqueue_prepared-dedupes_example =
    enqueue_prepared-dedupes (sample_store no_tables) (sample_store stored_tables)
      (sample_event EventStatus.pending) (sample_event EventStatus.pending) (codes "s") [] [] 0 0
      no_tables stored_tables (sample_event EventStatus.pending) no_tables-Consistent stored_once
      refl

claim_tables-keeps_example :
    Elem
      (sample_dispatch DispatchStatus.in_flight)
      (claim_tables 1000 60 5 3 (codes "v") (codes "t") in_flight_tables).dispatches
claim_tables-keeps_example =
    claim_tables-keeps 1000 60 5 3 (codes "v") (codes "t") in_flight_tables
      (sample_dispatch DispatchStatus.in_flight) in_flight-Consistent (inl refl)
      (inr (inl (refl, omega arith)))

other_claim : All (λ d. text_eq d.claim_id (codes "t") ≡ false) in_flight_tables.dispatches
unfolding text_eq
other_claim = (refl, tt)

claim_tables-limit_example :
    leased_count (codes "t") (claim_tables 3000 60 5 3 (codes "v") (codes "t") in_flight_tables) ≤ 5
claim_tables-limit_example =
    claim_tables-limit 3000 60 5 3 (codes "v") (codes "t") in_flight_tables in_flight-Consistent
      refl other_claim

prune_terminal_events-returns_example :
    (r : Tables × ℕ) × (prune_terminal_events 2 1000 10 1 delivered_tables ≡ some r)
    × PruneResult (1000 - 10) 0 delivered_tables r
prune_terminal_events-returns_example =
    prune_terminal_events-returns 1000 10 1 delivered_tables (omega arith) delivered-Consistent

nothing_pending : pending_row delivered_tables (sample_event EventStatus.pending).dedupe_hash ≡ none
unfolding pending_row select_where order_by exists_where text_eq
nothing_pending = refl

insert_event-inserts_example :
    insert_event (sample_event EventStatus.pending) delivered_tables
    ≡ some (with_event (sample_event EventStatus.pending) delivered_tables, 2)
insert_event-inserts_example =
    insert_event-inserts delivered_tables (sample_event EventStatus.pending) delivered-Consistent
      nothing_pending

backoff-eq-min_example :
    backoff sample_policy 4
    ≡ min
        (normalized sample_policy).max_interval
        ((normalized sample_policy).initial_interval * 2 ^ 3)
backoff-eq-min_example = backoff-eq-min sample_policy 3

backoff_mono_example :
    (backoff sample_policy 3 ≤ backoff sample_policy 4)
    × (backoff sample_policy 4 ≤ (normalized sample_policy).max_interval)
    × ((normalized sample_policy).initial_interval ≤ backoff sample_policy 3)
backoff_mono_example = backoff_mono sample_policy 2

kept_worker : clean (sample_store in_flight_tables) (codes "w") ≡ codes "w"
unfolding clean redact redactor_redact normalize_tokens note_tokens order_by replace_tokens
    flatten_lines redact_url_userinfo strip_from url_match run_of is_letter is_digit is_word
    in_scheme in_userinfo in_host is_blank has_prefix trim_space trim_left trim_right is_space
kept_worker = refl

kept_claim : trim_space (codes "c") ≡ codes "c"
unfolding trim_space trim_left trim_right is_space
kept_claim = refl

claimed_row : is_claimed_row completion (sample_dispatch DispatchStatus.in_flight) ≡ true
unfolding text_eq
claimed_row = refl

complete_row-replays_example :
    Elem
      (complete completion sample_policy 1000 1 (sample_dispatch DispatchStatus.in_flight))
      (complete_tables completion sample_policy 1000 1 in_flight_tables).dispatches
    × (complete_row
          (sample_store in_flight_tables)
          completion
          sample_policy
          1500
          (prepare_dispatch
            (sample_store in_flight_tables)
            (complete completion sample_policy 1000 1 (sample_dispatch DispatchStatus.in_flight)))
          in_flight_tables
        ≡ commit in_flight_tables (
            ok (
              prepare_dispatch (sample_store in_flight_tables) (
                complete completion sample_policy 1000 1
                  (sample_dispatch DispatchStatus.in_flight)))))
complete_row-replays_example =
    complete_row-replays (sample_store in_flight_tables) completion sample_policy 1000 1500
      (sample_dispatch DispatchStatus.in_flight) in_flight_tables in_flight_tables refl kept_worker
      kept_claim (inl refl) claimed_row refl
