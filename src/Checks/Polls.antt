-- ===== src/Checks/Polls.antt =====
-- The theorem on the polls of internal/alerter at a concrete poll.
use gitops_dashboard.Prelude.{
  ℕ, ◌≡◌, refl, [], ◌∷◌, List, some, none, arith, All, ◌==◌, ◌+◌, Distinct,
}
use gitops_dashboard.Prelude.Text.{codes, text_eq}
use gitops_dashboard.Prelude.Rows.{find_where}
use gitops_dashboard.Alerts.Types.{
  AlertDelivery, AlertDispatch, DispatchStatus, EventStatus, Store, Env, ok,
}
use gitops_dashboard.Alerts.Claim.{claim_pending_deliveries, claimed, prepare_delivery}
use gitops_dashboard.Alerts.Invariant.{Consistent}
use gitops_dashboard.Alerter.Worker.{Sink, Worker, Answers, poll_once}
use gitops_dashboard.Alerter.Delivered.{IsSettled}
use gitops_dashboard.Alerter.Claims.{CanPoll, polled_tables, poll_once-settles}
use gitops_dashboard.Alerts.Prepare.{key_problem}
use gitops_dashboard.Checks.Samples.{
  sample_hashes, sample_policy, sample_event, sample_dispatch, sample_tables, sample_store,
}

-- A sink that takes no event of the service x, and fails.
abbrev picky_sink : Sink
picky_sink = record {
  name = codes "s";
  filters = record {
    include = record { services = []; targets = [] };
    exclude = record { services = codes "x" ∷ []; targets = [] };
  };
}

abbrev worker : Worker
worker = record {
  sinks = picky_sink ∷ [];
  retry_policy = sample_policy;
  lease_duration = 60;
  claim_batch = 20;
  worker_id = codes "w";
}

abbrev answers : Answers
answers sink event = some (codes "down")

abbrev store : Store
store = sample_store (sample_tables EventStatus.pending DispatchStatus.pending)

due-Consistent : Consistent store.tables
unfolding gitops_dashboard.Alerts.Status.derived_status gitops_dashboard.Alerts.Status.status_from
    gitops_dashboard.Alerts.Status.tally gitops_dashboard.Prelude.Rows.count_where
due-Consistent = record {
  keyed = record {
    event_ids = (tt, tt);
    events_below = (omega arith, tt);
    dispatch_ids = (tt, tt);
    dispatches_below = ((omega arith, omega arith), tt);
  };
  synced = (refl, tt);
}

abbrev at : ℕ → Env
at now = record { now = now; token = some (codes "t"); sidecar = some (codes "k") }

-- The row of the dispatch under its claim.
abbrev leased : AlertDispatch
leased = record (sample_dispatch DispatchStatus.in_flight) {
  worker_id = codes "w";
  claim_id = codes "t";
  lease_expires_at = some 1060;
  updated_at = 1000;
}

abbrev claimed_store : Store
claimed_store = record store { tables = record store.tables { dispatches = leased ∷ [] } }

abbrev delivery : AlertDelivery
delivery = record { event = sample_event EventStatus.pending; dispatch = leased }

claims :
    claim_pending_deliveries sample_hashes (at 1000) (codes "w") 60 20 sample_policy store
    ≡ (claimed_store, ok (delivery ∷ []))
unfolding claim_pending_deliveries gitops_dashboard.Prelude.Text.text_eq
    gitops_dashboard.Prelude.Text.trim_space gitops_dashboard.Prelude.Text.trim_left
    gitops_dashboard.Prelude.Text.trim_right gitops_dashboard.Prelude.Text.is_space
    gitops_dashboard.Prelude.Text.has_prefix gitops_dashboard.Prelude.Text.text_lt
    gitops_dashboard.Prelude.Text.insert_new gitops_dashboard.Sanitizer.redact
    gitops_dashboard.Sanitizer.redactor_redact gitops_dashboard.Sanitizer.replace_tokens
    gitops_dashboard.Sanitizer.normalize_tokens gitops_dashboard.Sanitizer.note_tokens
    gitops_dashboard.Sanitizer.redact_url_userinfo gitops_dashboard.Sanitizer.flatten_lines
    gitops_dashboard.Sanitizer.strip_from gitops_dashboard.Sanitizer.url_match
    gitops_dashboard.Sanitizer.run_of gitops_dashboard.Sanitizer.in_host
    gitops_dashboard.Sanitizer.in_scheme gitops_dashboard.Sanitizer.in_userinfo
    gitops_dashboard.Sanitizer.is_blank gitops_dashboard.Sanitizer.is_digit
    gitops_dashboard.Sanitizer.is_letter gitops_dashboard.Sanitizer.is_word
    gitops_dashboard.Alerts.Prepare.clean gitops_dashboard.Alerts.Prepare.key_problem
    gitops_dashboard.Alerts.Prepare.is_locked gitops_dashboard.Alerts.Prepare.when_unlocked
    gitops_dashboard.Alerts.Prepare.reject_if gitops_dashboard.Alerts.Prepare.with_key
    gitops_dashboard.Alerts.Prepare.require gitops_dashboard.Alerts.Prepare.settle
    gitops_dashboard.Alerts.Prepare.prepare_dispatch gitops_dashboard.Alerts.Prepare.prepare_event
    gitops_dashboard.Alerts.Claim.claim_in_tx gitops_dashboard.Alerts.Claim.claim_tables
    gitops_dashboard.Alerts.Claim.claimed gitops_dashboard.Alerts.Claim.dead_letter_expired
    gitops_dashboard.Alerts.Claim.due_ids gitops_dashboard.Alerts.Claim.event_ids
    gitops_dashboard.Alerts.Claim.expire gitops_dashboard.Alerts.Claim.joined
    gitops_dashboard.Alerts.Claim.lease_due gitops_dashboard.Alerts.Claim.sync_all
    gitops_dashboard.Alerts.Policy.normalized gitops_dashboard.Prelude.Rows.select_where
    gitops_dashboard.Prelude.Rows.update_where gitops_dashboard.Prelude.Rows.order_by
    gitops_dashboard.Prelude.Rows.insert_by gitops_dashboard.Prelude.id_elem
claims = refl

can_poll : CanPoll sample_hashes worker (at 1000) store (codes "t")
unfolding gitops_dashboard.Prelude.Text.text_eq gitops_dashboard.Prelude.Text.trim_space
    gitops_dashboard.Prelude.Text.trim_left gitops_dashboard.Prelude.Text.trim_right
    gitops_dashboard.Prelude.Text.is_space gitops_dashboard.Prelude.Text.has_prefix
    gitops_dashboard.Prelude.Text.text_lt gitops_dashboard.Prelude.Text.insert_new
    gitops_dashboard.Sanitizer.redact gitops_dashboard.Sanitizer.redactor_redact
    gitops_dashboard.Sanitizer.replace_tokens gitops_dashboard.Sanitizer.normalize_tokens
    gitops_dashboard.Sanitizer.note_tokens gitops_dashboard.Sanitizer.redact_url_userinfo
    gitops_dashboard.Sanitizer.flatten_lines gitops_dashboard.Sanitizer.strip_from
    gitops_dashboard.Sanitizer.url_match gitops_dashboard.Sanitizer.run_of
    gitops_dashboard.Sanitizer.in_host gitops_dashboard.Sanitizer.in_scheme
    gitops_dashboard.Sanitizer.in_userinfo gitops_dashboard.Sanitizer.is_blank
    gitops_dashboard.Sanitizer.is_digit gitops_dashboard.Sanitizer.is_letter
    gitops_dashboard.Sanitizer.is_word gitops_dashboard.Alerts.Prepare.clean
    gitops_dashboard.Alerts.Prepare.key_problem gitops_dashboard.Alerts.Prepare.is_locked
    gitops_dashboard.Alerts.Record.dispatch_row gitops_dashboard.Prelude.Rows.find_where
    gitops_dashboard.Prelude.Rows.exists_where gitops_dashboard.Prelude.Rows.order_by
can_poll = record {
  free = refl;
  current = refl;
  drawn = refl;
  worker_kept = refl;
  token_kept = refl;
  has_worker = refl;
  has_token = refl;
  has_lease = refl;
  has_batch = refl;
  fresh = (refl, tt);
  ids = (refl, tt);
}

current_key : key_problem sample_hashes store (at 1020) ≡ none
unfolding key_problem text_eq
current_key = refl

poll_once-settles_example :
    All
      (λ x.
        (r : AlertDispatch) × (find_where
            (λ r. r.id == x.dispatch.id)
            (poll_once sample_hashes worker answers
              (at 1000)
              (λ x. at 1020)
              store).tables.dispatches
          ≡ some r)
        × IsSettled worker answers (prepare_delivery store x) x.dispatch r)
      (claimed (codes "w") (codes "t") (polled_tables worker (at 1000) (codes "t") store.tables))
poll_once-settles_example =
    poll_once-settles sample_hashes worker answers (at 1000) (λ x. at 1020) store (codes "t")
      due-Consistent can_poll (λ y. (current_key, omega arith))
