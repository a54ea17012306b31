-- ===== src/Checks/Samples.antt =====
-- Small stores and arguments.
use gitops_dashboard.Prelude.{refl, false, [], ◌∷◌, ◌++◌, none, some, arith}
use gitops_dashboard.Prelude.Text.{codes}
use gitops_dashboard.Alerts.Types.{
  AlertEvent, AlertDispatch, DispatchStatus, EventStatus, Tables, Store, Env, Hashes,
}
use gitops_dashboard.Alerts.Policy.{AlertRetryPolicy}
use gitops_dashboard.Alerts.Status.{tally, status_from, derived_status}
use gitops_dashboard.Alerts.Invariant.{Consistent}
use gitops_dashboard.Prelude.Rows.{count_where}

abbrev pub sample_hashes : Hashes
sample_hashes = record { hmac = λ key raw. key ++ raw; fingerprint = λ key. 9 ∷ key }

abbrev pub sample_env : Env
sample_env = record { now = 1000; token = some (codes "t"); sidecar = some (codes "k") }

abbrev pub sample_policy : AlertRetryPolicy
sample_policy = record { max_attempts = 3; initial_interval = 10; max_interval = 300 }

abbrev pub sample_event : EventStatus → AlertEvent
sample_event status = record {
  id = 1;
  kind = codes "agent.offline";
  service_id = [];
  target = [];
  repository = [];
  agent = codes "a";
  old_state = codes "online";
  new_state = codes "offline";
  reason = [];
  dedupe_key = codes "d";
  cooldown_key = [];
  dedupe_hash = codes "kd";
  created_at = 100;
  status = status;
}

abbrev pub sample_dispatch : DispatchStatus → AlertDispatch
sample_dispatch status = record {
  id = 1;
  event_id = 1;
  sink = codes "s";
  status = status;
  worker_id = codes "w";
  claim_id = codes "c";
  attempts = 1;
  last_error = [];
  delivered_at = none;
  lease_expires_at = some 2000;
  next_attempt_at = 0;
  updated_at = 100;
}

abbrev pub sample_tables : EventStatus → DispatchStatus → Tables
sample_tables event dispatch = record {
  events = sample_event event ∷ [];
  dispatches = sample_dispatch dispatch ∷ [];
  next_event_id = 2;
  next_dispatch_id = 2;
}

abbrev pub no_tables : Tables
no_tables = record { events = []; dispatches = []; next_event_id = 1; next_dispatch_id = 1 }

abbrev pub sample_store : Tables → Store
sample_store tables = record {
  dedupe_key = codes "k";
  redaction_tokens = [];
  sink_names = [];
  sink_allowlist = false;
  durable_lock = none;
  cleanup_lock = none;
  fingerprint_row = some (9 ∷ codes "k");
  tables = tables;
}

pub no_tables-Consistent : Consistent no_tables
no_tables-Consistent = record {
  keyed = record { event_ids = tt; events_below = tt; dispatch_ids = tt; dispatches_below = tt };
  synced = tt;
}

-- A delivered event with its delivered dispatch.
pub delivered-Consistent : Consistent (sample_tables EventStatus.delivered DispatchStatus.delivered)
unfolding derived_status status_from tally count_where
delivered-Consistent = record {
  keyed = record {
    event_ids = (tt, tt);
    events_below = (omega arith, tt);
    dispatch_ids = (tt, tt);
    dispatches_below = ((omega arith, omega arith), tt);
  };
  synced = (refl, tt);
}

-- A pending event with its dispatch in flight.
pub in_flight-Consistent : Consistent (sample_tables EventStatus.pending DispatchStatus.in_flight)
unfolding derived_status status_from tally count_where
in_flight-Consistent = record {
  keyed = record {
    event_ids = (tt, tt);
    events_below = (omega arith, tt);
    dispatch_ids = (tt, tt);
    dispatches_below = ((omega arith, omega arith), tt);
  };
  synced = (refl, tt);
}
