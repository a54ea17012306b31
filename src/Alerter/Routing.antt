-- ===== src/Alerter/Routing.antt =====
-- The filters of internal/alerter/sink.go and the texts of internal/alerter/payload.go.
use gitops_dashboard.Prelude.{Bool, true, false, not, ◌&&◌, ◌||◌, List, ◌++◌, if◌then◌else◌, is_nil}
use gitops_dashboard.Prelude.Text.{Text, codes, is_empty, has_suffix, text_elem}
use gitops_dashboard.Alerts.Types.{AlertEvent}

-- `config.AlertSinkFilterConfig`.
pub record SinkFilter : Type 0 where
  pub services : List Text
  pub targets : List Text

pub record SinkFilters : Type 0 where
  pub include : SinkFilter
  pub exclude : SinkFilter

-- `stringInList`.
unfoldable pub string_in_list : List Text → Text → Bool
string_in_list list value = if is_empty value then false else text_elem value list

-- `sinkFilters.matches`.
unfoldable pub matches : SinkFilters → AlertEvent → Bool
matches f event =
    if string_in_list f.exclude.services event.service_id
      || string_in_list f.exclude.targets event.target
    then false
    else if not (is_nil f.include.services)
        && not (string_in_list f.include.services event.service_id)
    then false
    else if not (is_nil f.include.targets) && not (string_in_list f.include.targets event.target)
    then false
    else true

-- `EventPayload.Subject`.
unfoldable pub subject : AlertEvent → Text
subject p =
    if not (is_empty p.service_id)
    then p.service_id
    else if not (is_empty p.target)
    then p.target
    else if not (is_empty p.repository)
    then p.repository
    else if not (is_empty p.agent)
    then p.agent
    else codes "gitops-dashboard"

-- `EventPayload.IsRecovery`.
unfoldable pub is_recovery : AlertEvent → Bool
is_recovery p = has_suffix (codes ".recovery") p.kind

-- `EventPayload.Summary`.
unfoldable pub summary : AlertEvent → Text
summary p =
    if is_recovery p && not (is_empty p.old_state)
    then subject p
      ++ codes " recovered ("
      ++ p.old_state
      ++ codes " -> "
      ++ p.new_state
      ++ codes ")"
    else if is_recovery p
    then subject p ++ codes " recovered"
    else if not (is_empty p.old_state) && not (is_empty p.new_state)
    then subject p ++ codes ": " ++ p.old_state ++ codes " -> " ++ p.new_state
    else if not (is_empty p.new_state)
    then subject p ++ codes ": " ++ p.new_state
    else subject p ++ codes ": " ++ p.kind
