-- ===== src/Health/Latest.antt =====
-- internal/storage/status.go: `applyLatestStatus`, the latest status of each target of a service.
use gitops_dashboard.Prelude.{Bool, ◌&&◌, ◌||◌, List, [], ◌∷◌, map, ltb, ◌==◌, if◌then◌else◌}
use gitops_dashboard.Prelude.Text.{Text, text_eq}
use gitops_dashboard.Core.{HealthState}
use gitops_dashboard.Health.Types.{StatusRow}
use gitops_dashboard.Health.Rollup.{health_priority, aggregate_target_health}

-- Whether a status replaces the current one of its target.
unfoldable pub replaces : StatusRow → StatusRow → Bool
unfolding health_priority
replaces status current =
    ltb current.checked_at status.checked_at
    || (status.checked_at == current.checked_at
        && ltb (health_priority status.health) (health_priority current.health))

-- A status in the map of a service from targets to statuses.
unfoldable pub note_status : StatusRow → List StatusRow → List StatusRow
unfolding replaces
note_status status [] = status ∷ []
note_status status (current ∷ rest) =
    if text_eq current.target status.target
    then (if replaces status current then status else current) ∷ rest
    else current ∷ note_status status rest

-- The loop over the statuses, for one service.
unfoldable pub latest_from : Text → List StatusRow → List StatusRow → List StatusRow
unfolding note_status
latest_from service_id latest [] = latest
latest_from service_id latest (status ∷ statuses) =
    if text_eq status.service_id service_id
    then latest_from service_id (note_status status latest) statuses
    else latest_from service_id latest statuses

-- A service with its health.
pub record ServiceHealth : Type 0 where
  pub id : Text
  pub health : HealthState

unfoldable pub health_from : HealthState → List StatusRow → HealthState
unfolding aggregate_target_health
health_from old [] = old
health_from old (status ∷ statuses) =
    aggregate_target_health (map (λ row. row.health) (status ∷ statuses))

-- `applyLatestStatus`.
unfoldable pub apply_latest_status : List ServiceHealth → List StatusRow → List ServiceHealth
unfolding latest_from health_from
apply_latest_status [] statuses = []
apply_latest_status (service ∷ services) statuses =
    record service { health = health_from service.health (latest_from service.id [] statuses) }
    ∷ apply_latest_status services statuses
