-- ===== src/Summary/Cache.antt =====
-- internal/storage/summary_cache.go. A summary is what the cache reads of it, with the rest as a
-- parameter; a copy of a summary is the summary. Times are nanoseconds, 0 is the zero time.
use gitops_dashboard.Prelude.{
  ℕ, ◌+◌, ◌-◌, ◌%◌, Bool, true, false, not, ◌&&◌, List, [], ◌∷◌, Option, none, some, leb, ◌==◌,
  if◌then◌else◌,
}
use gitops_dashboard.Core.{HealthState, is_not_applicable}

pub record ExpiringStatus : Type 0 where
  pub health : HealthState
  pub expires_at : ℕ

pub record DashboardSummary (A : Type 0) : Type 0 where
  pub statuses : List ExpiringStatus
  pub rest : A
  pub generated_at : ℕ

-- A cache that is valid.
pub record SummaryCache (A : Type 0) : Type 0 where
  pub version : ℕ
  pub cached_at : ℕ
  pub summary : DashboardSummary A

-- The fields of the store: `none` is the zero value of the cache.
pub record CacheState (A : Type 0) : Type 0 where
  pub version : ℕ
  pub cache : Option (SummaryCache A)

-- The range of a uint64.
abbrev pub width : ℕ
width = 18446744073709551616

-- `time.Minute`.
abbrev pub summary_cache_ttl : ℕ
summary_cache_ttl = 60000000000

-- The loop over the statuses: one has expired.
unfoldable pub has_expired : ℕ → List ExpiringStatus → Bool
has_expired now [] = false
has_expired now (status ∷ statuses) =
    if not (is_not_applicable status.health)
      && not (status.expires_at == 0)
      && leb status.expires_at now
    then true
    else has_expired now statuses

-- The summary of a valid cache, where it may be served.
unfoldable pub served : {A : Type 0} → ℕ → ℕ → SummaryCache A → Option (DashboardSummary A)
unfolding has_expired
served now version c =
    if not (c.version == version)
    then none
    else if leb summary_cache_ttl (now - c.cached_at)
    then none
    else if has_expired now (c.summary.statuses)
    then none
    else some (record c.summary { generated_at = now })

-- `cachedSummary`.
unfoldable pub cached_summary : {A : Type 0} → ℕ → CacheState A → Option (DashboardSummary A)
unfolding served
cached_summary now s = elim (s.cache) [ none ↦ none | some c ↦ served now s.version c ]

-- `cacheSummary`.
unfoldable pub cache_summary :
    {A : Type 0} → ℕ → ℕ → DashboardSummary A → CacheState A → CacheState A
cache_summary now version summary s = if not (s.version == version) then s else record s {
  cache = some (record { version = version; cached_at = now; summary = summary });
}

-- `invalidateSummary`.
unfoldable pub invalidate_summary : {A : Type 0} → CacheState A → CacheState A
invalidate_summary s = record { version = (s.version + 1) % width; cache = none }
