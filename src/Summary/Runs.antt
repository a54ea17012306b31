-- ===== src/Summary/Runs.antt =====
-- The calls of many goroutines on the cache, each lock-protected call a step: transactions commit
-- and then invalidate the cache, and `Summary` reads the version, builds a summary from the
-- database and caches it. The database is the number of its commits. The queries of a build run one
-- after the other, each on the database of its time; a summary holds the number of commits that the
-- first of them saw, the oldest state in it.
use gitops_dashboard.Prelude.{ℕ, ◌+◌, ◌≤◌, List, [], ◌∷◌, none, Elem}
use Prim.Native.Nat.{max}
use gitops_dashboard.Summary.Cache.{DashboardSummary, CacheState, cache_summary, invalidate_summary}

-- A call of `Summary` that has read the version, after how many invalidations and commits.
pub record Reading : Type 0 where
  pub version : ℕ
  pub after : ℕ
  pub commits : ℕ

-- A call of `Summary` that has built its summary.
pub record Built : Type 0 where
  pub reading : Reading
  pub summary : DashboardSummary ℕ

pub record World : Type 0 where
  pub state : CacheState ℕ
  -- the commits so far
  pub commits : ℕ
  -- the commits whose invalidation is to come, or has come
  pub committed : List ℕ
  -- the latest commit whose invalidation has come
  pub settled : ℕ
  -- the invalidations so far
  pub invalidations : ℕ
  pub readings : List Reading
  pub builts : List Built

abbrev pub commit_step : World → World
commit_step w = record w { commits = w.commits + 1; committed = (w.commits + 1) ∷ w.committed }

unfoldable pub invalidate_step : ℕ → World → World
invalidate_step n w = record w {
  state = invalidate_summary w.state;
  settled = max w.settled n;
  invalidations = w.invalidations + 1;
}

abbrev pub read_step : World → World
read_step w = record w {
  readings =
      record { version = w.state.version; after = w.invalidations; commits = w.commits }
      ∷ w.readings;
}

abbrev pub build_step : Reading → DashboardSummary ℕ → World → World
build_step r summary w = record w { builts = record { reading = r; summary = summary } ∷ w.builts }

unfoldable pub cache_step : ℕ → Built → World → World
cache_step now b w = record w { state = cache_summary now b.reading.version b.summary w.state }

pub data Step : World → World → Type 0 where
  commits : {w : World} → Step w (commit_step w)
  invalidates : {w : World} (n : ℕ) → Elem n w.committed → Step w (invalidate_step n w)
  reads : {w : World} → Step w (read_step w)
  builds :
      {w : World} (r : Reading) (summary : DashboardSummary ℕ)
      → Elem r w.readings
      → r.commits ≤ summary.rest
      → summary.rest ≤ w.commits
      → Step w (build_step r summary w)
  caches : {w : World} (now : ℕ) (b : Built) → Elem b w.builts → Step w (cache_step now b w)

pub data Many : World → World → Type 0 where
  done : {w : World} → Many w w
  more : {w v u : World} → Many w v → Step v u → Many w u

-- The store as it is opened.
abbrev pub opened : World
opened = record {
  state = record { version = 0; cache = none };
  commits = 0;
  committed = [];
  settled = 0;
  invalidations = 0;
  readings = [];
  builts = [];
}
