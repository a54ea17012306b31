-- ===== src/Checks/Shared.antt =====
-- The theorems on the summary cache on the single flight and on the path
-- filter at concrete runs.
use gitops_dashboard.Prelude.{◌⊎◌, ℕ, ◌≤◌, ◌<◌, ◌≡◌, refl, false, [], none, some, arith, Elem, inl}
use gitops_dashboard.Prelude.Text.{Text, codes, text_eq}
use gitops_dashboard.Prelude.Rows.{find_where, update_where}
use gitops_dashboard.Summary.Cache.{
  DashboardSummary, width, cached_summary, cache_summary, invalidate_summary,
}
use gitops_dashboard.Summary.Runs.{
  Reading, Built, World, Many, Step, opened, commit_step, invalidate_step, read_step, build_step,
  cache_step,
}
use gitops_dashboard.Summary.Fresh.{cached_summary-settled}
use gitops_dashboard.Flights.Group.{
  Group, RepoOperationCall, Caller, join_call, set_result, publish, empty_group, await,
}
use gitops_dashboard.Flights.Group as Flights
use gitops_dashboard.Flights.Single.{Many-alone}
use gitops_dashboard.Flights.Answered.{IsJoined, Many-answers}
use gitops_dashboard.Prelude.{take, zero, suc, ◌∷◌}
use gitops_dashboard.Prelude.Strings.{last_index}
use gitops_dashboard.Paths.Filter.{
  PathFunctions, RepoPathFilter, new_repo_path_filter, normalize_repo_path, should_scan,
  should_skip_dir,
}
use gitops_dashboard.Paths.Skips.{Below, should_skip_dir-Below}

-- One commit, its invalidation, and a call of `Summary` that reads, builds and caches.
abbrev first_reading : Reading
first_reading = record { version = 1; after = 1; commits = 1 }

abbrev first_summary : DashboardSummary ℕ
first_summary = record { statuses = []; rest = 1; generated_at = 5 }

abbrev first_built : Built
first_built = record { reading = first_reading; summary = first_summary }

abbrev cached_world : World
cached_world =
    cache_step 10 first_built
      (build_step first_reading first_summary (read_step (invalidate_step 1 (commit_step opened))))

caching_run : Many opened cached_world
unfolding invalidate_step invalidate_summary
caching_run =
    Many.more
      (Many.more
        (Many.more (Many.more (Many.more Many.done Step.commits) (Step.invalidates 1 (inl refl)))
          Step.reads)
        (Step.builds first_reading first_summary (inl refl) (omega arith) (omega arith)))
      (Step.caches 10 first_built (inl refl))

cache_hit :
    cached_summary 20 cached_world.state
    ≡ some (record { statuses = []; rest = 1; generated_at = 20 })
unfolding cached_summary cache_step cache_summary invalidate_step invalidate_summary
cache_hit = refl

few_invalidations : cached_world.invalidations < width
unfolding cache_step invalidate_step
few_invalidations = omega arith

cached_summary-settled_example : cached_world.settled ≤ 1
cached_summary-settled_example =
    cached_summary-settled cached_world 20 (record { statuses = []; rest = 1; generated_at = 20 })
      caching_run few_invalidations cache_hit

abbrev repository : Text
repository = codes "r"

abbrev running_call : RepoOperationCall ℕ
running_call = record { id = 0; key = repository; result = none; is_done = false }

abbrev returned_call : RepoOperationCall ℕ
returned_call = record { id = 0; key = repository; result = some 7; is_done = false }

-- Two goroutines ask for the same repository.
abbrev two_callers : Group ℕ
two_callers = join_call repository (join_call repository empty_group)

joining_run : Flights.Many (empty_group {A = ℕ}) two_callers
joining_run =
    Flights.Many.more (Flights.Many.more Flights.Many.done (Flights.Step.joins repository))
      (Flights.Step.joins repository)

one_call : Elem running_call two_callers.heap
unfolding join_call find_where text_eq
one_call = inl refl

Many-alone_example : running_call ≡ running_call
Many-alone_example =
    Many-alone two_callers running_call running_call joining_run one_call one_call refl refl refl

abbrev answered : Group ℕ
answered = publish returned_call (set_result running_call 7 two_callers)

answering_run : Flights.Many two_callers answered
unfolding set_result publish join_call find_where text_eq update_where
answering_run =
    Flights.Many.more
      (Flights.Many.more Flights.Many.done (Flights.Step.returns running_call 7 (inl refl) refl))
      (Flights.Step.publishes returned_call 7 (inl refl) refl refl)

-- The second of the two goroutines.
abbrev second : Caller
second = record { key = repository; call = 0 }

joins_second : two_callers.callers ≡ second ∷ (join_call {A = ℕ} repository empty_group).callers
unfolding join_call find_where text_eq
joins_second = refl

Many-answers_example :
    IsJoined repository second (join_call {A = ℕ} repository empty_group)
    × Elem second answered.callers
    × ((c : RepoOperationCall ℕ) × Elem c answered.heap
        × (c.id ≡ 0)
        × (c.key ≡ repository)
        × ((c.is_done ≡ false)
            ⊎ ((value : ℕ) × (await 0 answered ≡ some value) × (c.result ≡ some value))))
Many-answers_example =
    Many-answers repository second (join_call repository empty_group) answered
      (Flights.Many.more Flights.Many.done (Flights.Step.joins repository)) joins_second
      answering_run

-- Slash-separated paths without dots, and patterns matched by equality.
abbrev up_from : Text → ℕ → Text
up_from s zero = codes "."
up_from s (suc i) = take i s

abbrev plain_paths : PathFunctions
unfolding last_index
plain_paths = record {
  clean = λ s. s;
  dir = λ s. up_from s (last_index b'/' s);
  match = λ value s. text_eq value s;
}

abbrev vendor_filter : RepoPathFilter
unfolding new_repo_path_filter
vendor_filter = new_repo_path_filter plain_paths [] (codes "./**/vendor/" ∷ [])

should_skip_dir-Below_example :
    should_scan plain_paths vendor_filter (codes "lib/vendor/a/b.go") ≡ false
unfolding normalize_repo_path should_skip_dir last_index gitops_dashboard.Prelude.Strings.trim_byte
    gitops_dashboard.Prelude.Text.has_prefix gitops_dashboard.Prelude.Text.trim_space text_eq
    vendor_filter gitops_dashboard.Prelude.Text.contains
should_skip_dir-Below_example =
    should_skip_dir-Below plain_paths vendor_filter (codes "lib/vendor") 2
      (codes "lib/vendor/a/b.go") refl refl refl
      (Below.deeper 1 (codes "lib/vendor/a") (codes "b.go")
        (Below.here (codes "a") (refl, refl) refl) (refl, refl) refl)
      refl
