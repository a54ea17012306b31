-- ===== src/Summary/Fresh.antt =====
-- A summary from the cache shows every commit whose invalidation came before.
use gitops_dashboard.Prelude.{
  ℕ, ◌+◌, ◌-◌, ◌%◌, ◌≤◌, ◌<◌, ◌≡◌, refl, sym, ◌∙◌, ap, Option, none, some, leb, ◌==◌, arith, All,
  All-Elem, All-impl, Bool-cases, Option-cases, inl, inr,
}
use gitops_dashboard.Summary.Cache.{
  DashboardSummary, SummaryCache, width, summary_cache_ttl, has_expired, served, cached_summary,
  cache_summary, invalidate_summary,
}
use gitops_dashboard.Summary.Runs.{
  Reading, Built, World, invalidate_step, cache_step, Step, Many, opened,
}

-- A version that was read after some of the invalidations, and, if after all of them, after the
-- commits that are settled.
abbrev IsRead : ℕ → ℕ → Reading → Type 0
IsRead invalidations settled r =
    (r.version ≡ r.after % width)
    × (r.after ≤ invalidations)
    × ((r.after ≡ invalidations) → settled ≤ r.commits)

-- A summary that shows what is settled, if nothing was invalidated since its version was read.
abbrev Shows : ℕ → ℕ → Reading → DashboardSummary ℕ → Type 0
Shows invalidations settled r summary = (r.after ≡ invalidations) → settled ≤ summary.rest

abbrev IsBuilt : ℕ → ℕ → Built → Type 0
IsBuilt invalidations settled b =
    IsRead invalidations settled b.reading × Shows invalidations settled b.reading b.summary

abbrev IsCached : ℕ → ℕ → Option (SummaryCache ℕ) → Type 0
IsCached invalidations settled none = Unit
IsCached invalidations settled (some c) =
    (r : Reading) × (c.version ≡ r.version)
    × IsRead invalidations settled r
    × Shows invalidations settled r c.summary

record IsFresh (w : World) : Type 0 where
  pub settled_below : w.settled ≤ w.commits
  pub committed_below : All (λ n. n ≤ w.commits) w.committed
  pub numbered : w.state.version ≡ w.invalidations % width
  pub read : All (IsRead w.invalidations w.settled) w.readings
  pub built : All (IsBuilt w.invalidations w.settled) w.builts
  pub cached : IsCached w.invalidations w.settled w.state.cache

invalidate_step-IsFresh :
    (n : ℕ) (w : World) → n ≤ w.commits → IsFresh w → IsFresh (invalidate_step n w)
unfolding invalidate_step invalidate_summary
invalidate_step-IsFresh n w below f = record {
  settled_below = let s = f.settled_below in ground arith;
  committed_below = f.committed_below;
  numbered = let v = f.numbered in omega arith;
  read =
      All-impl (IsRead w.invalidations w.settled) _
        (λ r h.
          (h.0, let le = h.1 in omega arith, λ same. absurd (let le = h.1 in omega (arith, same))))
        w.readings f.read;
  built =
      All-impl (IsBuilt w.invalidations w.settled) _
        (λ b h. (
          (
            h.0.0,
            let le = h.0.1 in omega arith,
            λ same. absurd (let le = h.0.1 in omega (arith, same)),
          ),
          λ same. absurd (let le = h.0.1 in omega (arith, same)),
        ))
        w.builts f.built;
  cached = tt;
}

cache_step-IsFresh :
    (now : ℕ) (b : Built) (w : World)
    → IsBuilt w.invalidations w.settled b
    → IsFresh w
    → IsFresh (cache_step now b w)
unfolding cache_step cache_summary
cache_step-IsFresh now b w h f = elim (Bool-cases (w.state.version == b.reading.version)) [
  | inl e ↦ rw e (record {
    settled_below = f.settled_below;
    committed_below = f.committed_below;
    numbered = f.numbered;
    read = f.read;
    built = f.built;
    cached = (b.reading, refl, h.0, h.1);
  })
  | inr e ↦ rw e (record {
    settled_below = f.settled_below;
    committed_below = f.committed_below;
    numbered = f.numbered;
    read = f.read;
    built = f.built;
    cached = f.cached;
  })
]

Step-IsFresh : {w v : World} → Step w v → IsFresh w → IsFresh v
Step-IsFresh {w} Step.commits f = record {
  settled_below = let s = f.settled_below in omega arith;
  committed_below = (
    omega arith,
    All-impl (λ n. n ≤ w.commits) (λ n. n ≤ w.commits + 1) (λ n h. omega (arith, h)) w.committed
        f.committed_below,
  );
  numbered = f.numbered;
  read = f.read;
  built = f.built;
  cached = f.cached;
}
Step-IsFresh {w} (Step.invalidates n m) f =
    invalidate_step-IsFresh n w (All-Elem (λ k. k ≤ w.commits) n w.committed f.committed_below m) f
Step-IsFresh {w} Step.reads f = record {
  settled_below = f.settled_below;
  committed_below = f.committed_below;
  numbered = f.numbered;
  read = ((f.numbered, omega arith, λ same. f.settled_below), f.read);
  built = f.built;
  cached = f.cached;
}
Step-IsFresh {w} (Step.builds r summary m since now) f = record {
  settled_below = f.settled_below;
  committed_below = f.committed_below;
  numbered = f.numbered;
  read = f.read;
  built =
      let read = All-Elem (IsRead w.invalidations w.settled) r w.readings f.read m in
      ((read, λ same. let s = read.2 same in omega (arith, since)), f.built);
  cached = f.cached;
}
Step-IsFresh {w} (Step.caches now b m) f =
    cache_step-IsFresh now b w (All-Elem (IsBuilt w.invalidations w.settled) b w.builts f.built m) f

Many-IsFresh : {w v : World} → Many w v → IsFresh w → IsFresh v
Many-IsFresh Many.done f = f
Many-IsFresh (Many.more steps last) f = Step-IsFresh last (Many-IsFresh steps f)

opened-IsFresh : IsFresh opened
opened-IsFresh = record {
  settled_below = omega arith;
  committed_below = tt;
  numbered = refl;
  read = tt;
  built = tt;
  cached = tt;
}

abbrev rest_of : Option (DashboardSummary ℕ) → ℕ
rest_of none = 0
rest_of (some s) = s.rest

served-rest :
    (now version : ℕ) (c : SummaryCache ℕ) (s : DashboardSummary ℕ)
    → served now version c ≡ some s
    → (c.version ≡ version) × (s.rest ≡ c.summary.rest)
unfolding served
served-rest now version c s h = elim (Bool-cases (c.version == version)) [
  | inr e ↦ cc (rw e at h)
  | inl e ↦ elim (Bool-cases (leb summary_cache_ttl (now - c.cached_at))) [
    | inl old ↦ cc (rw (e, old) at h)
    | inr young ↦ elim (Bool-cases (has_expired now c.summary.statuses)) [
      | inl stale ↦ cc (rw (e, young, stale) at h)
      | inr current ↦
          let k : some (record c.summary { generated_at = now }) ≡ some s =
            rw (e, young, current) at h in
          (ground arith, sym (ap rest_of k))
    ]
  ]
]

unwrapped : (a b : ℕ) → a ≤ b → b < width → a % width ≡ b % width → a ≡ b
unwrapped a b le few same = omega arith

-- In every run of transactions and calls of Summary from the opened store, in any interleaving of
-- their steps, every query of a summary that the cache serves ran after every commit whose
-- invalidation has come, also where other commits came between its queries, as long as there were
-- fewer invalidations than a uint64 counts.
pub cached_summary-settled :
    (w : World) (now : ℕ) (s : DashboardSummary ℕ)
    → Many opened w
    → w.invalidations < width
    → cached_summary now w.state ≡ some s
    → w.settled ≤ s.rest
unfolding cached_summary
cached_summary-settled w now s steps few h =
    let f = Many-IsFresh steps opened-IsFresh in
    elim (Option-cases w.state.cache) [
      | inl e ↦ cc (rw e at h)
      | inr (c, e) ↦
          let (same, rest) = served-rest now w.state.version c s (rw e at h) in
          let (r, version, read, shows) = rw e at f.cached in
          let after =
            unwrapped r.after w.invalidations read.1 few
              (sym read.0 ∙ sym version ∙ same ∙ f.numbered) in
          rw rest (shows after)
    ]
