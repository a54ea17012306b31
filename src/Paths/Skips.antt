-- ===== src/Paths/Skips.antt =====
-- Leaving out a directory leaves out no path that would be scanned.
use gitops_dashboard.Prelude.{
  ℕ, zero, suc, ◌+◌, ◌≤◌, ◌≡◌, refl, subst, Bool, true, false, ◌||◌, List, [], ◌∷◌, ◌++◌,
  if◌then◌else◌, length, length-append, arith, Bool-cases, inl, inr, or_cases, or_true,
}
use gitops_dashboard.Prelude.Text.{Text, codes, text_eq, text_eq→eq, has_prefix}
use gitops_dashboard.Paths.Filter.{
  PathFunctions, RepoPathFilter, dot, normalize_repo_path, has_glob, glob_match, match_ancestors,
  matches_path, matches_any_path, should_scan, should_skip_dir,
}

-- A name in a directory.
abbrev pub child : Text → Text → Text
child p f = p ++ (b'/' ∷ f)

-- A directory that is not the root of the repository or of the file system.
abbrev pub IsPlain : Text → Type 0
IsPlain p = (text_eq p dot ≡ false) × (text_eq p (codes "/") ≡ false)

-- A path some levels below a directory, each level the one that `path.Dir` leads back to.
pub data Below (paths : PathFunctions) (d : Text) : ℕ → Text → Type 0 where
  here : (f : Text) → IsPlain d → paths.dir (child d f) ≡ d → Below paths d 1 (child d f)
  deeper :
      (n : ℕ) (p f : Text)
      → Below paths d n p
      → IsPlain p
      → paths.dir (child p f) ≡ p
      → Below paths d (suc n) (child p f)

length-child : (p f : Text) → length p + 1 ≤ length (child p f)
length-child p f = let e = length-append p (b'/' ∷ f) in omega (arith, e)

length-Below :
    (paths : PathFunctions) (d : Text) (n : ℕ) (rel : Text)
    → Below paths d n rel
    → n + length d ≤ length rel
length-Below paths d n rel (Below.here f plain up) = omega (arith, length-child d f)
length-Below paths d n rel (Below.deeper m p f below plain up) =
    omega (arith, length-child p f, length-Below paths d m p below)

has_prefix-append : (t s u : Text) → has_prefix t s ≡ true → has_prefix t (s ++ u) ≡ true
unfolding has_prefix
has_prefix-append [] s u h = refl
has_prefix-append (a ∷ t) [] u h = cc
has_prefix-append (a ∷ t) (c ∷ s) u h = ground (arith, has_prefix-append t s u)

has_prefix-child : (s u : Text) → has_prefix (s ++ codes "/") (child s u) ≡ true
unfolding has_prefix
has_prefix-child [] u = refl
has_prefix-child (c ∷ s) u = ground (arith, has_prefix-child s u)

-- The test of a pattern without a glob.
abbrev starts : Text → Text → Bool
starts value p = text_eq p value || has_prefix (value ++ codes "/") p

starts-child : (value p f : Text) → starts value p ≡ true → starts value (child p f) ≡ true
starts-child value p f h = elim (or_cases (text_eq p value) _ h) [
  | inl same ↦ or_true (text_eq (child p f) value) _ (
      subst (λ v. has_prefix (v ++ codes "/") (child p f) ≡ true) (text_eq→eq p value same)
        (has_prefix-child p f))
  | inr before ↦
      or_true (text_eq (child p f) value) _
        (has_prefix-append (value ++ codes "/") p (b'/' ∷ f) before)
]

starts-Below :
    (paths : PathFunctions) (d : Text) (n : ℕ) (rel value : Text)
    → Below paths d n rel
    → starts value d ≡ true
    → starts value rel ≡ true
starts-Below paths d n rel value (Below.here f plain up) h = starts-child value d f h
starts-Below paths d n rel value (Below.deeper m p f below plain up) h =
    starts-child value p f (starts-Below paths d m p value below h)

-- More fuel finds what less fuel finds.
match_ancestors-more :
    (paths : PathFunctions) (value : Text) (k l : ℕ) (p : Text)
    → k ≤ l
    → match_ancestors paths value k p ≡ true
    → match_ancestors paths value l p ≡ true
unfolding match_ancestors
match_ancestors-more paths value zero l p le h = cc
match_ancestors-more paths value (suc k) zero p le h = absurd (omega arith)
match_ancestors-more paths value (suc k) (suc l) p le h =
    elim (Bool-cases (text_eq p dot || text_eq p (codes "/"))) [
      | inl top ↦ cc (rw top at h)
      | inr plain ↦ elim (Bool-cases (glob_match paths value p)) [
        | inl hit ↦ rw (plain, hit) refl
        | inr miss ↦
            rw (plain, miss)
              (match_ancestors-more paths value k l (paths.dir p) (omega (arith, le))
                (rw (plain, miss) at h))
      ]
    ]

-- A step up from a plain directory.
match_ancestors-step :
    (paths : PathFunctions) (value : Text) (k : ℕ) (p : Text)
    → IsPlain p
    → match_ancestors paths value k (paths.dir p) ≡ true
    → match_ancestors paths value (suc k) p ≡ true
unfolding match_ancestors
match_ancestors-step paths value k p plain h = elim (Bool-cases (glob_match paths value p)) [
  | inl hit ↦ rw (plain.0, plain.1, hit) refl
  | inr miss ↦ rw (plain.0, plain.1, miss) h
]

match_ancestors-hit :
    (paths : PathFunctions) (value : Text) (k : ℕ) (p : Text)
    → IsPlain p
    → glob_match paths value p ≡ true
    → match_ancestors paths value (suc k) p ≡ true
unfolding match_ancestors
match_ancestors-hit paths value k p plain hit = rw (plain.0, plain.1, hit) refl

match_ancestors-at :
    (paths : PathFunctions) (value d : Text)
    → IsPlain d
    → (if glob_match paths value d
        then true
        else match_ancestors paths value (length d) (paths.dir d))
      ≡ true
    → match_ancestors paths value (suc (length d)) d ≡ true
match_ancestors-at paths value d plain h = elim (Bool-cases (glob_match paths value d)) [
  | inl hit ↦ match_ancestors-hit paths value (length d) d plain hit
  | inr miss ↦ match_ancestors-step paths value (length d) d plain (rw miss at h)
]

Below-positive :
    (paths : PathFunctions) (d : Text) (n : ℕ) (rel : Text) → Below paths d n rel → 1 ≤ n
Below-positive paths d n rel (Below.here f plain up) = omega arith
Below-positive paths d n rel (Below.deeper m p f below plain up) = omega arith

Below-IsPlain :
    (paths : PathFunctions) (d : Text) (n : ℕ) (rel : Text) → Below paths d n rel → IsPlain d
Below-IsPlain paths d n rel (Below.here f plain up) = plain
Below-IsPlain paths d n rel (Below.deeper m p f below plain up) = Below-IsPlain paths d m p below

-- A match at or above the directory is a match above every path below it, with fuel for the levels.
match_ancestors-Below :
    (paths : PathFunctions) (value d : Text) (k n : ℕ) (rel : Text) (l : ℕ)
    → Below paths d n rel
    → n + k ≤ suc l
    → match_ancestors paths value k d ≡ true
    → match_ancestors paths value l (paths.dir rel) ≡ true
match_ancestors-Below paths value d k n rel l (Below.here f plain up) le h =
    rw up (match_ancestors-more paths value k l d (omega (arith, le)) h)
match_ancestors-Below paths value d k n rel zero (Below.deeper m p f below plain up) le h =
    absurd (omega (arith, le, Below-positive paths d m p below))
match_ancestors-Below paths value d k n rel (suc l) (Below.deeper m p f below plain up) le h =
    rw up (
      match_ancestors-step paths value l p plain
        (match_ancestors-Below paths value d k m p l below (omega (arith, le)) h))

-- A pattern that matches a directory matches every path below it.
matches_path-Below :
    (paths : PathFunctions) (value d : Text) (n : ℕ) (rel : Text)
    → normalize_repo_path paths d ≡ d
    → normalize_repo_path paths rel ≡ rel
    → text_eq rel dot ≡ false
    → Below paths d n rel
    → matches_path paths value d ≡ true
    → matches_path paths value rel ≡ true
unfolding matches_path
matches_path-Below paths value d n rel same_d same_rel below_dot below h =
    elim (Bool-cases (text_eq value dot)) [
      | inl root ↦ cc (rw root at h)
      | inr named ↦
          let plain_d = Below-IsPlain paths d n rel below in
          elim (Bool-cases (has_glob value)) [
            | inr plain ↦
                rw (same_rel, named, below_dot, plain)
                  (starts-Below paths d n rel value below
                    (rw (same_d, named, plain_d.0, plain) at h))
            | inl glob ↦ elim (Bool-cases (glob_match paths value rel)) [
              | inl hit ↦ rw (same_rel, named, below_dot, glob, hit) refl
              | inr miss ↦
                  rw (same_rel, named, below_dot, glob, miss)
                    (match_ancestors-Below paths value d (suc (length d)) n rel (length rel) below
                      (omega (arith, length-Below paths d n rel below))
                      (match_ancestors-at paths value d plain_d
                        (rw (same_d, named, plain_d.0, glob) at h)))
            ]
          ]
    ]

matches_any_path-Below :
    (paths : PathFunctions) (values : List Text) (d : Text) (n : ℕ) (rel : Text)
    → normalize_repo_path paths d ≡ d
    → normalize_repo_path paths rel ≡ rel
    → text_eq rel dot ≡ false
    → Below paths d n rel
    → matches_any_path paths values d ≡ true
    → matches_any_path paths values rel ≡ true
unfolding matches_any_path
matches_any_path-Below paths [] d n rel same_d same_rel below_dot below h = h
matches_any_path-Below paths (value ∷ values) d n rel same_d same_rel below_dot below h =
    let rest = matches_any_path-Below paths values d n rel same_d same_rel below_dot below in
    elim (Bool-cases (matches_path paths value d)) [
      | inl hit ↦
          rw (matches_path-Below paths value d n rel same_d same_rel below_dot below hit) refl
      | inr miss ↦ elim (Bool-cases (matches_path paths value rel)) [
        | inl found ↦ rw found refl
        | inr lost ↦ rw lost (rest (rw miss at h))
      ]
    ]

-- For a directory whose path is normalized and is not the root, and a normalized path that lies
-- some levels below it, each level the one that path.Dir leads back to: if the directory is
-- skipped, the path would not be scanned, whatever the include patterns are. So leaving out the
-- directory loses nothing.
pub should_skip_dir-Below :
    (paths : PathFunctions) (filter : RepoPathFilter) (d : Text) (n : ℕ) (rel : Text)
    → normalize_repo_path paths d ≡ d
    → normalize_repo_path paths rel ≡ rel
    → text_eq rel dot ≡ false
    → Below paths d n rel
    → should_skip_dir paths filter d ≡ true
    → should_scan paths filter rel ≡ false
unfolding should_skip_dir should_scan
should_skip_dir-Below paths filter d n rel same_d same_rel below_dot below h =
    rw
      (
        same_rel,
        below_dot,
        matches_any_path-Below paths filter.exclude d n rel same_d same_rel below_dot below
            (rw (same_d, (Below-IsPlain paths d n rel below).0) at h),
      )
      refl
