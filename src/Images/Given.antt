-- ===== src/Images/Given.antt =====
-- Each observed image goes to one check at most.
use gitops_dashboard.Prelude.{
  ℕ, ◌+◌, ◌≤◌, ◌≡◌, refl, ◌∙◌, ap, Bool, true, false, not, ◌&&◌, List, [], ◌∷◌, Option, none, some,
  if◌then◌else◌, arith, All, Bool-cases, Option-cases, inl, inr,
}
use gitops_dashboard.Prelude.Rows.{count_where, count_where-append}
use gitops_dashboard.Images.Types.{ImageReference, ObservedImage, ImageVersionCheck}
use gitops_dashboard.Images.Mutable.{is_mutable}
use gitops_dashboard.Images.Compare.{
  Marked, after_mark, take_unused, filled_by, pass_check, exact_pass, repository_pass, is_filled,
  extra_checks, fill_image_version_check, initial_image_version_check, initial_checks, unused,
  compare_images, desired_for_observed_image, is_exact, shares_repository, no_images,
}

-- The check holds an observed image that passes a test.
unfoldable pub holds_image : (ObservedImage → Bool) → ImageVersionCheck → Bool
holds_image q check = elim (check.observed) [ none ↦ false | some item ↦ q item ]

-- The image passes the test and is not used.
unfoldable is_free : (ObservedImage → Bool) → Marked → Bool
is_free q (item, used) = not used && q item

abbrev bit : Bool → ℕ
bit b = if b then 1 else 0

-- The free images that pass a test after a search, with the found one.
abbrev count_after : (ObservedImage → Bool) → List Marked → Option (ObservedImage × List Marked) → ℕ
count_after q marked none = count_where (is_free q) marked
count_after q marked (some (found, after)) = count_where (is_free q) after + bit (q found)

after_mark-count :
    (q : ObservedImage → Bool) (mark : Marked) (rest : List Marked)
    → (o : Option (ObservedImage × List Marked))
    → count_after q (mark ∷ rest) (after_mark mark o) ≡ bit (is_free q mark) + count_after q rest o
unfolding count_where
after_mark-count q mark rest none = refl
after_mark-count q mark rest (some (found, after)) = omega arith

take_unused-count :
    (q accepts : ObservedImage → Bool) (marked : List Marked)
    → count_after q marked (take_unused accepts marked) ≡ count_where (is_free q) marked
unfolding count_where is_free take_unused
take_unused-count q accepts [] = refl
take_unused-count q accepts ((item, true) ∷ rest) =
    after_mark-count q (item, true) rest (take_unused accepts rest)
    ∙ ap (λ n. 0 + n) (take_unused-count q accepts rest)
take_unused-count q accepts ((item, false) ∷ rest) = elim (Bool-cases (accepts item)) [
  | inl hit ↦ rw hit (omega arith)
  | inr miss ↦ rw miss (
      after_mark-count q (item, false) rest (take_unused accepts rest)
      ∙ ap (λ n. bit (q item) + n) (take_unused-count q accepts rest))
]

fill-holds :
    (q : ObservedImage → Bool) (check : ImageVersionCheck) (item : ObservedImage)
    → holds_image q (fill_image_version_check check item) ≡ q item
unfolding holds_image fill_image_version_check
fill-holds q check item = elim (Bool-cases (is_mutable (check.desired))) [
  | inl e ↦ rw e refl
  | inr e ↦ rw e refl
]

abbrev count_pair : (ObservedImage → Bool) → ImageVersionCheck × List Marked → ℕ
count_pair q (check, marked) = bit (holds_image q check) + count_where (is_free q) marked

abbrev count_all : (ObservedImage → Bool) → List ImageVersionCheck × List Marked → ℕ
count_all q (checks, marked) = count_where (holds_image q) checks + count_where (is_free q) marked

-- An unfilled check holds no image.
holds_image-blank :
    (q : ObservedImage → Bool) (check : ImageVersionCheck)
    → is_filled check ≡ false
    → holds_image q check ≡ false
unfolding holds_image
holds_image-blank q check blank = elim (Option-cases (check.observed)) [
  | inl e ↦ rw e refl
  | inr (item, e) ↦ cc (rw e at blank)
]

filled_by-count :
    (q : ObservedImage → Bool) (check : ImageVersionCheck) (marked : List Marked)
    → is_filled check ≡ false
    → (o : Option (ObservedImage × List Marked))
    → count_after q marked o ≡ count_where (is_free q) marked
    → count_pair q (filled_by check marked o) ≡ count_where (is_free q) marked
unfolding filled_by
filled_by-count q check marked blank none h =
    rw (holds_image-blank q check blank) (omega (arith, h))
filled_by-count q check marked blank (some (found, after)) h =
    rw (fill-holds q check found) (omega (arith, h))

-- A pass moves an image from the free ones to the check.
pass_check-count :
    (q : ObservedImage → Bool) (test : ImageReference → ObservedImage → Bool)
    → (check : ImageVersionCheck) (marked : List Marked) → is_filled check ≡ false
    → count_pair q (pass_check test check marked) ≡ count_where (is_free q) marked
unfolding pass_check
pass_check-count q test check marked blank =
    filled_by-count q check marked blank (take_unused (test (check.desired)) marked)
      (take_unused-count q (test (check.desired)) marked)

exact_pass-count :
    (q : ObservedImage → Bool) (checks : List ImageVersionCheck) (marked : List Marked)
    → All (λ check. is_filled check ≡ false) checks
    → count_all q (exact_pass checks marked) ≡ count_where (is_free q) marked
unfolding exact_pass count_where
exact_pass-count q [] marked blank = omega arith
exact_pass-count q (check ∷ checks) marked blank =
    let first = pass_check-count q is_exact check marked blank.0 in
    let rest = exact_pass-count q checks (pass_check is_exact check marked).1 blank.1 in
    omega (arith, first, rest)

repository_pass-count :
    (q : ObservedImage → Bool) (checks : List ImageVersionCheck) (marked : List Marked)
    → count_all q (repository_pass checks marked)
      ≡ count_where (holds_image q) checks + count_where (is_free q) marked
unfolding repository_pass count_where
repository_pass-count q [] marked = refl
repository_pass-count q (check ∷ checks) marked = elim (Bool-cases (is_filled check)) [
  | inl full ↦ rw full (let rest = repository_pass-count q checks marked in omega (arith, rest))
  | inr blank ↦ rw blank (
      let first = pass_check-count q shares_repository check marked blank in
      let rest = repository_pass-count q checks (pass_check shares_repository check marked).1 in
      let none_held = holds_image-blank q check blank in rw none_held (omega (arith, first, rest)))
]

extra_checks-count :
    (q : ObservedImage → Bool) (desired : List ImageReference) (marked : List Marked)
    → count_where (holds_image q) (extra_checks desired marked) ≤ count_where (is_free q) marked
unfolding extra_checks count_where is_free
extra_checks-count q desired [] = omega arith
extra_checks-count q desired ((item, true) ∷ rest) =
    omega (arith, extra_checks-count q desired rest)
extra_checks-count q desired ((item, false) ∷ rest) =
    elim (Option-cases (desired_for_observed_image desired item)) [
      | inl e ↦ rw e (omega (arith, extra_checks-count q desired rest))
      | inr (ref, e) ↦
          rw (e, fill-holds q (initial_image_version_check ref false) item)
            (omega (arith, extra_checks-count q desired rest))
    ]

unused-count :
    (q : ObservedImage → Bool) (items : List ObservedImage)
    → count_where (is_free q) (unused items) ≡ count_where q items
unfolding unused count_where is_free
unused-count q [] = refl
unused-count q (item ∷ items) = rw (unused-count q items) refl

initial-blank :
    (desired : ImageReference) (b : Bool)
    → is_filled (initial_image_version_check desired b) ≡ false
unfolding initial_image_version_check
initial-blank desired b = elim (Bool-cases (is_mutable desired)) [
  | inl e ↦ rw e refl
  | inr e ↦ rw e refl
]

initial_checks-blank :
    (b : Bool) (desired : List ImageReference)
    → All (λ check. is_filled check ≡ false) (initial_checks b desired)
unfolding initial_checks
initial_checks-blank b [] = tt
initial_checks-blank b (ref ∷ refs) = (initial-blank ref b, initial_checks-blank b refs)

-- No observed image goes to two checks: whatever test picks images out, the checks hold no more
-- images that pass it than were observed.
pub compare_images-count_le :
    (q : ObservedImage → Bool) (desired : List ImageReference) (items : List ObservedImage)
    → count_where (holds_image q) (compare_images desired items) ≤ count_where q items
unfolding compare_images
compare_images-count_le q desired items =
    let initial = initial_checks (no_images items) desired in
    let exact = exact_pass initial (unused items) in
    let last = repository_pass exact.0 exact.1 in
    let blank = initial_checks-blank (no_images items) desired in
    rw (count_where-append (holds_image q) last.0 (extra_checks desired last.1)) (
      omega (
        arith,
        unused-count q items,
        exact_pass-count q initial (unused items) blank,
        repository_pass-count q exact.0 exact.1,
        extra_checks-count q desired last.1,
      ))
