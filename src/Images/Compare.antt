-- ===== src/Images/Compare.antt =====
-- internal/core/images.go: the checks of desired references against observed images, the passes
-- that give each observed image to a check, and the aggregated state.
use gitops_dashboard.Prelude.{
  ℕ, Bool, true, false, not, ◌&&◌, List, [], ◌∷◌, ◌++◌, Option, none, some, ltb, if◌then◌else◌,
}
use gitops_dashboard.Prelude.Text.{Text, codes}
use gitops_dashboard.Images.Types.{
  ImageVersionState, ImageReference, ObservedImage, ImageVersionCheck,
}
use gitops_dashboard.Images.Mutable.{is_mutable}
use gitops_dashboard.Images.Match.{image_references_match, repository_matches}

-- `initialImageVersionCheck`.
unfoldable pub initial_image_version_check : ImageReference → Bool → ImageVersionCheck
initial_image_version_check desired no_observed =
    if is_mutable desired
    then record {
      desired = desired;
      observed = none;
      state = ImageVersionState.mutable;
      message = codes "desired image is mutable; pin a SemVer tag or digest";
    }
    else record {
      desired = desired;
      observed = none;
      state = ImageVersionState.unknown;
      message =
          if no_observed
          then codes "no observed image reported"
          else codes "no observed image reported for desired repository";
    }

-- The state and the message of a comparison with the answer of `imageReferencesMatch`.
unfoldable pub compared : Bool × Bool → ImageVersionState × Text
compared (matches, known) =
    if not known
    then (
      ImageVersionState.unknown,
      codes "observed image does not include comparable tag or digest metadata",
    )
    else if matches
    then (ImageVersionState.matching, codes "desired and observed image versions match")
    else (ImageVersionState.mismatched, codes "desired and observed image versions differ")

-- `fillImageVersionCheck`.
unfoldable pub fill_image_version_check : ImageVersionCheck → ObservedImage → ImageVersionCheck
unfolding compared
fill_image_version_check check item =
    let answer = compared (image_references_match (check.desired) item) in
    if is_mutable (check.desired)
    then record {
      desired = check.desired;
      observed = some item;
      state = ImageVersionState.mutable;
      message = codes "desired image is mutable; pin a SemVer tag or digest";
    }
    else record {
      desired = check.desired;
      observed = some item;
      state = answer.0;
      message = answer.1;
    }

-- An observed image with the mark of `usedObserved`.
abbrev pub Marked : Type 0
Marked = ObservedImage × Bool

abbrev pub after_mark :
    Marked → Option (ObservedImage × List Marked) → Option (ObservedImage × List Marked)
after_mark mark none = none
after_mark mark (some (found, marked)) = some (found, mark ∷ marked)

-- The first unused image that a test accepts, and the images with it marked.
unfoldable pub take_unused :
    (ObservedImage → Bool) → List Marked → Option (ObservedImage × List Marked)
take_unused accepts [] = none
take_unused accepts ((item, used) ∷ rest) =
    let later = after_mark (item, used) (take_unused accepts rest) in
    if used then later else if accepts item then some (item, (item, true) ∷ rest) else later

-- The test of `exactObservedImage`.
unfoldable pub is_exact : ImageReference → ObservedImage → Bool
is_exact desired item = let answer = image_references_match desired item in answer.1 && answer.0

unfoldable pub matches_any : ImageReference → List ImageReference → Bool
matches_any desired [] = false
matches_any desired (ref ∷ refs) =
    if repository_matches desired ref then true else matches_any desired refs

-- The test of `repositoryObservedImage` and of `desiredForObservedImage`.
unfoldable pub shares_repository : ImageReference → ObservedImage → Bool
unfolding matches_any
shares_repository desired item =
    if repository_matches desired (item.reference)
    then true
    else matches_any desired (item.repo_digests)

-- The check and the images after a search.
unfoldable pub filled_by :
    ImageVersionCheck
    → List Marked
    → Option (ObservedImage × List Marked)
    → ImageVersionCheck × List Marked
filled_by check marked none = (check, marked)
filled_by check marked (some (found, after)) = (fill_image_version_check check found, after)

-- One check of a pass: filled with the first unused image that the test accepts.
unfoldable pub pass_check :
    (ImageReference → ObservedImage → Bool)
    → ImageVersionCheck
    → List Marked
    → ImageVersionCheck × List Marked
unfolding filled_by
pass_check test check marked = filled_by check marked (take_unused (test (check.desired)) marked)

-- The loop of the exact matches.
unfoldable pub exact_pass :
    List ImageVersionCheck → List Marked → List ImageVersionCheck × List Marked
unfolding pass_check
exact_pass [] marked = ([], marked)
exact_pass (check ∷ checks) marked =
    let first = pass_check is_exact check marked in
    let rest = exact_pass checks first.1 in (first.0 ∷ rest.0, rest.1)

abbrev pub is_filled : ImageVersionCheck → Bool
is_filled check = elim (check.observed) [ none ↦ false | some item ↦ true ]

-- The loop of the repository matches, over the checks that have no image.
unfoldable pub repository_pass :
    List ImageVersionCheck → List Marked → List ImageVersionCheck × List Marked
unfolding pass_check
repository_pass [] marked = ([], marked)
repository_pass (check ∷ checks) marked =
    let first =
      if is_filled check then (check, marked) else pass_check shares_repository check marked in
    let rest = repository_pass checks first.1 in (first.0 ∷ rest.0, rest.1)

-- `desiredForObservedImage`.
unfoldable pub desired_for_observed_image :
    List ImageReference → ObservedImage → Option ImageReference
unfolding shares_repository
desired_for_observed_image [] item = none
desired_for_observed_image (ref ∷ refs) item =
    if shares_repository ref item then some ref else desired_for_observed_image refs item

-- The checks of the images that no desired reference has used.
unfoldable pub extra_checks : List ImageReference → List Marked → List ImageVersionCheck
unfolding initial_image_version_check fill_image_version_check
extra_checks desired [] = []
extra_checks desired ((item, used) ∷ rest) =
    if used then extra_checks desired rest else elim (desired_for_observed_image desired item) [
      | none ↦ extra_checks desired rest
      | some ref ↦
          fill_image_version_check (initial_image_version_check ref false) item
          ∷ extra_checks desired rest
    ]

-- `imageVersionPriority`.
unfoldable pub image_version_priority : ImageVersionState → ℕ
image_version_priority ImageVersionState.mismatched = 0
image_version_priority ImageVersionState.mutable = 1
image_version_priority ImageVersionState.unknown = 2
image_version_priority ImageVersionState.matching = 3

unfoldable pub worst_from : ImageVersionState → List ImageVersionCheck → ImageVersionState
unfolding image_version_priority
worst_from worst [] = worst
worst_from worst (check ∷ checks) =
    if ltb (image_version_priority (check.state)) (image_version_priority worst)
    then worst_from (check.state) checks
    else worst_from worst checks

-- `aggregateImageVersionState`.
unfoldable pub aggregate_image_version_state : List ImageVersionCheck → ImageVersionState
unfolding worst_from
aggregate_image_version_state [] = ImageVersionState.unknown
aggregate_image_version_state (check ∷ checks) =
    worst_from ImageVersionState.matching (check ∷ checks)

unfoldable pub initial_checks : Bool → List ImageReference → List ImageVersionCheck
unfolding initial_image_version_check
initial_checks no_observed [] = []
initial_checks no_observed (ref ∷ refs) =
    initial_image_version_check ref no_observed ∷ initial_checks no_observed refs

unfoldable pub unused : List ObservedImage → List Marked
unused [] = []
unused (item ∷ items) = (item, false) ∷ unused items

abbrev pub no_images : List ObservedImage → Bool
no_images [] = true
no_images (item ∷ items) = false

-- The checks of `CompareServiceImages` for unique references and observed images.
unfoldable pub compare_images : List ImageReference → List ObservedImage → List ImageVersionCheck
unfolding initial_checks exact_pass repository_pass extra_checks unused
compare_images desired items =
    let initial = initial_checks (no_images items) desired in
    let exact = exact_pass initial (unused items) in
    let by_repository = repository_pass exact.0 exact.1 in
    by_repository.0 ++ extra_checks desired by_repository.1
