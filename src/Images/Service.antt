-- ===== src/Images/Service.antt =====
-- internal/core/images.go: the observed images of a service's statuses, and `CompareServiceImages`.
use gitops_dashboard.Prelude.{List, [], ◌∷◌, ◌++◌, map, if◌then◌else◌}
use gitops_dashboard.Prelude.Text.{Text, is_empty, text_elem}
use gitops_dashboard.Prelude.Strings.{join}
use gitops_dashboard.Images.Types.{
  ImageVersionState, ImageReference, ObservedImage, ImageVersionCheck, StatusResult,
}
use gitops_dashboard.Images.Parse.{image_references}
use gitops_dashboard.Images.Match.{unique_image_references}
use gitops_dashboard.Images.Compare.{compare_images, aggregate_image_version_state}
use gitops_dashboard.Core.{is_not_applicable}

-- The key of `uniqueObservedImages`; `sprint` is `fmt.Sprint` on the digests.
unfoldable pub observed_key : (List ImageReference → Text) → ObservedImage → Text
observed_key sprint item = join 0 (
    item.target
    ∷ item.runtime
    ∷ item.reference.original
    ∷ item.image_id
    ∷ sprint (item.repo_digests)
    ∷ [])

unfoldable pub unique_observed_from :
    (List ImageReference → Text) → List Text → List ObservedImage → List ObservedImage
unfolding observed_key
unique_observed_from sprint seen [] = []
unique_observed_from sprint seen (item ∷ items) =
    let key = observed_key sprint item in
    let skipped = unique_observed_from sprint seen items in
    let kept = unique_observed_from sprint (key ∷ seen) items in
    if text_elem key seen then skipped else item ∷ kept

-- `image.Target` where it is empty.
unfoldable pub with_target : Text → ObservedImage → ObservedImage
with_target target item = record {
  target = if is_empty (item.target) then target else item.target;
  runtime = item.runtime;
  reference = item.reference;
  image_id = item.image_id;
  repo_digests = item.repo_digests;
}

unfoldable pub status_images : List StatusResult → List ObservedImage
unfolding with_target
status_images [] = []
status_images (status ∷ statuses) =
    if is_not_applicable (status.health)
    then status_images statuses
    else map (with_target (status.target)) (status.observed_images) ++ status_images statuses

-- `observedImages`.
unfoldable pub observed_images_of :
    (List ImageReference → Text) → List StatusResult → List ObservedImage
unfolding unique_observed_from status_images
observed_images_of sprint statuses = unique_observed_from sprint [] (status_images statuses)

-- The references that are compared: those of the service, or else of its image texts, once each.
unfoldable pub desired_references : List ImageReference → List Text → List ImageReference
desired_references [] images = unique_image_references (image_references images)
desired_references (ref ∷ refs) images = unique_image_references (ref ∷ refs)

-- The state and the checks for unique references, of which there may be none.
unfoldable pub compare_unique :
    List ImageReference → List ObservedImage → ImageVersionState × List ImageVersionCheck
unfolding compare_images aggregate_image_version_state
compare_unique [] items = (ImageVersionState.unknown, [])
compare_unique (ref ∷ refs) items =
    let checks = compare_images (ref ∷ refs) items in (aggregate_image_version_state checks, checks)

-- `CompareServiceImages` for a service with desired references and image texts.
unfoldable pub compare_service_images :
    (List ImageReference → Text)
    → List ImageReference
    → List Text
    → List StatusResult
    → ImageVersionState × List ImageVersionCheck
unfolding desired_references observed_images_of compare_unique
compare_service_images sprint refs images statuses =
    compare_unique (desired_references refs images) (observed_images_of sprint statuses)
