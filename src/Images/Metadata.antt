-- ===== src/Images/Metadata.antt =====
-- internal/core/images.go: `NewObservedImage`, `MutableImageWarnings`, and what is written into the
-- services.
use gitops_dashboard.Prelude.{not, ◌&&◌, List, [], ◌∷◌, ◌++◌, map, none, some, if◌then◌else◌}
use gitops_dashboard.Prelude.Text.{Text, codes, is_empty, text_eq, text_lt, trim_space}
use gitops_dashboard.Prelude.Rows.{select_where, order_by}
use gitops_dashboard.Images.Types.{
  ImageVersionState, ImageReference, ObservedImage, StatusResult, Service,
}
use gitops_dashboard.Images.Parse.{parse_image_reference, image_references}
use gitops_dashboard.Images.Mutable.{is_mutable}
use gitops_dashboard.Images.Match.{unique_image_references}
use gitops_dashboard.Images.Service.{compare_service_images}

-- The image id as a digest of a repository, where it is one.
unfoldable pub image_id_digests : Text → List ImageReference
image_id_digests image_id =
    let ref = parse_image_reference image_id in
    if not (is_empty ref.digest) && not (is_empty ref.repository) then ref ∷ [] else []

-- `NewObservedImage`.
unfoldable pub new_observed_image : Text → Text → Text → Text → List Text → ObservedImage
unfolding image_id_digests
new_observed_image target runtime image image_id repo_digests = record {
  target = trim_space target;
  runtime = trim_space runtime;
  reference = parse_image_reference image;
  image_id = trim_space image_id;
  repo_digests =
      unique_image_references (image_references repo_digests ++ image_id_digests image_id);
}

-- The warning of a mutable reference.
unfoldable pub mutable_warning : ImageReference → Text
mutable_warning ref =
    codes "image "
    ++ ref.original
    ++ codes " uses mutable reference ("
    ++ (if is_empty ref.tag then codes "no tag" else ref.tag)
    ++ codes ")"

-- `MutableImageWarnings`.
unfoldable pub mutable_image_warnings : List Text → List Text
unfolding mutable_warning
mutable_image_warnings images =
    order_by (λ a b. not (text_lt b a))
      (map mutable_warning (select_where is_mutable (image_references images)))

-- `NormalizeServiceImageMetadata`.
unfoldable pub normalize_service_image_metadata : Service → Service
normalize_service_image_metadata service = record service {
  desired_images = image_references service.images;
  image_version_state = elim service.image_version_state [
    | none ↦ some ImageVersionState.unknown
    | some state ↦ some state
  ];
}

-- One service of `ApplyImageVersionComparisons`.
unfoldable pub apply_comparison :
    (List ImageReference → Text) → List StatusResult → Service → Service
unfolding normalize_service_image_metadata
apply_comparison sprint statuses raw =
    let service = normalize_service_image_metadata raw in
    let result =
      compare_service_images sprint service.desired_images service.images
        (select_where (λ status. text_eq status.service_id service.id) statuses) in
    record service { image_version_state = some result.0; image_version_checks = result.1 }

-- `ApplyImageVersionComparisons`.
unfoldable pub apply_image_version_comparisons :
    (List ImageReference → Text) → List Service → List StatusResult → List Service
unfolding apply_comparison
apply_image_version_comparisons sprint services statuses =
    map (apply_comparison sprint statuses) services
