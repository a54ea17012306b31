-- ===== src/Checks/Images.antt =====
-- The theorems on internal/core/images.go at concrete inputs.
use gitops_dashboard.Images.Unique.{blank_key, unique_image_references-keeps}
use gitops_dashboard.Prelude.{
  Distinct, ◌≡◌, ◌≤◌, refl, true, false, List, [], ◌∷◌, none, inl, Elem, All,
}
use gitops_dashboard.Prelude.Text.{
  Text, codes, text_eq, has_prefix, is_space, text_elem, trim_space, equal_fold,
}
use gitops_dashboard.Prelude.Strings.{Without-of_has_byte, has_byte, join, span_of, trim_byte}
use gitops_dashboard.Prelude.Rows.{count_where}
use gitops_dashboard.Images.Types.{
  ImageVersionState, ImageReference, ObservedImage, ImageVersionCheck, StatusResult,
}
use gitops_dashboard.Images.Parse.{parse_image_reference, is_registry_component}
use gitops_dashboard.Images.Mutable.{is_mutable, valid_prerelease_identifiers}
use gitops_dashboard.Images.Match.{
  reference_key, image_references_match, unique_image_references, repository_matches,
  normalized_repository,
}
use gitops_dashboard.Images.Compare.{
  compare_images, aggregate_image_version_state, image_version_priority, take_unused, is_exact,
}
use gitops_dashboard.Images.Service.{desired_references, observed_images_of, compare_service_images}
use gitops_dashboard.Images.RoundTrip.{
  reference_text, IsRegistry, IsRepository, IsTag, IsDigest, parse_image_reference-reference_text,
}
use gitops_dashboard.Images.Given.{holds_image, compare_images-count_le}
use gitops_dashboard.Images.Worst.{aggregate_image_version_state-worst}
use gitops_dashboard.Images.Runs.{compare_service_images-runs}
use gitops_dashboard.Core.{HealthState}

IsRegistry-ok : IsRegistry (codes "r.io")
unfolding IsRegistry is_space has_byte is_registry_component
IsRegistry-ok = (
  (refl, (refl, (refl, (refl, tt)))),
  Without-of_has_byte b'/' (codes "r.io") refl,
  Without-of_has_byte b'@' (codes "r.io") refl,
  refl,
)

IsRepository-ok : IsRepository (codes "a/b")
unfolding IsRepository is_space has_byte has_prefix
IsRepository-ok = (
  (refl, (refl, (refl, tt))),
  Without-of_has_byte b':' (codes "a/b") refl,
  Without-of_has_byte b'@' (codes "a/b") refl,
  refl,
  refl,
)

IsTag-ok : IsTag (codes "1.2")
unfolding IsTag is_space has_byte
IsTag-ok = (
  (refl, (refl, (refl, tt))),
  Without-of_has_byte b'/' (codes "1.2") refl,
  Without-of_has_byte b':' (codes "1.2") refl,
  Without-of_has_byte b'@' (codes "1.2") refl,
)

IsDigest-ok : IsDigest (codes "d:9")
unfolding IsDigest is_space has_byte
IsDigest-ok = ((refl, (refl, (refl, tt))), Without-of_has_byte b'@' (codes "d:9") refl)

parse_image_reference-reference_text_example :
    parse_image_reference (reference_text (codes "r.io") (codes "a/b") (codes "1.2") (codes "d:9"))
    ≡ record {
      original = reference_text (codes "r.io") (codes "a/b") (codes "1.2") (codes "d:9");
      registry = codes "r.io";
      repository = codes "a/b";
      tag = codes "1.2";
      digest = codes "d:9";
    }
parse_image_reference-reference_text_example =
    parse_image_reference-reference_text (codes "r.io") (codes "a/b") (codes "1.2") (codes "d:9")
      IsRegistry-ok IsRepository-ok IsTag-ok IsDigest-ok

abbrev pinned : ImageReference
pinned = record {
  original = codes "a:1.2.3";
  registry = [];
  repository = codes "a";
  tag = codes "1.2.3";
  digest = [];
}

abbrev running : ObservedImage
running = record { target = []; runtime = []; reference = pinned; image_id = []; repo_digests = [] }

compare_images-count_le_example :
    count_where (holds_image (λ item. true)) (compare_images (pinned ∷ pinned ∷ []) (running ∷ []))
    ≤ count_where (λ item. true) (running ∷ [])
compare_images-count_le_example =
    compare_images-count_le (λ item. true) (pinned ∷ pinned ∷ []) (running ∷ [])

abbrev check_of : ImageVersionState → ImageVersionCheck
check_of state = record { desired = pinned; observed = none; state = state; message = [] }

aggregate_image_version_state-worst_example :
    ((check : ImageVersionCheck) × Elem check
        (check_of ImageVersionState.unknown ∷ check_of ImageVersionState.mutable ∷ [])
      × (aggregate_image_version_state
            (check_of ImageVersionState.unknown ∷ check_of ImageVersionState.mutable ∷ [])
          ≡ check.state))
    × All
        (λ check.
          image_version_priority (
            aggregate_image_version_state
              (check_of ImageVersionState.unknown ∷ check_of ImageVersionState.mutable ∷ []))
          ≤ image_version_priority (check.state))
        (check_of ImageVersionState.unknown ∷ check_of ImageVersionState.mutable ∷ [])
aggregate_image_version_state-worst_example =
    aggregate_image_version_state-worst (check_of ImageVersionState.unknown)
      (check_of ImageVersionState.mutable ∷ [])

abbrev sprint : List ImageReference → Text
sprint refs = []

abbrev statuses : List StatusResult
statuses =
    record {
      service_id = [];
      health = HealthState.healthy;
      target = codes "t";
      observed_images = running ∷ [];
    }
    ∷ []

runs_pinned :
    (compare_service_images sprint (pinned ∷ []) [] statuses).0 ≡ ImageVersionState.matching
unfolding compare_service_images unique_image_references text_eq join text_elem take_unused is_exact
    image_references_match is_mutable trim_space equal_fold span_of has_prefix
    valid_prerelease_identifiers repository_matches normalized_repository trim_byte has_byte
runs_pinned = refl

wants_pinned : Elem pinned (desired_references (pinned ∷ []) [])
unfolding desired_references unique_image_references text_eq text_elem join
wants_pinned = inl refl

compare_service_images-runs_example :
    (is_mutable pinned ≡ false)
    × ((item : ObservedImage) × Elem item (observed_images_of sprint statuses)
        × (image_references_match pinned item ≡ (true, true)))
compare_service_images-runs_example =
    compare_service_images-runs sprint (pinned ∷ []) [] statuses pinned runs_pinned wants_pinned

not_blank : text_eq (reference_key pinned) blank_key ≡ false
unfolding reference_key join text_eq
not_blank = refl

unique_image_references-keeps_example :
    Distinct reference_key (unique_image_references (pinned ∷ pinned ∷ []))
    × All (λ r. Elem r (pinned ∷ pinned ∷ [])) (unique_image_references (pinned ∷ pinned ∷ []))
    × ((r : ImageReference) × Elem r (unique_image_references (pinned ∷ pinned ∷ []))
        × (reference_key r ≡ reference_key pinned))
unique_image_references-keeps_example =
    unique_image_references-keeps (pinned ∷ pinned ∷ []) pinned (inl refl) not_blank
