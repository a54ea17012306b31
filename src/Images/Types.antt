-- ===== src/Images/Types.antt =====
-- internal/core/models.go: image references, observed images and image checks, with their status.
use gitops_dashboard.Prelude.{List, Option}
use gitops_dashboard.Prelude.Text.{Text}
use gitops_dashboard.Core.{HealthState}

pub data ImageVersionState : Type 0 where
  matching : ImageVersionState
  mismatched : ImageVersionState
  unknown : ImageVersionState
  mutable : ImageVersionState

pub record ImageReference : Type 0 where
  pub original : Text
  pub registry : Text
  pub repository : Text
  pub tag : Text
  pub digest : Text

pub record ObservedImage : Type 0 where
  pub target : Text
  pub runtime : Text
  pub reference : ImageReference
  pub image_id : Text
  pub repo_digests : List ImageReference

pub record ImageVersionCheck : Type 0 where
  pub desired : ImageReference
  pub observed : Option ObservedImage
  pub state : ImageVersionState
  pub message : Text

-- The fields of a `StatusResult` that the comparison reads.
pub record StatusResult : Type 0 where
  pub service_id : Text
  pub health : HealthState
  pub target : Text
  pub observed_images : List ObservedImage

-- The fields of a `Service` that are about its images; an empty state is `none`.
pub record Service : Type 0 where
  pub id : Text
  pub images : List Text
  pub desired_images : List ImageReference
  pub image_version_state : Option ImageVersionState
  pub image_version_checks : List ImageVersionCheck
