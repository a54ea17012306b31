-- ===== src/Images/Runs.antt =====
-- A service reported as matching runs what it asks for.
use gitops_dashboard.Prelude.{
  ◌≡◌, refl, sym, ◌∙◌, Bool, true, false, List, [], ◌∷◌, ◌++◌, map, some, inl, inr, All-Elem, Elem,
}
use gitops_dashboard.Prelude.Text.{Text}
use gitops_dashboard.Images.Types.{
  ImageVersionState, ImageReference, ObservedImage, ImageVersionCheck, StatusResult,
}
use gitops_dashboard.Images.Mutable.{is_mutable}
use gitops_dashboard.Images.Match.{image_references_match}
use gitops_dashboard.Images.Compare.{compare_images, compared}
use gitops_dashboard.Images.Worst.{best_is_matching, aggregate-le}
use gitops_dashboard.Images.Service.{
  desired_references, observed_images_of, compare_unique, compare_service_images,
}
use gitops_dashboard.Images.Truthful.{IsTruthful, compare_images-IsTruthful}

-- A check of one of the first references.
find_check :
    (ref : ImageReference) (checks : List ImageVersionCheck) (desired extra : List ImageReference)
    → map (λ check. check.desired) checks ≡ desired ++ extra
    → Elem ref desired
    → (check : ImageVersionCheck) × Elem check checks × (check.desired ≡ ref)
find_check ref checks [] extra e m = elim m [ ]
find_check ref [] (first ∷ desired) extra e m = cc
find_check ref (check ∷ checks) (first ∷ desired) extra e (inl here) = (check, inl refl, cc)
find_check ref (check ∷ checks) (first ∷ desired) extra e (inr later) =
    let (found, m, same) = find_check ref checks desired extra (cc) later in (found, inr m, same)

-- Only a known match is compared as matching.
compared-matching :
    (answer : Bool × Bool)
    → (compared answer).0 ≡ ImageVersionState.matching
    → answer ≡ (true, true)
unfolding compared
compared-matching (true, true) h = refl
compared-matching (false, true) h = cc
compared-matching (true, false) h = cc
compared-matching (false, false) h = cc

-- What a matching check says of its reference.
IsTruthful-matching :
    (items : List ObservedImage) (check : ImageVersionCheck)
    → IsTruthful items check
    → check.state ≡ ImageVersionState.matching
    → (is_mutable (check.desired) ≡ false)
      × ((item : ObservedImage) × Elem item items
          × (check.observed ≡ some item)
          × (image_references_match (check.desired) item ≡ (true, true)))
IsTruthful-matching items check (inl (mut, e)) h = cc
IsTruthful-matching items check (inr (inl (blank, e))) h = cc
IsTruthful-matching items check (inr (inr (pinned, item, m, held, e))) h = (
  pinned,
  (item, m, held, compared-matching (image_references_match (check.desired) item) (sym e ∙ h)),
)

compare_unique-matching :
    (refs : List ImageReference) (items : List ObservedImage) (ref : ImageReference)
    → (compare_unique refs items).0 ≡ ImageVersionState.matching
    → Elem ref refs
    → (check : ImageVersionCheck) × Elem check ((compare_unique refs items).1)
      × (check.desired ≡ ref)
      × (check.state ≡ ImageVersionState.matching)
      × IsTruthful items check
unfolding compare_unique
compare_unique-matching [] items ref h m = elim m [ ]
compare_unique-matching (first ∷ refs) items ref h m =
    let checks = compare_images (first ∷ refs) items in
    let (truthful, (extra, same)) = compare_images-IsTruthful (first ∷ refs) items in
    let (check, here, asked) = find_check ref checks (first ∷ refs) extra same m in
    (
      check,
      here,
      asked,
      best_is_matching (check.state) (rw h at (aggregate-le checks check here)),
      All-Elem (IsTruthful items) check checks truthful here,
    )

-- If CompareServiceImages reports a service as matching, then every reference that the service
-- asks for is not mutable, and an observed image of its applicable statuses matches it.
pub compare_service_images-runs :
    (sprint : List ImageReference → Text) (refs : List ImageReference) (images : List Text)
    → (statuses : List StatusResult) (ref : ImageReference)
    → (compare_service_images sprint refs images statuses).0 ≡ ImageVersionState.matching
    → Elem ref (desired_references refs images)
    → (is_mutable ref ≡ false)
      × ((item : ObservedImage) × Elem item (observed_images_of sprint statuses)
          × (image_references_match ref item ≡ (true, true)))
unfolding compare_service_images
compare_service_images-runs sprint refs images statuses ref h m =
    let items = observed_images_of sprint statuses in
    let (check, here, asked, best, truthful) =
      compare_unique-matching (desired_references refs images) items ref h m in
    let (pinned, (item, found, held, same)) = IsTruthful-matching items check truthful best in
    rw (← asked) (pinned, (item, found, same))
