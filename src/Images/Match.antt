-- ===== src/Images/Match.antt =====
-- internal/core/images.go: the comparison of repositories, and of a desired reference with an
-- observed image.
use gitops_dashboard.Prelude.{
  Bool, true, false, not, ◌&&◌, ◌||◌, List, [], ◌∷◌, ◌++◌, if◌then◌else◌,
}
use gitops_dashboard.Prelude.Text.{
  Text, codes, is_empty, text_eq, text_elem, trim_space, to_lower, equal_fold,
}
use gitops_dashboard.Prelude.Strings.{has_byte, join, trim_byte}
use gitops_dashboard.Images.Types.{ImageReference, ObservedImage}

-- `normalizedRepository`.
unfoldable pub normalized_repository : ImageReference → Text
normalized_repository ref =
    let repository = trim_byte b'/' (to_lower (ref.repository)) in
    let named = trim_byte b'/' (to_lower (ref.registry)) in
    let registry =
      if is_empty named || text_eq named (codes "index.docker.io")
      then codes "docker.io"
      else named in
    let path =
      if text_eq registry (codes "docker.io") && not (has_byte b'/' repository)
      then codes "library/" ++ repository
      else repository in
    if is_empty repository then [] else registry ++ (b'/' ∷ path)

-- `repositoryMatches`.
unfoldable pub repository_matches : ImageReference → ImageReference → Bool
repository_matches left right =
    let left_repo = normalized_repository left in
    let right_repo = normalized_repository right in
    if is_empty left_repo || is_empty right_repo then false else text_eq left_repo right_repo

-- `digestEqual`.
unfoldable pub digest_equal : Text → Text → Bool
digest_equal left right = equal_fold (trim_space left) (trim_space right)

-- The key of `uniqueImageReferences`.
unfoldable pub reference_key : ImageReference → Text
reference_key ref =
    join 0 (ref.original ∷ ref.registry ∷ ref.repository ∷ ref.tag ∷ ref.digest ∷ [])

unfoldable pub unique_references_from : List Text → List ImageReference → List ImageReference
unfolding reference_key
unique_references_from seen [] = []
unique_references_from seen (ref ∷ refs) =
    let key = reference_key ref in
    let skipped = unique_references_from seen refs in
    let kept = unique_references_from (key ∷ seen) refs in
    if text_eq key (0 ∷ 0 ∷ 0 ∷ 0 ∷ [])
    then skipped
    else if text_elem key seen
    then skipped
    else ref ∷ kept

-- `uniqueImageReferences`.
unfoldable pub unique_image_references : List ImageReference → List ImageReference
unfolding unique_references_from
unique_image_references refs = unique_references_from [] refs

-- `observedComparableReferences`.
unfoldable pub observed_comparable_references : ObservedImage → List ImageReference
observed_comparable_references item =
    unique_image_references (
      (if is_empty (item.reference.original) then [] else item.reference ∷ []) ++ item.repo_digests)

-- The loop over the digests: whether they match, and whether one is known.
unfoldable pub match_digest : ImageReference → Bool → List ImageReference → Bool × Bool
match_digest desired known [] = (false, known)
match_digest desired known (ref ∷ refs) =
    if is_empty (ref.digest)
    then match_digest desired known refs
    else if repository_matches desired ref && digest_equal (desired.digest) (ref.digest)
    then (true, true)
    else match_digest desired true refs

-- The loop over the tags.
unfoldable pub match_tag : ImageReference → Bool → List ImageReference → Bool × Bool
match_tag desired known [] = (false, known)
match_tag desired known (ref ∷ refs) =
    if is_empty (ref.tag)
    then match_tag desired known refs
    else if not (repository_matches desired ref)
    then match_tag desired known refs
    else if equal_fold (desired.tag) (ref.tag)
    then (true, true)
    else match_tag desired true refs

-- `imageReferencesMatch`.
unfoldable pub image_references_match : ImageReference → ObservedImage → Bool × Bool
unfolding match_digest match_tag observed_comparable_references
image_references_match desired item =
    let refs = observed_comparable_references item in
    if not (is_empty (desired.digest))
    then match_digest desired false refs
    else if is_empty (desired.tag)
    then (false, false)
    else match_tag desired false refs
