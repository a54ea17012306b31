-- ===== src/Images/Mutable.antt =====
-- internal/core/images.go: `Mutable`, with the pattern `semverTagPattern` as a scan. Each run of the
-- pattern ends at a byte outside the run's class, so a match is unique.
use gitops_dashboard.Prelude.{
  ℕ, Bool, true, false, not, ◌&&◌, ◌||◌, List, [], ◌∷◌, Option, none, some, leb, ◌==◌,
  if◌then◌else◌, drop, ◌>>=◌,
}
use gitops_dashboard.Prelude.Text.{
  Text, codes, is_empty, text_eq, trim_space, has_prefix, equal_fold,
}
use gitops_dashboard.Prelude.Strings.{split, span_of}
use gitops_dashboard.Images.Types.{ImageReference}

unfoldable pub valid_semver_number : Text → Bool
valid_semver_number value =
    text_eq value (codes "0") || (not (is_empty value) && not (has_prefix (codes "0") value))

abbrev is_ascii_digit : ℕ → Bool
is_ascii_digit c = leb b'0' c && leb c b'9'

unfoldable pub all_digits : Text → Bool
all_digits [] = false
all_digits (c ∷ []) = is_ascii_digit c
all_digits (c ∷ d ∷ s) = is_ascii_digit c && all_digits (d ∷ s)

unfoldable pub valid_identifiers : List Text → Bool
valid_identifiers [] = true
valid_identifiers (identifier ∷ rest) =
    if is_empty identifier
    then false
    else if all_digits identifier && not (valid_semver_number identifier)
    then false
    else valid_identifiers rest

unfoldable pub valid_prerelease_identifiers : Text → Bool
unfolding valid_identifiers
valid_prerelease_identifiers value =
    if is_empty value then true else valid_identifiers (split b'.' value)

unfoldable pub in_identifiers : ℕ → Bool
in_identifiers c =
    is_ascii_digit c
    || (leb b'A' c && leb c b'Z')
    || (leb b'a' c && leb c b'z')
    || c == b'-'
    || c == b'.'

unfoldable pub none_empty : List Text → Bool
none_empty [] = true
none_empty (part ∷ parts) = not (is_empty part) && none_empty parts

-- `[0-9A-Za-z-]+(?:\.[0-9A-Za-z-]+)*` at the start, and the rest.
unfoldable pub dotted_run : Text → Option (Text × Text)
unfolding none_empty in_identifiers
dotted_run s =
    let run = span_of in_identifiers s in if none_empty (split b'.' run.0) then some run else none

-- `(?:\+(...))?$`.
unfoldable pub build_then_end : Text → Bool
build_then_end [] = true
build_then_end (c ∷ s) =
    if c == b'+' then elim (dotted_run s) [ none ↦ false | some run ↦ is_empty run.1 ] else false

-- `(?:-(...))?(?:\+(...))?$`: the fourth group, empty where it takes no part.
unfoldable pub prerelease_then_end : Text → Option Text
unfolding build_then_end
prerelease_then_end [] = some []
prerelease_then_end (c ∷ s) =
    if c == b'-'
    then elim (dotted_run s) [
      | none ↦ none
      | some run ↦ if build_then_end run.1 then some run.0 else none
    ]
    else if build_then_end (c ∷ s)
    then some []
    else none

-- `[0-9]+` at the start, and the rest.
unfoldable pub digit_run : Text → Option (Text × Text)
digit_run s = let run = span_of is_ascii_digit s in if is_empty run.0 then none else some run

-- The groups of `semverTagPattern`, where the third is not empty.
unfoldable pub semver_groups : Text → Option (Text × Text × Text × Text)
unfolding digit_run prerelease_then_end
semver_groups tag =
    let numbers = if has_prefix (codes "v") tag then drop 1 tag else tag in
    do
      major ← digit_run numbers
      s ← after_dot major.1
      minor ← digit_run s
      t ← after_dot minor.1
      patch ← digit_run t
      pre ← prerelease_then_end patch.1
      some (major.0, minor.0, patch.0, pre)
  where
    after_dot : Text → Option Text
    after_dot [] = none
    after_dot (c ∷ s) = if c == b'.' then some s else none

-- `isFullSemVerTag`.
unfoldable pub is_full_semver_tag : Text → Bool
unfolding semver_groups valid_semver_number
is_full_semver_tag tag = elim (semver_groups (trim_space tag)) [
  | none ↦ false
  | some (major, minor, patch, pre) ↦
      valid_semver_number major
      && valid_semver_number minor
      && valid_semver_number patch
      && valid_prerelease_identifiers pre
]

-- `Mutable`.
unfoldable pub is_mutable : ImageReference → Bool
unfolding is_full_semver_tag
is_mutable ref =
    let tag = trim_space (ref.tag) in
    if is_empty (ref.original) || not (is_empty (ref.digest))
    then false
    else if is_empty tag || equal_fold tag (codes "latest")
    then true
    else not (is_full_semver_tag tag)
