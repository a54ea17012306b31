-- ===== src/Version/Allocate.antt =====
-- `Allocate` and its helpers of internal/ci/version.go. The log lines are left out.
use gitops_dashboard.Prelude.{
  ◌+◌, Bool, true, false, not, ◌&&◌, List, [], ◌∷◌, ◌++◌, Option, none, some, if◌then◌else◌, ltb,
  ◌==◌,
}
use gitops_dashboard.Prelude.Text.{Text, codes, decimal, text_eq}
use gitops_dashboard.Version.Parse.{Version, max_int64, parse_version}

pub record Tag : Type 0 where
  pub name : Text
  pub commit : Text

-- `unsupported` is any string but the three.
pub data Bump : Type 0 where
  patch minor major unsupported : Bump

pub record Allocation : Type 0 where
  pub version : Text
  pub reused : Bool

-- `version.less`.
unfoldable pub less : Version → Version → Bool
less v o =
    if not (v.major == o.major)
    then ltb v.major o.major
    else if not (v.minor == o.minor)
    then ltb v.minor o.minor
    else ltb v.patch o.patch

unfoldable pub incrementable : Version → Bump → Bool
incrementable v Bump.major = ltb v.major max_int64
incrementable v Bump.minor = ltb v.minor max_int64
incrementable v Bump.patch = ltb v.patch max_int64
incrementable v Bump.unsupported = false

unfoldable pub next_version : Version → Bump → Version
next_version v Bump.major = record { major = v.major + 1; minor = 0; patch = 0 }
next_version v Bump.minor = record v { minor = v.minor + 1; patch = 0 }
next_version v Bump.patch = record v { patch = v.patch + 1 }
next_version v Bump.unsupported = v

-- The shape that `sourceTagMatchesBump` looks for in a parsed tag.
unfoldable pub shape_matches : Version → Bump → Bool
shape_matches v Bump.major = ltb 0 v.major && v.minor == 0 && v.patch == 0
shape_matches v Bump.minor = ltb 0 v.minor && v.patch == 0
shape_matches v Bump.patch = ltb 0 v.patch
shape_matches v Bump.unsupported = false

-- `version.String`.
unfoldable pub version_text : Version → Text
version_text v =
    codes "v" ++ decimal v.major ++ codes "." ++ decimal v.minor ++ codes "." ++ decimal v.patch

-- `sourceTagMatchesBump`.
unfoldable pub source_tag_matches_bump : Text → Bump → Bool
source_tag_matches_bump name bump = elim (parse_version name) [
  | none ↦ false
  | some v ↦ shape_matches v bump
]

-- `max` and `reuse` after a tag.
abbrev pub Scan : Type 0
Scan = Version × Option Version

abbrev reuse_with : Option Version → Version → Option Version
reuse_with none parsed = some parsed
reuse_with (some old) parsed = if less old parsed then some parsed else some old

abbrev max_with : Version → Version → Version
max_with max parsed = if less max parsed then parsed else max

-- A turn of the loop of `Allocate`.
unfoldable pub scan_tag : Text → Bump → Tag → Scan → Scan
scan_tag source bump tag (max, reuse) = elim (parse_version tag.name) [
  | none ↦ (max, reuse)
  | some parsed ↦
      let reuse' =
        if text_eq tag.commit source && source_tag_matches_bump tag.name bump
        then reuse_with reuse parsed
        else reuse in
      (if incrementable parsed bump then max_with max parsed else max, reuse')
]

unfoldable pub scan_tags : Text → Bump → List Tag → Scan → Scan
scan_tags source bump [] s = s
scan_tags source bump (tag ∷ tags) s = scan_tags source bump tags (scan_tag source bump tag s)

abbrev pub is_supported : Bump → Bool
is_supported Bump.unsupported = false
is_supported _ = true

abbrev pub zero_version : Version
zero_version = record { major = 0; minor = 0; patch = 0 }

-- The end of `Allocate`.
abbrev pub allocation_of : Bump → Scan → Version × Bool
allocation_of bump (max, some reuse) = (reuse, true)
allocation_of bump (max, none) = (next_version max bump, false)

-- The version that `Allocate` chooses, and whether it is reused; `none` is its error.
unfoldable pub allocate_version : List Tag → Text → Bump → Option (Version × Bool)
allocate_version tags source bump =
    if not (is_supported bump)
    then none
    else some (allocation_of bump (scan_tags source bump tags (zero_version, none)))

-- `Allocate`.
unfoldable pub allocate : List Tag → Text → Bump → Option Allocation
allocate tags source bump = elim (allocate_version tags source bump) [
  | none ↦ none
  | some (v, reused) ↦ some (record { version = version_text v; reused = reused })
]
