-- ===== src/Images/Parse.antt =====
-- internal/core/images.go: `ParseImageReference` and `ImageReferences`.
use gitops_dashboard.Prelude.{
  ◌-◌, Bool, false, not, ◌||◌, List, [], ◌∷◌, none, some, ltb, ◌==◌, if◌then◌else◌, length, take,
  drop,
}
use gitops_dashboard.Prelude.Text.{Text, codes, is_empty, text_eq, trim_space, has_prefix}
use gitops_dashboard.Prelude.Strings.{last_index, has_byte, cut, split, join}
use gitops_dashboard.Images.Types.{ImageReference}

abbrev pub docker_pullable : Text
docker_pullable = codes "docker-pullable://"

abbrev pub docker_scheme : Text
docker_scheme = codes "docker://"

abbrev pub containerd_scheme : Text
containerd_scheme = codes "containerd://"

-- The loop over the prefixes, on the trimmed value.
unfoldable pub strip_schemes : List Text → Text → Text
strip_schemes [] value = value
strip_schemes (scheme ∷ schemes) value =
    if has_prefix scheme value then drop (length scheme) value else strip_schemes schemes value

unfoldable pub strip_image_scheme : Text → Text
strip_image_scheme value =
    strip_schemes (docker_pullable ∷ docker_scheme ∷ containerd_scheme ∷ []) (trim_space value)

unfoldable pub is_digest_algorithm : Text → Bool
is_digest_algorithm algorithm =
    text_eq algorithm (codes "sha256")
    || text_eq algorithm (codes "sha384")
    || text_eq algorithm (codes "sha512")

unfoldable pub is_bare_digest : Text → Bool
unfolding is_digest_algorithm
is_bare_digest raw =
    let value = trim_space raw in
    if has_byte b'/' value || has_byte b'@' value then false else elim (cut b':' value) [
      | none ↦ false
      | some parts ↦ if is_empty parts.1 then false else is_digest_algorithm parts.0
    ]

unfoldable pub is_registry_component : Text → Bool
is_registry_component value =
    has_byte b'.' value || has_byte b':' value || text_eq value (codes "localhost")

-- The digest after the last `@`, and the name before it.
unfoldable pub split_digest : Text → Text × Text
split_digest name =
    let at = last_index b'@' name in
    if not (at == 0)
    then (trim_space (drop at name), trim_space (take (at - 1) name))
    else ([], name)

-- The tag after the last `:` that follows the last `/`, and the name before it.
unfoldable pub split_tag : Text → Text × Text
split_tag name =
    let last_slash = last_index b'/' name in
    let last_colon = last_index b':' name in
    if ltb last_slash last_colon
    then (trim_space (drop last_colon name), trim_space (take (last_colon - 1) name))
    else ([], name)

-- The registry and the repository of a name.
unfoldable pub split_registry : Text → Text × Text
split_registry name = elim (split b'/' name) [
  | [] ↦ ([], name)
  | first ∷ [] ↦ ([], name)
  | first ∷ next ∷ parts ↦
      if is_registry_component first then (first, join b'/' (next ∷ parts)) else ([], name)
]

-- The fields of a reference that is not a bare digest.
unfoldable pub parse_name : Text → Text → ImageReference
unfolding split_digest split_tag split_registry
parse_name original value =
    let digested = split_digest value in
    let tagged = split_tag digested.1 in
    let name = split_registry tagged.1 in
    if is_empty tagged.1
    then record {
      original = original;
      registry = [];
      repository = [];
      tag = tagged.0;
      digest = digested.0;
    }
    else record {
      original = original;
      registry = name.0;
      repository = name.1;
      tag = tagged.0;
      digest = digested.0;
    }

-- `ParseImageReference`.
unfoldable pub parse_image_reference : Text → ImageReference
unfolding strip_image_scheme is_bare_digest parse_name
parse_image_reference raw =
    let original = trim_space raw in
    let value = strip_image_scheme original in
    if is_empty original
    then record { original = original; registry = []; repository = []; tag = []; digest = [] }
    else if is_bare_digest value
    then record { original = original; registry = []; repository = []; tag = []; digest = value }
    else parse_name original value

-- `ImageReferences`.
unfoldable pub image_references : List Text → List ImageReference
image_references [] = []
image_references (value ∷ values) =
    let ref = parse_image_reference value in
    if is_empty (ref.original) then image_references values else ref ∷ image_references values
