-- ===== src/Paths/Filter.antt =====
-- internal/scanner/path_filter.go. `path.Clean`, `path.Dir` and `path.Match` are parameters; the
-- pattern that `globRegex` builds is read as a list of its parts, whose match is by recursion on
-- ASCII texts, where the characters of the regular expression are the bytes.
use gitops_dashboard.Prelude.{
  ℕ, zero, suc, Bool, true, false, not, ◌&&◌, ◌||◌, List, [], ◌∷◌, ◌++◌, map, ◌==◌, if◌then◌else◌,
  length, drop,
}
use gitops_dashboard.Prelude.Text.{Text, codes, is_empty, text_eq, has_prefix, contains, trim_space}
use gitops_dashboard.Prelude.Strings.{trim_byte}

-- The functions of package path; `match` is false on a malformed pattern.
pub record PathFunctions : Type 0 where
  pub clean : Text → Text
  pub dir : Text → Text
  pub match : Text → Text → Bool

-- `strings.ReplaceAll(value, "\\", "/")`.
unfoldable pub with_slashes : Text → Text
with_slashes [] = []
with_slashes (c ∷ s) = (if c == 92 then b'/' else c) ∷ with_slashes s

abbrev pub dot : Text
dot = codes "."

-- `normalizeRepoPath`.
unfoldable pub normalize_repo_path : PathFunctions → Text → Text
unfolding with_slashes
normalize_repo_path paths value =
    let trimmed = trim_space (with_slashes value) in
    let plain = if has_prefix (codes "./") trimmed then drop 2 trimmed else trimmed in
    let bare = trim_byte b'/' plain in
    if is_empty bare || text_eq bare dot then dot else paths.clean bare

unfoldable pub has_glob : Text → Bool
has_glob [] = false
has_glob (c ∷ s) = if c == b'*' || c == b'?' || c == b'[' then true else has_glob s

-- What `globRegex` writes for a part of a pattern: `(?:.*/)?`, `.*`, `[^/]*`, `[^/]`, or a byte.
pub data GlobPart : Type 0 where
  any_dirs any_path any_name any_byte : GlobPart
  byte : ℕ → GlobPart

-- `globRegex`.
unfoldable pub glob_regex : Text → List GlobPart
glob_regex [] = []
glob_regex (c ∷ []) =
    (if c == b'*'
      then GlobPart.any_name
      else if c == b'?'
      then GlobPart.any_byte
      else GlobPart.byte c)
    ∷ []
glob_regex (c ∷ d ∷ []) =
    let last = glob_regex (d ∷ []) in
    if c == b'*' && d == b'*'
    then GlobPart.any_path ∷ []
    else (if c == b'*'
        then GlobPart.any_name
        else if c == b'?'
        then GlobPart.any_byte
        else GlobPart.byte c)
      ∷ last
glob_regex (c ∷ d ∷ e ∷ s) =
    let after_three = glob_regex s in
    let after_two = glob_regex (e ∷ s) in
    let after_one = glob_regex (d ∷ e ∷ s) in
    if c == b'*' && d == b'*'
    then (if e == b'/' then GlobPart.any_dirs ∷ after_three else GlobPart.any_path ∷ after_two)
    else (if c == b'*'
        then GlobPart.any_name
        else if c == b'?'
        then GlobPart.any_byte
        else GlobPart.byte c)
      ∷ after_one

-- A rest of the text after any of its prefixes that a class allows.
unfoldable pub after_run : (ℕ → Bool) → (Text → Bool) → Text → Bool
after_run p accepts [] = accepts []
after_run p accepts (c ∷ s) = let later = after_run p accepts s in accepts (c ∷ s) || (p c && later)

-- A rest of the text after a slash that follows any bytes but a newline.
unfoldable pub after_dirs : (Text → Bool) → Text → Bool
after_dirs accepts [] = false
after_dirs accepts (c ∷ s) =
    let later = after_dirs accepts s in (c == b'/' && accepts s) || (not (c == 10) && later)

unfoldable pub one_byte : (ℕ → Bool) → (Text → Bool) → Text → Bool
one_byte p accepts [] = false
one_byte p accepts (c ∷ s) = p c && accepts s

-- `MatchString` of the pattern.
unfoldable pub match_parts : List GlobPart → Text → Bool
unfolding after_run after_dirs one_byte
match_parts [] s = is_empty s
match_parts (GlobPart.any_dirs ∷ parts) s = match_parts parts s || after_dirs (match_parts parts) s
match_parts (GlobPart.any_path ∷ parts) s = after_run (λ c. not (c == 10)) (match_parts parts) s
match_parts (GlobPart.any_name ∷ parts) s = after_run (λ c. not (c == b'/')) (match_parts parts) s
match_parts (GlobPart.any_byte ∷ parts) s = one_byte (λ c. not (c == b'/')) (match_parts parts) s
match_parts (GlobPart.byte b ∷ parts) s = one_byte (λ c. c == b) (match_parts parts) s

-- `globMatch` of a pattern with a glob; the pattern that `globRegex` builds compiles always.
unfoldable pub glob_match : PathFunctions → Text → Text → Bool
unfolding glob_regex match_parts
glob_match paths value rel =
    if not (contains (codes "**") value)
    then paths.match value rel
    else match_parts (glob_regex value) rel

-- The loop over the ancestors, on fuel.
unfoldable pub match_ancestors : PathFunctions → Text → ℕ → Text → Bool
unfolding glob_match
match_ancestors paths value zero ancestor = false
match_ancestors paths value (suc fuel) ancestor =
    let later = match_ancestors paths value fuel (paths.dir ancestor) in
    if text_eq ancestor dot || text_eq ancestor (codes "/")
    then false
    else if glob_match paths value ancestor
    then true
    else later

-- `matches` of the pattern with a normalized value; a path has no more ancestors than bytes.
unfoldable pub matches_path : PathFunctions → Text → Text → Bool
unfolding normalize_repo_path has_glob match_ancestors
matches_path paths value raw =
    let rel = normalize_repo_path paths raw in
    if text_eq value dot || text_eq rel dot
    then false
    else if not (has_glob value)
    then text_eq rel value || has_prefix (value ++ codes "/") rel
    else if glob_match paths value rel
    then true
    else match_ancestors paths value (length rel) (paths.dir rel)

-- `repoPathFilter`, with the normalized values of its patterns.
pub record RepoPathFilter : Type 0 where
  pub include : List Text
  pub exclude : List Text

-- `newRepoPathFilter`.
unfoldable pub new_repo_path_filter : PathFunctions → List Text → List Text → RepoPathFilter
new_repo_path_filter paths include exclude = record {
  include = map (normalize_repo_path paths) include;
  exclude = map (normalize_repo_path paths) exclude;
}

unfoldable pub matches_any_path : PathFunctions → List Text → Text → Bool
unfolding matches_path
matches_any_path paths [] rel = false
matches_any_path paths (value ∷ values) rel =
    if matches_path paths value rel then true else matches_any_path paths values rel

abbrev no_patterns : List Text → Bool
no_patterns [] = true
no_patterns (value ∷ values) = false

-- `shouldScan`.
unfoldable pub should_scan : PathFunctions → RepoPathFilter → Text → Bool
unfolding matches_any_path
should_scan paths filter raw =
    let rel = normalize_repo_path paths raw in
    if text_eq rel dot
    then true
    else if matches_any_path paths filter.exclude rel
    then false
    else if no_patterns filter.include
    then true
    else matches_any_path paths filter.include rel

-- `shouldSkipDir`.
unfoldable pub should_skip_dir : PathFunctions → RepoPathFilter → Text → Bool
unfolding matches_any_path
should_skip_dir paths filter raw =
    let rel = normalize_repo_path paths raw in
    not (text_eq rel dot) && matches_any_path paths filter.exclude rel
