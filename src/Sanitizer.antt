-- ===== src/Sanitizer.antt =====
-- internal/sanitizer/sanitizer.go: the redaction of secrets in text. Text is bytes, and the pattern
-- `urlWithUserinfo` is read as a scan: each of its runs ends at a byte outside the run's class, so
-- a match at a position is unique.
pub mod Secrets
use gitops_dashboard.Prelude.{
  ℕ, zero, suc, ◌-◌, ◌+◌, ◌/◌, ◌%◌, Bool, true, false, not, ◌&&◌, ◌||◌, List, [], ◌∷◌, ◌++◌, Option,
  none, some, if◌then◌else◌, ltb, leb, ◌==◌, length, take, drop, map,
}
use gitops_dashboard.Prelude.Text.{
  Text, codes, is_empty, text_eq, text_lt, trim_space, insert_new, has_prefix,
}
use gitops_dashboard.Prelude.Rows.{order_by}

abbrev pub redacted : Text
redacted = codes "[REDACTED]"

-- `strings.ReplaceAll` for a text that is not empty; `skip` bytes belong to the last match.
unfoldable pub replace_from : Text → Text → ℕ → Text → Text
replace_from old new skip [] = []
replace_from old new (suc skip) (c ∷ s) = replace_from old new skip s
replace_from old new zero (c ∷ s) =
    let hit = has_prefix old (c ∷ s) in
    (if hit then new else c ∷ []) ++ replace_from old new (if hit then length old - 1 else 0) s

unfoldable pub replace_all : Text → Text → Text → Text
replace_all old new s = replace_from old new 0 s

unfoldable pub is_letter : ℕ → Bool
is_letter c = (leb b'a' c && leb c b'z') || (leb b'A' c && leb c b'Z')

unfoldable pub is_digit : ℕ → Bool
is_digit c = leb b'0' c && leb c b'9'

unfoldable pub is_word : ℕ → Bool
unfolding is_letter is_digit
is_word c = is_letter c || is_digit c || c == b'_'

unfoldable pub in_scheme : ℕ → Bool
unfolding is_letter is_digit
in_scheme c = is_letter c || is_digit c || c == b'+' || c == b'.' || c == b'-'

-- `\s` of a Go pattern, which leaves out the vertical tab.
unfoldable pub is_blank : ℕ → Bool
is_blank c = c == 9 || c == 10 || c == 12 || c == 13 || c == 32

unfoldable pub in_userinfo : ℕ → Bool
unfolding is_blank
in_userinfo c = not (is_blank c || c == b'/' || c == b'@')

unfoldable pub in_host : ℕ → Bool
unfolding is_blank
in_host c = not (is_blank c || c == 39 || c == 34 || c == b'<' || c == b'>')

-- The longest run of bytes of a class at the start.
unfoldable pub run_of : (ℕ → Bool) → Text → Text
run_of p [] = []
run_of p (c ∷ s) = if p c then c ∷ run_of p s else []

-- A match of `urlWithUserinfo` at the start of a text that follows `prev`: the replacement `$1$3`
-- and the number of bytes matched.
unfoldable pub url_match : Option ℕ → Text → Option (Text × ℕ)
unfolding is_letter is_word in_scheme in_userinfo in_host run_of
url_match prev [] = none
url_match prev (c ∷ s) =
    let boundary : Bool = elim prev [ none ↦ true | some b ↦ not (is_word b) ] in
    let scheme = run_of in_scheme (c ∷ s) in
    let after_scheme = drop (length scheme) (c ∷ s) in
    let user = run_of in_userinfo (drop 3 after_scheme) in
    let after_user = drop (length user) (drop 3 after_scheme) in
    let host = run_of in_host (drop 1 after_user) in
    if boundary
      && is_letter c
      && has_prefix (codes "://") after_scheme
      && not (is_empty user)
      && has_prefix (codes "@") after_user
      && not (is_empty host)
    then some (scheme ++ (codes "://" ++ host), length scheme + 3 + length user + 1 + length host)
    else none

abbrev emitted : ℕ → Option (Text × ℕ) → Text
emitted c none = c ∷ []
emitted c (some (out, n)) = out

abbrev matched : Option (Text × ℕ) → ℕ
matched none = 0
matched (some (out, n)) = n

unfoldable pub strip_from : Option ℕ → ℕ → Text → Text
unfolding url_match
strip_from prev skip [] = []
strip_from prev (suc skip) (c ∷ s) = strip_from (some c) skip s
strip_from prev zero (c ∷ s) =
    let hit = url_match prev (c ∷ s) in emitted c hit ++ strip_from (some c) (matched hit - 1) s

unfoldable pub redact_url_userinfo : Text → Text
unfolding strip_from
redact_url_userinfo s = strip_from none 0 s

-- `strings.ReplaceAll(value, "\n", " ")`, then the same of `"\r"`.
unfoldable pub flatten_lines : Text → Text
flatten_lines [] = []
flatten_lines (c ∷ s) = (if c == 10 || c == 13 then 32 else c) ∷ flatten_lines s

unfoldable pub replace_tokens : List Text → Text → Text
replace_tokens [] value = value
replace_tokens (token ∷ tokens) value = replace_tokens tokens (replace_all token redacted value)

-- `Redactor.Redact`.
unfoldable pub redactor_redact : List Text → Text → Text
redactor_redact tokens value =
    take 1000 (replace_tokens tokens (redact_url_userinfo (flatten_lines value)))

abbrev hex_digit : ℕ → ℕ
hex_digit n = if ltb n 10 then b'0' + n else b'A' + (n - 10)

-- `url.QueryEscape` and `url.PathEscape`, which keep different bytes.
unfoldable pub escape : (ℕ → Bool) → Bool → Text → Text
escape keep plus [] = []
escape keep plus (c ∷ s) =
    (if keep c
      then c ∷ []
      else if plus && c == 32
      then b'+' ∷ []
      else b'%' ∷ hex_digit (c / 16) ∷ hex_digit (c % 16) ∷ [])
    ++ escape keep plus s

unfoldable pub query_keeps : ℕ → Bool
unfolding is_letter is_digit
query_keeps c = is_letter c || is_digit c || c == b'-' || c == b'_' || c == b'.' || c == b'~'

unfoldable pub path_keeps : ℕ → Bool
unfolding query_keeps
path_keeps c =
    query_keeps c || c == b'$' || c == b'&' || c == b'+' || c == b':' || c == b'=' || c == b'@'

-- One round of the loop of `normalizeTokens` over the set `seen`.
unfoldable pub note_token : Text → List Text → List Text
note_token raw seen =
    let token = trim_space raw in
    if is_empty token
    then seen
    else insert_new (escape query_keeps true token)
        (insert_new (escape path_keeps false token) (insert_new token seen))

unfoldable pub note_tokens : List Text → List Text → List Text
note_tokens [] seen = seen
note_tokens (raw ∷ tokens) seen = note_tokens tokens (note_token raw seen)

abbrev longer_first : Text → Text → Bool
longer_first s t = if length s == length t then not (text_lt t s) else ltb (length t) (length s)

unfoldable pub normalize_tokens : List Text → List Text
normalize_tokens tokens = order_by longer_first (note_tokens tokens [])

-- `sanitizer.Redact`.
unfoldable pub redact : List Text → Text → Text
redact tokens value = redactor_redact (normalize_tokens tokens) value
