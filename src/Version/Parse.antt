-- ===== src/Version/Parse.antt =====
-- `parseVersion`: the pattern `semVerTag`, `v`, and three numbers without leading zeros between
-- dots, and the range of an int64.
use gitops_dashboard.Prelude.{
  ℕ, ◌+◌, ◌-◌, ◌*◌, Bool, false, not, ◌&&◌, ◌||◌, [], ◌∷◌, Option, none, some, if◌then◌else◌, leb,
  ◌==◌,
}
use gitops_dashboard.Prelude.Text.{Text, is_empty}

pub record Version : Type 0 where
  pub major : ℕ
  pub minor : ℕ
  pub patch : ℕ

-- `math.MaxInt64`.
abbrev pub max_int64 : ℕ
max_int64 = 9223372036854775807

abbrev is_digit : ℕ → Bool
is_digit c = leb 48 c && leb c 57

-- The longest run of digits, and the rest.
unfoldable pub span_digits : Text → Text × Text
span_digits [] = ([], [])
span_digits (c ∷ s) =
    let rest = span_digits s in if is_digit c then (c ∷ rest.0, rest.1) else ([], c ∷ s)

unfoldable pub digits_value : ℕ → Text → ℕ
digits_value acc [] = acc
digits_value acc (c ∷ s) = digits_value (acc * 10 + (c - 48)) s

-- `0|[1-9]\d*`
abbrev is_canonical : Text → Bool
is_canonical [] = false
is_canonical (c ∷ s) = not (c == 48) || is_empty s

-- A number of the pattern that `strconv.ParseInt` accepts, and the rest.
unfoldable pub read_number : Text → Option (ℕ × Text)
read_number s =
    let run = span_digits s in
    let n = digits_value 0 run.0 in
    if is_canonical run.0 && leb n max_int64 then some (n, run.1) else none

-- The rest after a given byte.
unfoldable pub after_byte : ℕ → Text → Option Text
after_byte b [] = none
after_byte b (c ∷ s) = if c == b then some s else none

unfoldable pub read_dotted : Text → Option (ℕ × Text)
read_dotted s = elim (after_byte b'.' s) [ none ↦ none | some rest ↦ read_number rest ]

abbrev at_end : ℕ → ℕ → ℕ × Text → Option Version
at_end a b (c, []) = some (record { major = a; minor = b; patch = c })
at_end a b (c, d ∷ s) = none

-- `parseVersion`.
unfoldable pub parse_version : Text → Option Version
parse_version tag = elim (after_byte b'v' tag) [
  | none ↦ none
  | some s ↦ elim (read_number s) [
    | none ↦ none
    | some (a, s') ↦ elim (read_dotted s') [
      | none ↦ none
      | some (b, s'') ↦ elim (read_dotted s'') [ none ↦ none | some r ↦ at_end a b r ]
    ]
  ]
]
