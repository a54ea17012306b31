-- ===== src/Prelude/Strings.antt =====
-- More functions of the package `strings`, on the bytes of a Go string: positions of a byte, cuts,
-- splits and joins at a byte, and trimming by a byte.
use gitops_dashboard.Prelude.Lists.{length, take, drop, All}
use gitops_dashboard.Prelude.Tests.{◌==◌, if◌then◌else◌, Bool-cases}
use gitops_dashboard.Prelude.Text.{Text, is_space, trim_left, trim_right, trim_space}
use Prim.Native.Nat.{ℕ, suc, ◌-◌, ◌≤◌}
use mathlib.Core.Path.{◌≡◌, refl}
use mathlib.Core.Logic.{◌≢◌, inl, inr}
use mathlib.Core.Bool.{Bool, true, false, not}
use mathlib.Core.List.{List, [], ◌∷◌, ◌++◌}
use mathlib.Core.Option.{Option, none, some}
use native.Mathlib.Omega.{arith}

-- `strings.LastIndex(s, string(b))` plus one: 0 is what Go writes -1.
unfoldable pub last_index : ℕ → Text → ℕ
last_index b [] = 0
last_index b (c ∷ s) =
    let later = last_index b s in if not (later == 0) then suc later else (if c == b then 1 else 0)

-- `strings.Contains(s, string(b))`.
unfoldable pub has_byte : ℕ → Text → Bool
has_byte b [] = false
has_byte b (c ∷ s) = if c == b then true else has_byte b s

-- `strings.Cut(s, string(b))`.
unfoldable pub cut : ℕ → Text → Option (Text × Text)
cut b [] = none
cut b (c ∷ s) =
    if c == b
    then some ([], s)
    else elim (cut b s) [ none ↦ none | some parts ↦ some (c ∷ parts.0, parts.1) ]

-- A byte before the first part of a split.
abbrev to_first : ℕ → List Text → List Text
to_first c [] = (c ∷ []) ∷ []
to_first c (part ∷ parts) = (c ∷ part) ∷ parts

-- `strings.Split(s, string(b))`.
unfoldable pub split : ℕ → Text → List Text
split b [] = [] ∷ []
split b (c ∷ s) = if c == b then [] ∷ split b s else to_first c (split b s)

-- `strings.Join(parts, string(b))`.
unfoldable pub join : ℕ → List Text → Text
join b [] = []
join b (part ∷ []) = part
join b (part ∷ next ∷ parts) = part ++ (b ∷ join b (next ∷ parts))

unfoldable pub trim_byte_left : ℕ → Text → Text
trim_byte_left b [] = []
trim_byte_left b (c ∷ s) = if c == b then trim_byte_left b s else c ∷ s

abbrev trim_byte_end : Bool → ℕ → Text → Text
trim_byte_end true c [] = []
trim_byte_end true c (d ∷ s) = c ∷ d ∷ s
trim_byte_end false c s = c ∷ s

unfoldable pub trim_byte_right : ℕ → Text → Text
trim_byte_right b [] = []
trim_byte_right b (c ∷ s) = trim_byte_end (c == b) c (trim_byte_right b s)

-- `strings.Trim(s, string(b))`.
unfoldable pub trim_byte : ℕ → Text → Text
unfolding trim_byte_left trim_byte_right
trim_byte b s = trim_byte_right b (trim_byte_left b s)

-- The longest run of bytes of a class at the start, and the rest.
unfoldable pub span_of : (ℕ → Bool) → Text → Text × Text
span_of p [] = ([], [])
span_of p (c ∷ s) = let rest = span_of p s in if p c then (c ∷ rest.0, rest.1) else ([], c ∷ s)

-- No byte of a text is `b`.
abbrev pub Without : ℕ → Text → Type 0
Without b s = All (λ c. c ≢ b) s

pub last_index-Without : (b : ℕ) (s : Text) → Without b s → last_index b s ≡ 0
unfolding last_index
last_index-Without b [] h = refl
last_index-Without b (c ∷ s) h =
    let rest = last_index-Without b s h.1 in let here : c ≢ b = h.0 in ground arith

pub last_index-after :
    (b : ℕ) (s t : Text) → Without b t → last_index b (s ++ (b ∷ t)) ≡ suc (length s)
unfolding last_index
last_index-after b [] t h = rw (last_index-Without b t h) (ground arith)
last_index-after b (c ∷ s) t h = rw (last_index-after b s t h) (ground arith)

pub take-length-append : (s t : Text) → take (length s) (s ++ t) ≡ s
take-length-append [] [] = refl
take-length-append [] (c ∷ t) = refl
take-length-append (c ∷ s) t = rw (take-length-append s t) refl

pub drop-suc-length-append : (b : ℕ) (s t : Text) → drop (suc (length s)) (s ++ (b ∷ t)) ≡ t
drop-suc-length-append b [] t = refl
drop-suc-length-append b (c ∷ s) t = drop-suc-length-append b s t

pub has_byte-append : (b : ℕ) (s t : Text) → has_byte b (s ++ (b ∷ t)) ≡ true
unfolding has_byte
has_byte-append b [] t = ground arith
has_byte-append b (c ∷ s) t = rw (has_byte-append b s t) (ground arith)

to_first-join : (b c : ℕ) (parts : List Text) → join b (to_first c parts) ≡ c ∷ join b parts
unfolding join
to_first-join b c [] = refl
to_first-join b c (part ∷ []) = refl
to_first-join b c (part ∷ next ∷ parts) = refl

join_nil : (b : ℕ) (t : Text) → join b ([] ∷ split b t) ≡ b ∷ join b (split b t)
unfolding join split
join_nil b [] = refl
join_nil b (c ∷ t) = elim (Bool-cases (c == b)) [
  | inl e ↦ rw e refl
  | inr e ↦ rw e (join_first (split b t))
]
  where
    join_first :
        (parts : List Text) → join b ([] ∷ to_first c parts) ≡ b ∷ join b (to_first c parts)
    join_first [] = refl
    join_first (part ∷ parts) = refl

-- A split text, joined again.
pub join-split : (b : ℕ) (s : Text) → join b (split b s) ≡ s
unfolding split
join-split b [] = unfold join in refl
join-split b (c ∷ s) = elim (Bool-cases (c == b)) [
  | inl e ↦ rw e (rw (join_nil b s) (rw (join-split b s) (ground arith)))
  | inr e ↦ rw e (rw (to_first-join b c (split b s)) (rw (join-split b s) refl))
]

-- The first part of a split ends at the first separator.
pub split-append : (b : ℕ) (s t : Text) → Without b s → split b (s ++ (b ∷ t)) ≡ s ∷ split b t
unfolding split
split-append b [] t h = ground arith
split-append b (c ∷ s) t h = let apart : c ≢ b = h.0 in rw (split-append b s t h.1) (ground arith)

pub last_index-append : (b : ℕ) (s t : Text) → Without b t → last_index b (s ++ t) ≡ last_index b s
unfolding last_index
last_index-append b [] t h = last_index-Without b t h
last_index-append b (c ∷ s) t h = rw (last_index-append b s t h) refl

pub last_index-le : (b : ℕ) (s : Text) → last_index b s ≤ length s
unfolding last_index
last_index-le b [] = omega arith
last_index-le b (c ∷ s) = ground (arith, last_index-le b s)

pub le-last_index : (b : ℕ) (s t : Text) → suc (length s) ≤ last_index b (s ++ (b ∷ t))
unfolding last_index
le-last_index b [] t = ground arith
le-last_index b (c ∷ s) t = ground (arith, le-last_index b s t)

pub append_nil : (s : Text) → s ++ [] ≡ s
append_nil [] = refl
append_nil (c ∷ s) = rw (append_nil s) refl

-- Text with no white space is trimmed already.
abbrev pub NoSpace : Text → Type 0
NoSpace s = All (λ c. is_space c ≡ false) s

trim_left-NoSpace : (s : Text) → NoSpace s → trim_left s ≡ s
unfolding trim_left
trim_left-NoSpace [] h = refl
trim_left-NoSpace (c ∷ s) h = rw h.0 refl

trim_right-NoSpace : (s : Text) → NoSpace s → trim_right s ≡ s
unfolding trim_right
trim_right-NoSpace [] h = refl
trim_right-NoSpace (c ∷ s) h = rw h.0 (rw (trim_right-NoSpace s h.1) refl)

pub trim_space-NoSpace : (s : Text) → NoSpace s → trim_space s ≡ s
unfolding trim_space
trim_space-NoSpace s h = rw (trim_left-NoSpace s h) (trim_right-NoSpace s h)

pub take-before : (s t : Text) → take (suc (length s) - 1) (s ++ t) ≡ s
take-before s t =
    let e : suc (length s) - 1 ≡ length s = omega arith in rw e (take-length-append s t)

-- A split has a part at least.
pub split_cons :
    (b : ℕ) (s : Text) → (part : Text) × (parts : List Text) × (split b s ≡ part ∷ parts)
unfolding split
split_cons b [] = ([], [], refl)
split_cons b (c ∷ s) = elim (Bool-cases (c == b)) [
  | inl e ↦ ([], split b s, rw e refl)
  | inr e ↦ let (part, parts, cons) = split_cons b s in (c ∷ part, parts, rw e (rw cons refl))
]

pub Without-of_has_byte : (b : ℕ) (s : Text) → has_byte b s ≡ false → Without b s
unfolding has_byte
Without-of_has_byte b [] h = tt
Without-of_has_byte b (c ∷ s) h = elim (Bool-cases (c == b)) [
  | inl e ↦ cc (rw e at h)
  | inr e ↦ (λ same. ground arith, Without-of_has_byte b s (rw e at h))
]
