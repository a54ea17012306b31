-- ===== src/Prelude/Text.antt =====
-- Text as the bytes of a Go string, and the functions of the package `strings` that the program
-- calls, for ASCII: trimming drops the six ASCII white-space bytes, lowering maps `A` to `Z`.
use Prim.Native.Char.{code}
use Prim.Native.Nat.{ℕ, zero, suc, ◌+◌, ◌/◌, ◌%◌}
use Prim.Native.String.{String}
use mathlib.Core.Path.{◌≡◌, refl}
use mathlib.Core.Logic.{◌↔◌, inl, inr}
use mathlib.Core.Bool.{Bool, true, false, ◌&&◌, ◌||◌}
use mathlib.Core.List.{List, [], ◌∷◌}
use native.Mathlib.Omega.{arith}
use gitops_dashboard.Prelude.Lists.{Elem}
use gitops_dashboard.Prelude.Tests.{ltb, leb, ◌==◌, if◌then◌else◌, Bool-cases}

abbrev pub Text : Type 0
Text = List ℕ

-- The bytes of an ASCII literal.
abbrev pub codes : String → Text
codes String.[] = []
codes (String.◌∷◌ c s) = code c ∷ codes s

abbrev pub is_empty : Text → Bool
is_empty [] = true
is_empty (c ∷ s) = false

-- `a == b` on strings.
unfoldable pub text_eq : Text → Text → Bool
text_eq [] [] = true
text_eq [] (d ∷ t) = false
text_eq (c ∷ s) [] = false
text_eq (c ∷ s) (d ∷ t) = c == d && text_eq s t

pub text_eq_refl : (s : Text) → text_eq s s ≡ true
unfolding text_eq
text_eq_refl [] = refl
text_eq_refl (c ∷ s) = ground (arith, text_eq_refl s)

pub text_eq→eq : (s t : Text) → text_eq s t ≡ true → s ≡ t
unfolding text_eq
text_eq→eq [] [] h = refl
text_eq→eq [] (d ∷ t) h = ground arith
text_eq→eq (c ∷ s) [] h = ground arith
text_eq→eq (c ∷ s) (d ∷ t) h = ground (arith, text_eq→eq s t)

pub text_eq_iff : (s t : Text) → (text_eq s t ≡ true) ↔ (s ≡ t)
text_eq_iff s t = (text_eq→eq s t, λ e. ground (arith, text_eq_refl s))

-- `a < b` on strings, byte by byte.
unfoldable pub text_lt : Text → Text → Bool
text_lt s [] = false
text_lt [] (d ∷ t) = true
text_lt (c ∷ s) (d ∷ t) = ltb c d || (c == d && text_lt s t)

unfoldable pub is_space : ℕ → Bool
is_space c = c == 32 || (leb 9 c && leb c 13)

unfoldable pub trim_left : Text → Text
trim_left [] = []
trim_left (c ∷ s) = if is_space c then trim_left s else c ∷ s

abbrev trim_end : Bool → ℕ → Text → Text
trim_end true c [] = []
trim_end true c (d ∷ s) = c ∷ d ∷ s
trim_end false c s = c ∷ s

unfoldable pub trim_right : Text → Text
trim_right [] = []
trim_right (c ∷ s) = trim_end (is_space c) c (trim_right s)

-- `strings.TrimSpace`.
unfoldable pub trim_space : Text → Text
unfolding trim_left trim_right is_space
trim_space s = trim_right (trim_left s)

trim_end_keeps : (c : ℕ) (s : Text) → is_space c ≡ false → trim_end (is_space c) c s ≡ c ∷ s
trim_end_keeps c s h = rw h

trim_left-trim_right :
    (c : ℕ) (s : Text) → is_space c ≡ false → trim_left (trim_right (c ∷ s)) ≡ trim_right (c ∷ s)
unfolding trim_left trim_right
trim_left-trim_right c s h = rw (trim_end_keeps c (trim_right s) h) (rw h)

trim_right_idem : (s : Text) → trim_right (trim_right s) ≡ trim_right s
unfolding trim_right
trim_right_idem [] = refl
trim_right_idem (c ∷ s) = trim_right_step c (trim_right s) (trim_right_idem s)
  where
    trim_right_step :
        (c : ℕ) (r : Text)
        → trim_right r ≡ r
        → trim_right (trim_end (is_space c) c r) ≡ trim_end (is_space c) c r
    trim_right_step c [] h = ground arith
    trim_right_step c (d ∷ r) h = ground arith

trim_space_head : (s : Text) → trim_left (trim_right (trim_left s)) ≡ trim_right (trim_left s)
unfolding trim_left
trim_space_head [] = unfold trim_right in refl
trim_space_head (c ∷ s) = elim (Bool-cases (is_space c)) [
  | inl space ↦ rw space (trim_space_head s)
  | inr solid ↦ rw solid (trim_left-trim_right c s solid)
]

-- Trimmed text is left alone.
pub trim_space_idem : (s : Text) → trim_space (trim_space s) ≡ trim_space s
unfolding trim_space
trim_space_idem s = rw (trim_space_head s) (trim_right_idem (trim_left s))

-- Membership in a set or a slice of strings.
unfoldable pub text_elem : Text → List Text → Bool
text_elem s [] = false
text_elem s (t ∷ ts) = text_eq s t || text_elem s ts

-- `set[s] = struct{}{}` for a set kept in order of insertion.
unfoldable pub insert_new : Text → List Text → List Text
insert_new s [] = s ∷ []
insert_new s (t ∷ ts) = if text_eq s t then t ∷ ts else t ∷ insert_new s ts

-- `strings.HasPrefix(s, p)`.
unfoldable pub has_prefix : Text → Text → Bool
has_prefix [] s = true
has_prefix (d ∷ p) [] = false
has_prefix (d ∷ p) (c ∷ s) = d == c && has_prefix p s

-- `strings.Contains(s, t)`.
unfoldable pub contains : Text → Text → Bool
contains t [] = is_empty t
contains t (c ∷ s) = has_prefix t (c ∷ s) || contains t s

-- `strings.HasSuffix(s, t)`.
unfoldable pub has_suffix : Text → Text → Bool
has_suffix t [] = is_empty t
has_suffix t (c ∷ s) = text_eq t (c ∷ s) || has_suffix t s

unfoldable pub lower_byte : ℕ → ℕ
lower_byte c = if leb b'A' c && leb c b'Z' then c + 32 else c

-- `strings.ToLower`.
unfoldable pub to_lower : Text → Text
to_lower [] = []
to_lower (c ∷ s) = lower_byte c ∷ to_lower s

-- `strings.EqualFold`.
unfoldable pub equal_fold : Text → Text → Bool
unfolding to_lower lower_byte
equal_fold s t = text_eq (to_lower s) (to_lower t)

pub Elem-insert_new_self : (s : Text) (ts : List Text) → Elem s (insert_new s ts)
unfolding insert_new
Elem-insert_new_self s [] = inl refl
Elem-insert_new_self s (t ∷ ts) = elim (Bool-cases (text_eq s t)) [
  | inl e ↦ rw e (inl (text_eq→eq s t e))
  | inr e ↦ rw e (inr (Elem-insert_new_self s ts))
]

pub Elem-insert_new : (a s : Text) (ts : List Text) → Elem a ts → Elem a (insert_new s ts)
unfolding insert_new
Elem-insert_new a s [] h = inr h
Elem-insert_new a s (t ∷ ts) h = elim (Bool-cases (text_eq s t)) [
  | inl e ↦ rw e h
  | inr e ↦ rw e (pass (Elem-insert_new a s ts) h)
]
  where
    pass : (Elem a ts → Elem a (insert_new s ts)) → Elem a (t ∷ ts) → Elem a (t ∷ insert_new s ts)
    pass ih (inl here) = inl here
    pass ih (inr later) = inr (ih later)

-- The digits of a number before `tail`, on fuel.
unfoldable digits_on : ℕ → ℕ → Text → Text
digits_on zero n tail = tail
digits_on (suc fuel) n tail =
    let rest = digits_on fuel (n / 10) ((48 + n % 10) ∷ tail) in
    if ltb n 10 then (48 + n) ∷ tail else rest

-- `%d` of a number that is not negative.
unfoldable pub decimal : ℕ → Text
unfolding digits_on
decimal n = digits_on (suc n) n []
