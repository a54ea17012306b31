-- ===== src/Prelude/Lists.antt =====
-- Lists measured by native numbers, and predicates over lists by recursion.
use Prim.Native.Nat.{ℕ, zero, suc, ◌+◌, ◌≤◌}
use mathlib.Core.Path.{◌≡◌, refl, ap, sym, ◌∙◌}
use mathlib.Core.Logic.{◌⊎◌, inl, inr, ◌≢◌}
use mathlib.Core.Bool.{Bool, true, false, ◌||◌}
use mathlib.Core.List.{List, [], ◌∷◌, ◌++◌, map}
use mathlib.Core.Option.{Option, none, some}
use native.Mathlib.Omega.{arith}
use gitops_dashboard.Prelude.Tests.{Bool-cases, ◌==◌, ==_iff, true_or, or_true}

-- No value, at every level.
pub data Empty {ℓ} : Type ℓ where

module _ {ℓ} {A : Type ℓ} where
  abbrev pub length : List A → ℕ
  length [] = 0
  length (x ∷ xs) = suc (length xs)

  abbrev pub take : ℕ → List A → List A
  take zero xs = []
  take (suc n) [] = []
  take (suc n) (x ∷ xs) = x ∷ take n xs

  abbrev pub drop : ℕ → List A → List A
  drop zero xs = xs
  drop (suc n) [] = []
  drop (suc n) (x ∷ xs) = drop n xs

  abbrev pub head? : List A → Option A
  head? [] = none
  head? (x ∷ xs) = some x

  pub length-append : (xs ys : List A) → length (xs ++ ys) ≡ length xs + length ys
  length-append [] ys = omega arith
  length-append (x ∷ xs) ys = omega (arith, length-append xs ys)

  pub length-take-le : (n : ℕ) (xs : List A) → length (take n xs) ≤ n
  length-take-le zero xs = omega arith
  length-take-le (suc n) [] = omega arith
  length-take-le (suc n) (x ∷ xs) = omega (arith, length-take-le n xs)

  -- A predicate holds of every element.
  abbrev pub All {κ} : (A → Type κ) → List A → Type κ
  All P [] = Unit
  All P (x ∷ xs) = P x × All P xs

  pub All-append {κ} : (P : A → Type κ) (xs ys : List A) → All P xs → All P ys → All P (xs ++ ys)
  All-append P [] ys hx hy = hy
  All-append P (x ∷ xs) ys hx hy = (hx.0, All-append P xs ys hx.1 hy)

  pub All-impl {κ μ} :
      (P : A → Type κ) (Q : A → Type μ)
      → ((a : A) → P a → Q a)
      → (xs : List A) → All P xs
      → All Q xs
  All-impl P Q f [] h = tt
  All-impl P Q f (x ∷ xs) h = (f x h.0, All-impl P Q f xs h.1)

  pub All-take {κ} : (P : A → Type κ) (n : ℕ) (xs : List A) → All P xs → All P (take n xs)
  All-take P zero xs h = tt
  All-take P (suc n) [] h = tt
  All-take P (suc n) (x ∷ xs) h = (h.0, All-take P n xs h.1)

  -- One of the elements is the given one.
  abbrev pub Elem : A → List A → Type ℓ
  Elem a [] = Empty
  Elem a (x ∷ xs) = (a ≡ x) ⊎ Elem a xs

  -- No two elements have the same key.
  abbrev pub Distinct {κ} : {K : Type κ} → (A → K) → List A → Type κ
  Distinct key [] = Unit
  Distinct key (x ∷ xs) = All (λ y. key y ≢ key x) xs × Distinct key xs

  pub All-of_Elem {κ} : (P : A → Type κ) (xs : List A) → ((x : A) → Elem x xs → P x) → All P xs
  All-of_Elem P [] f = tt
  All-of_Elem P (x ∷ xs) f = (f x (inl refl), All-of_Elem P xs (λ y m. f y (inr m)))

  -- What holds of all elements holds of each.
  pub All-Elem {κ} : (P : A → Type κ) (x : A) (xs : List A) → All P xs → Elem x xs → P x
  All-Elem P x [] h m = elim m [ ]
  All-Elem P x (y ∷ ys) h (inl e) = rw e h.0
  All-Elem P x (y ∷ ys) h (inr m) = All-Elem P x ys h.1 m

  -- A new element with a key of its own keeps the keys distinct.
  pub Distinct-append_fresh {κ} :
      {K : Type κ} (key : A → K) (x : A) (xs : List A)
      → Distinct key xs
      → All (λ y. key y ≢ key x) xs
      → Distinct key (xs ++ x ∷ [])
  Distinct-append_fresh key x [] d f = (tt, tt)
  Distinct-append_fresh key x (y ∷ xs) d f = (
    All-append (λ z. key z ≢ key y) xs (x ∷ []) d.0 (λ e. f.0 (sym e), tt),
    Distinct-append_fresh key x xs d.1 f.1,
  )

  pub Elem-append_left : (x : A) (xs ys : List A) → Elem x xs → Elem x (xs ++ ys)
  Elem-append_left x [] ys m = elim m [ ]
  Elem-append_left x (y ∷ xs) ys (inl e) = inl e
  Elem-append_left x (y ∷ xs) ys (inr m) = inr (Elem-append_left x xs ys m)

  -- Two elements with the same key are one.
  pub Distinct-same {κ} :
      {K : Type κ} (key : A → K) (x y : A) (xs : List A)
      → Distinct key xs
      → Elem x xs
      → Elem y xs
      → key x ≡ key y
      → x ≡ y
  Distinct-same key x y [] d mx my e = elim mx [ ]
  Distinct-same key x y (z ∷ zs) d (inl p) (inl q) e = p ∙ sym q
  Distinct-same key x y (z ∷ zs) d (inl p) (inr q) e =
      absurd (All-Elem (λ w. key w ≢ key z) y zs d.0 q (sym e ∙ ap key p))
  Distinct-same key x y (z ∷ zs) d (inr p) (inl q) e =
      absurd (All-Elem (λ w. key w ≢ key z) x zs d.0 p (e ∙ ap key q))
  Distinct-same key x y (z ∷ zs) d (inr p) (inr q) e = Distinct-same key x y zs d.1 p q e

  abbrev pub is_nil : List A → Bool
  is_nil [] = true
  is_nil (x ∷ xs) = false

-- An element of a mapped list comes from an element.
pub Elem-map {ℓ κ} :
    {A : Type ℓ} {B : Type κ} (f : A → B) (b : B) (xs : List A)
    → Elem b (map f xs)
    → (x : A) × Elem x xs × (b ≡ f x)
Elem-map f b [] m = elim m [ ]
Elem-map f b (x ∷ xs) (inl e) = (x, inl refl, e)
Elem-map f b (x ∷ xs) (inr m) = let (y, n, e) = Elem-map f b xs m in (y, inr n, e)

-- Membership of a number.
unfoldable pub id_elem : ℕ → List ℕ → Bool
id_elem i [] = false
id_elem i (j ∷ js) = i == j || id_elem i js

pub id_elem→Elem : (i : ℕ) (js : List ℕ) → id_elem i js ≡ true → Elem i js
unfolding id_elem
id_elem→Elem i [] h = cc
id_elem→Elem i (j ∷ js) h = elim (Bool-cases (i == j)) [
  | inl e ↦ inl ((==_iff i j).0 e)
  | inr e ↦ inr (id_elem→Elem i js (rw e at h))
]

pub Elem-id_elem : (i : ℕ) (js : List ℕ) → Elem i js → id_elem i js ≡ true
unfolding id_elem
Elem-id_elem i [] h = elim h [ ]
Elem-id_elem i (j ∷ js) (inl e) = true_or (i == j) (id_elem i js) ((==_iff i j).1 e)
Elem-id_elem i (j ∷ js) (inr m) = or_true (i == j) (id_elem i js) (Elem-id_elem i js m)
