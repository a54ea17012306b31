-- ===== src/Prelude/Rows.antt =====
-- A table as the list of its rows in order of their ids, and the SQL that the program runs on it.
use Prim.Native.Nat.{ℕ, ◌+◌, ◌<◌}
use mathlib.Core.Path.{◌≡◌, refl, sym, subst}
use mathlib.Core.Bool.{Bool, true, false, ◌||◌}
use mathlib.Core.List.{List, [], ◌∷◌, ◌++◌}
use mathlib.Core.Option.{Option, none, some}
use mathlib.Core.Logic.{inl, inr, ◌≢◌}
use native.Mathlib.Omega.{arith}
use gitops_dashboard.Prelude.Tests.{if◌then◌else◌, Bool-cases, true_or, or_true}
use gitops_dashboard.Prelude.Lists.{All, Elem, Distinct, All-impl, All-of_Elem, head?}

module _ {ℓ} {A : Type ℓ} where
  -- `SELECT ... WHERE p`
  unfoldable pub select_where : (A → Bool) → List A → List A
  select_where p [] = []
  select_where p (x ∷ xs) = if p x then x ∷ select_where p xs else select_where p xs

  -- `SELECT COUNT(*) ... WHERE p`
  unfoldable pub count_where : (A → Bool) → List A → ℕ
  count_where p [] = 0
  count_where p (x ∷ xs) = (if p x then 1 else 0) + count_where p xs

  -- `EXISTS (SELECT 1 ... WHERE p)`
  unfoldable pub exists_where : (A → Bool) → List A → Bool
  exists_where p [] = false
  exists_where p (x ∷ xs) = p x || exists_where p xs

  -- `UPDATE ... SET f WHERE p`
  unfoldable pub update_where : (A → Bool) → (A → A) → List A → List A
  update_where p f [] = []
  update_where p f (x ∷ xs) = (if p x then f x else x) ∷ update_where p f xs

  -- The row of a query that returns one row at most.
  unfoldable pub find_where : (A → Bool) → List A → Option A
  find_where p [] = none
  find_where p (x ∷ xs) = if p x then some x else find_where p xs

  unfoldable pub insert_by : (A → A → Bool) → A → List A → List A
  insert_by le x [] = x ∷ []
  insert_by le x (y ∷ ys) = if le x y then x ∷ y ∷ ys else y ∷ insert_by le x ys

  -- `ORDER BY`
  unfoldable pub order_by : (A → A → Bool) → List A → List A
  unfolding insert_by
  order_by le [] = []
  order_by le (x ∷ xs) = insert_by le x (order_by le xs)

  pub All-select_where {κ} :
      (P : A → Type κ) (p : A → Bool) (xs : List A)
      → ((x : A) → p x ≡ true → P x)
      → All P (select_where p xs)
  unfolding select_where
  All-select_where P p [] f = tt
  All-select_where P p (x ∷ xs) f = elim (Bool-cases (p x)) [
    | inl h ↦ rw h (f x h, All-select_where P p xs f)
    | inr h ↦ rw h (All-select_where P p xs f)
  ]

  -- What a query returns has what all rows have, and passes the test.
  pub All-select_where_both {κ} :
      (P : A → Type κ) (p : A → Bool) (xs : List A)
      → All P xs
      → All (λ x. P x × (p x ≡ true)) (select_where p xs)
  unfolding select_where
  All-select_where_both P p [] h = tt
  All-select_where_both P p (x ∷ xs) h = elim (Bool-cases (p x)) [
    | inl e ↦ rw e ((h.0, e), All-select_where_both P p xs h.1)
    | inr e ↦ rw e (All-select_where_both P p xs h.1)
  ]

  pub All-update_where {κ} :
      (P : A → Type κ) (p : A → Bool) (f : A → A) (xs : List A)
      → ((x : A) → p x ≡ true → P x → P (f x))
      → All P xs
      → All P (update_where p f xs)
  unfolding update_where
  All-update_where P p f [] k h = tt
  All-update_where P p f (x ∷ xs) k h = elim (Bool-cases (p x)) [
    | inl e ↦ rw e (k x e h.0, All-update_where P p f xs k h.1)
    | inr e ↦ rw e (h.0, All-update_where P p f xs k h.1)
  ]

  pub All-insert_by {κ} :
      (P : A → Type κ) (le : A → A → Bool) (x : A) (ys : List A)
      → P x
      → All P ys
      → All P (insert_by le x ys)
  unfolding insert_by
  All-insert_by P le x [] px h = (px, tt)
  All-insert_by P le x (y ∷ ys) px h = elim (Bool-cases (le x y)) [
    | inl e ↦ rw e (px, (h.0, h.1))
    | inr e ↦ rw e (h.0, All-insert_by P le x ys px h.1)
  ]

  pub All-order_by {κ} :
      (P : A → Type κ) (le : A → A → Bool) (xs : List A) → All P xs → All P (order_by le xs)
  unfolding order_by
  All-order_by P le [] h = tt
  All-order_by P le (x ∷ xs) h =
      All-insert_by P le x (order_by le xs) h.0 (All-order_by P le xs h.1)

  -- An update that leaves the test alone leaves the count alone.
  pub count_where-update_where :
      (q p : A → Bool) (f : A → A) (xs : List A)
      → ((x : A) → Elem x xs → p x ≡ true → q (f x) ≡ q x)
      → count_where q (update_where p f xs) ≡ count_where q xs
  unfolding count_where update_where
  count_where-update_where q p f [] k = refl
  count_where-update_where q p f (x ∷ xs) k = elim (Bool-cases (p x)) [
    | inl e ↦ rw (e, k x (inl refl) e, count_where-update_where q p f xs (λ y m. k y (inr m)))
    | inr e ↦ rw (e, count_where-update_where q p f xs (λ y m. k y (inr m)))
  ]

  pub count_where-append :
      (q : A → Bool) (xs ys : List A)
      → count_where q (xs ++ ys) ≡ count_where q xs + count_where q ys
  unfolding count_where
  count_where-append q [] ys = omega arith
  count_where-append q (x ∷ xs) ys = omega (arith, count_where-append q xs ys)

  pub Elem-insert_by :
      (le : A → A → Bool) (a x : A) (ys : List A) → Elem a (x ∷ ys) → Elem a (insert_by le x ys)
  unfolding insert_by
  Elem-insert_by le a x [] h = h
  Elem-insert_by le a x (y ∷ ys) h = elim (Bool-cases (le x y)) [
    | inl e ↦ rw e h
    | inr e ↦ rw e (pass (Elem-insert_by le a x ys) h)
  ]
    where
      pass :
          (Elem a (x ∷ ys) → Elem a (insert_by le x ys))
          → Elem a (x ∷ y ∷ ys)
          → Elem a (y ∷ insert_by le x ys)
      pass ih (inl here) = inr (ih (inl here))
      pass ih (inr (inl next)) = inl next
      pass ih (inr (inr later)) = inr (ih (inr later))

  -- Sorting drops no row.
  pub Elem-order_by :
      (le : A → A → Bool) (a : A) (xs : List A) → Elem a xs → Elem a (order_by le xs)
  unfolding order_by
  Elem-order_by le a [] h = h
  Elem-order_by le a (x ∷ xs) (inl here) = Elem-insert_by le a x (order_by le xs) (inl here)
  Elem-order_by le a (x ∷ xs) (inr later) =
      Elem-insert_by le a x (order_by le xs) (inr (Elem-order_by le a xs later))

  pub count_pos_of_exists :
      (p : A → Bool) (xs : List A) → exists_where p xs ≡ true → 0 < count_where p xs
  unfolding exists_where count_where
  count_pos_of_exists p [] h = cc
  count_pos_of_exists p (x ∷ xs) h = ground (arith, count_pos_of_exists p xs)

  pub exists_of_count_pos :
      (p : A → Bool) (xs : List A) → 0 < count_where p xs → exists_where p xs ≡ true
  unfolding exists_where count_where
  exists_of_count_pos p [] h = absurd (omega arith)
  exists_of_count_pos p (x ∷ xs) h = ground (arith, exists_of_count_pos p xs)

  -- No row passes a test that every row fails.
  pub exists_where_none :
      (p : A → Bool) (xs : List A) → All (λ x. p x ≡ false) xs → exists_where p xs ≡ false
  unfolding exists_where
  exists_where_none p [] h = refl
  exists_where_none p (x ∷ xs) h = ground (arith, exists_where_none p xs h.1)

  pub count_where_none :
      (p : A → Bool) (xs : List A) → All (λ x. p x ≡ false) xs → count_where p xs ≡ 0
  unfolding count_where
  count_where_none p [] h = refl
  count_where_none p (x ∷ xs) h = ground (arith, count_where_none p xs h.1)

  pub exists_of_Elem :
      (p : A → Bool) (x : A) (xs : List A) → Elem x xs → p x ≡ true → exists_where p xs ≡ true
  unfolding exists_where
  exists_of_Elem p x [] m h = elim m [ ]
  exists_of_Elem p x (y ∷ xs) (inl e) h = true_or (p y) _ (rw (← e) h)
  exists_of_Elem p x (y ∷ xs) (inr m) h = or_true (p y) _ (exists_of_Elem p x xs m h)

  -- A row that a search finds is a row that passes the test.
  -- The row that a query finds after an update of the rows that it would find.
  pub find_where-update_where :
      (p : A → Bool) (f : A → A) (x : A) (xs : List A)
      → find_where p xs ≡ some x
      → p (f x) ≡ true
      → find_where p (update_where p f xs) ≡ some (f x)
  unfolding find_where update_where
  find_where-update_where p f x [] h k = cc
  find_where-update_where p f x (y ∷ xs) h k = elim (Bool-cases (p y)) [
    | inl e ↦
        let found : some y ≡ some x = rw e at h in
        let same : y ≡ x = cc in rw e (rw same (rw k refl))
    | inr e ↦ rw (e, e) (find_where-update_where p f x xs (rw e at h) k)
  ]

  pub find_where-some :
      (p : A → Bool) (x : A) (xs : List A) → find_where p xs ≡ some x → Elem x xs × (p x ≡ true)
  unfolding find_where
  find_where-some p x [] h = cc
  find_where-some p x (y ∷ xs) h = elim (Bool-cases (p y)) [
    | inl e ↦
        let found : some y ≡ some x = rw e at h in
        let same : y ≡ x = cc in (inl (sym same), subst (λ z. p z ≡ true) same e)
    | inr e ↦ let (m, q) = find_where-some p x xs (rw e at h) in (inr m, q)
  ]

  head_of_All {κ} : (P : A → Type κ) (x : A) (xs : List A) → All P xs → head? xs ≡ some x → P x
  head_of_All P x [] h e = cc
  head_of_All P x (y ∷ xs) h e = let same : y ≡ x = cc in subst P same h.0

  -- The first row of an ordered query is a row of the table that passes the test.
  pub first_of_query :
      (p : A → Bool) (le : A → A → Bool) (x : A) (xs : List A)
      → head? (order_by le (select_where p xs)) ≡ some x
      → Elem x xs × (p x ≡ true)
  first_of_query p le x xs e =
      head_of_All (λ y. Elem y xs × (p y ≡ true)) x (order_by le (select_where p xs))
        (All-order_by _ le _
          (All-select_where_both (λ y. Elem y xs) p xs (All-of_Elem _ xs (λ y m. m))))
        e

  length_pos-insert_by :
      (le : A → A → Bool) (x : A) (ys : List A) → head? (insert_by le x ys) ≢ none
  unfolding insert_by
  length_pos-insert_by le x [] = λ e. cc
  length_pos-insert_by le x (y ∷ ys) = ground arith

  -- A query with no first row has no row at all.
  pub query_empty :
      (p : A → Bool) (le : A → A → Bool) (xs : List A)
      → head? (order_by le (select_where p xs)) ≡ none
      → exists_where p xs ≡ false
  unfolding select_where order_by exists_where
  query_empty p le [] h = refl
  query_empty p le (x ∷ xs) h = elim (Bool-cases (p x)) [
    | inl e ↦ absurd (length_pos-insert_by le x (order_by le (select_where p xs)) (rw e at h))
    | inr e ↦ rw e (query_empty p le xs (rw e at h))
  ]

  pub Elem-select_where :
      (p : A → Bool) (x : A) (xs : List A) → Elem x xs → p x ≡ true → Elem x (select_where p xs)
  unfolding select_where
  Elem-select_where p x [] m h = elim m [ ]
  Elem-select_where p x (y ∷ ys) (inl e) h =
      let hit : p y ≡ true = subst (λ z. p z ≡ true) e h in rw hit (inl e)
  Elem-select_where p x (y ∷ ys) (inr m) h = elim (Bool-cases (p y)) [
    | inl hit ↦ rw hit (inr (Elem-select_where p x ys m h))
    | inr miss ↦ rw miss (Elem-select_where p x ys m h)
  ]

  pub Distinct-update_where {κ} :
      {K : Type κ} (key : A → K) (p : A → Bool) (f : A → A) (xs : List A)
      → ((x : A) → key (f x) ≡ key x)
      → Distinct key xs
      → Distinct key (update_where p f xs)
  unfolding update_where
  Distinct-update_where key p f [] k d = tt
  Distinct-update_where key p f (x ∷ xs) k d = (
    key_apart (if p x then f x else x) (same_key (p x))
        (All-update_where (λ y. key y ≢ key x) p f xs (λ y _ h. rw (k y) h) d.0),
    Distinct-update_where key p f xs k d.1,
  )
    where
      same_key : (b : Bool) → key (if b then f x else x) ≡ key x
      same_key true = k x
      same_key false = refl

      key_apart :
          (y : A)
          → key y ≡ key x
          → All (λ z. key z ≢ key x) (update_where p f xs)
          → All (λ z. key z ≢ key y) (update_where p f xs)
      key_apart y e h = rw e h

  pub Distinct-select_where {κ} :
      {K : Type κ} (key : A → K) (p : A → Bool) (xs : List A)
      → Distinct key xs
      → Distinct key (select_where p xs)
  unfolding select_where
  Distinct-select_where key p [] d = tt
  Distinct-select_where key p (x ∷ xs) d = elim (Bool-cases (p x)) [
    | inl hit ↦ rw hit (All-kept p xs d.0, Distinct-select_where key p xs d.1)
    | inr miss ↦ rw miss (Distinct-select_where key p xs d.1)
  ]
    where
      All-kept :
          (p : A → Bool) (ys : List A)
          → All (λ y. key y ≢ key x) ys
          → All (λ y. key y ≢ key x) (select_where p ys)
      All-kept p ys h =
          All-impl _ _ (λ y k. k.0) (select_where p ys)
            (All-select_where_both (λ y. key y ≢ key x) p ys h)
