-- ===== src/Prelude/Keys.antt =====
-- Counting the rows of a table by their keys.
use Prim.Native.Nat.{ℕ, zero, suc, ◌+◌, ◌≤◌, ◌<◌}
use mathlib.Core.Path.{◌≡◌, refl, sym, subst, ap, ◌∙◌}
use mathlib.Core.Option.{none, some}
use mathlib.Core.Bool.{Bool, true, false, ◌||◌, not}
use mathlib.Core.List.{List, [], ◌∷◌, map}
use mathlib.Core.Logic.{inl, inr, ◌≢◌}
use native.Mathlib.Omega.{arith}
use gitops_dashboard.Prelude.Tests.{Bool-cases, Option-cases, ◌==◌, ==_iff, ==_refl}
use gitops_dashboard.Prelude.Lists.{
  Distinct-same, All, Elem, Distinct, All-impl, All-of_Elem, length, take, id_elem, All-take,
}
use gitops_dashboard.Prelude.Rows.{
  find_where, find_where-some, select_where, count_where, count_where_none, update_where, insert_by,
  order_by, All-insert_by, All-order_by, count_pos_of_exists, exists_of_Elem,
}

module _ {ℓ} {A : Type ℓ} where
  pub length-select_where :
      (p : A → Bool) (xs : List A) → length (select_where p xs) ≡ count_where p xs
  unfolding select_where count_where
  length-select_where p [] = refl
  length-select_where p (x ∷ xs) = ground (arith, length-select_where p xs)

  -- The rows that a test deletes and those that it leaves are all rows.
  pub length-deleted :
      (p : A → Bool) (xs : List A)
      → count_where p xs + length (select_where (λ x. not (p x)) xs) ≡ length xs
  unfolding select_where count_where
  length-deleted p [] = refl
  length-deleted p (x ∷ xs) = ground (arith, length-deleted p xs)

  -- A selection that keeps the counted rows leaves the count alone.
  pub count_where-select_where :
      (q p : A → Bool) (xs : List A)
      → ((x : A) → q x ≡ true → p x ≡ true)
      → count_where q (select_where p xs) ≡ count_where q xs
  unfolding select_where count_where
  count_where-select_where q p [] k = refl
  count_where-select_where q p (x ∷ xs) k = elim (Bool-cases (p x)) [
    | inl hit ↦ rw (hit, count_where-select_where q p xs k) refl
    | inr miss ↦ ground (arith, count_where-select_where q p xs k, k x, miss)
  ]

  pub length-insert_by :
      (le : A → A → Bool) (x : A) (ys : List A) → length (insert_by le x ys) ≡ suc (length ys)
  unfolding insert_by
  length-insert_by le x [] = refl
  length-insert_by le x (y ∷ ys) = ground (arith, length-insert_by le x ys)

  pub length-order_by : (le : A → A → Bool) (xs : List A) → length (order_by le xs) ≡ length xs
  unfolding order_by
  length-order_by le [] = refl
  length-order_by le (x ∷ xs) =
      omega (arith, length-insert_by le x (order_by le xs), length-order_by le xs)

  pub Distinct-insert_by {κ} :
      {K : Type κ} (key : A → K) (le : A → A → Bool) (x : A) (ys : List A)
      → All (λ y. key y ≢ key x) ys
      → Distinct key ys
      → Distinct key (insert_by le x ys)
  unfolding insert_by
  Distinct-insert_by key le x [] h d = (tt, tt)
  Distinct-insert_by key le x (y ∷ ys) h d = elim (Bool-cases (le x y)) [
    | inl e ↦ rw e (h, d)
    | inr e ↦ rw e (
      All-insert_by (λ z. key z ≢ key y) le x ys (λ q. h.0 (sym q)) d.0,
      Distinct-insert_by key le x ys h.1 d.1,
    )
  ]

  pub Distinct-take {κ} :
      {K : Type κ} (key : A → K) (n : ℕ) (xs : List A) → Distinct key xs → Distinct key (take n xs)
  Distinct-take key zero xs d = tt
  Distinct-take key (suc n) [] d = tt
  Distinct-take key (suc n) (x ∷ xs) d =
      (All-take (λ y. key y ≢ key x) n xs d.0, Distinct-take key n xs d.1)

  pub length-take_full : (n : ℕ) (xs : List A) → length (take n xs) < n → take n xs ≡ xs
  length-take_full zero xs h = absurd (omega arith)
  length-take_full (suc n) [] h = refl
  length-take_full (suc n) (x ∷ xs) h = rw (length-take_full n xs (omega arith)) refl

  -- Two tests that no row passes together are counted one after the other.
  count_where-disjoint :
      (p q : A → Bool) (xs : List A)
      → ((x : A) → p x ≡ true → q x ≡ false)
      → count_where (λ x. p x || q x) xs ≡ count_where p xs + count_where q xs
  unfolding count_where
  count_where-disjoint p q [] k = refl
  count_where-disjoint p q (x ∷ xs) k = ground (arith, count_where-disjoint p q xs k, k x)

  -- As many rows as listed keys that are distinct and stand in the table.
  pub count_ids-ge :
      (key : A → ℕ) (ys xs : List A)
      → Distinct key ys
      → All (λ y. Elem y xs) ys
      → length ys ≤ count_where (λ x. id_elem (key x) (map key ys)) xs
  unfolding id_elem
  count_ids-ge key [] xs d m = omega arith
  count_ids-ge key (y ∷ ys) xs d m =
      let one =
        count_pos_of_exists (λ x. key x == key y) xs
          (exists_of_Elem (λ x. key x == key y) y xs m.0 (==_refl (key y))) in
      let both =
        count_where-disjoint (λ x. key x == key y) (λ x. id_elem (key x) (map key ys)) xs
          (λ x e. apart x ((==_iff (key x) (key y)).0 e)) in
      omega (arith, one, both, count_ids-ge key ys xs d.1 m.1)
    where
      fresh : (zs : List A) → All (λ z. key z ≢ key y) zs → id_elem (key y) (map key zs) ≡ false
      fresh [] h = refl
      fresh (z ∷ zs) h = ground (arith, fresh zs h.1, ==_iff (key y) (key z), h.0)

      apart : (x : A) → key x ≡ key y → id_elem (key x) (map key ys) ≡ false
      apart x e = rw e (fresh ys d.0)

  pub Distinct-order_by {κ} :
      {K : Type κ} (key : A → K) (le : A → A → Bool) (xs : List A)
      → Distinct key xs
      → Distinct key (order_by le xs)
  unfolding order_by
  Distinct-order_by key le [] d = tt
  Distinct-order_by key le (x ∷ xs) d =
      Distinct-insert_by key le x (order_by le xs) (All-order_by (λ y. key y ≢ key x) le xs d.0)
        (Distinct-order_by key le xs d.1)

  -- A key is that of one row at most.
  pub count_key-le :
      (key : A → ℕ) (i : ℕ) (xs : List A) → Distinct key xs → count_where (λ x. key x == i) xs ≤ 1
  unfolding count_where
  count_key-le key i [] d = omega arith
  count_key-le key i (x ∷ xs) d = elim (Bool-cases (key x == i)) [
    | inl e ↦ rw (e, others xs d.0 ((==_iff (key x) i).0 e)) (omega arith)
    | inr e ↦ rw e (omega (arith, count_key-le key i xs d.1))
  ]
    where
      others :
          (ys : List A)
          → All (λ y. key y ≢ key x) ys
          → key x ≡ i
          → count_where (λ y. key y == i) ys ≡ 0
      others ys h e = count_where_none _ ys (All-impl _ _ (λ y k. ground (arith, k, e)) ys h)

  count_where-or_le :
      (p q : A → Bool) (xs : List A)
      → count_where (λ x. p x || q x) xs ≤ count_where p xs + count_where q xs
  unfolding count_where
  count_where-or_le p q [] = omega arith
  count_where-or_le p q (x ∷ xs) = ground (arith, count_where-or_le p q xs)

  -- No more rows than listed keys.
  pub count_ids-le :
      (key : A → ℕ) (ids : List ℕ) (xs : List A)
      → Distinct key xs
      → count_where (λ x. id_elem (key x) ids) xs ≤ length ids
  unfolding id_elem
  count_ids-le key [] xs d =
      rw (count_where_none (λ x. false) xs (All-of_Elem _ xs (λ x m. refl))) (omega arith)
  count_ids-le key (i ∷ ids) xs d = omega (
    arith,
    count_where-or_le (λ x. key x == i) (λ x. id_elem (key x) ids) xs,
    count_key-le key i xs d,
    count_ids-le key ids xs d,
  )

  -- A row that an update does not touch is left.
  pub Elem-update_where :
      (p : A → Bool) (f : A → A) (x : A) (xs : List A)
      → Elem x xs
      → p x ≡ false
      → Elem x (update_where p f xs)
  unfolding update_where
  Elem-update_where p f x [] m h = elim m [ ]
  Elem-update_where p f x (y ∷ ys) (inl e) h = inl (rw (subst (λ z. p z ≡ false) e h) e)
  Elem-update_where p f x (y ∷ ys) (inr m) h = inr (Elem-update_where p f x ys m h)

  -- Counting after an update: the rows that it touches, and the others that pass the test.
  pub count_where-update_le :
      (q p : A → Bool) (f : A → A) (xs : List A)
      → ((x : A) → Elem x xs → p x ≡ false → q x ≡ false)
      → count_where q (update_where p f xs) ≤ count_where p xs
  unfolding count_where update_where
  count_where-update_le q p f [] k = omega arith
  count_where-update_le q p f (x ∷ xs) k = elim (Bool-cases (p x)) [
    | inl e ↦ rw e (ground (arith, count_where-update_le q p f xs (λ y m. k y (inr m))))
    | inr e ↦
        rw (e, k x (inl refl) e)
          (omega (arith, count_where-update_le q p f xs (λ y m. k y (inr m))))
  ]

  -- An update of rows of the table.
  pub All-update_where-Elem {κ} :
      (P : A → Type κ) (p : A → Bool) (f : A → A) (xs : List A)
      → ((x : A) → Elem x xs → p x ≡ true → P x → P (f x))
      → All P xs
      → All P (update_where p f xs)
  unfolding update_where
  All-update_where-Elem P p f [] k h = tt
  All-update_where-Elem P p f (x ∷ xs) k h = elim (Bool-cases (p x)) [
    | inl e ↦ rw e (k x (inl refl) e h.0, All-update_where-Elem P p f xs (λ y m. k y (inr m)) h.1)
    | inr e ↦ rw e (h.0, All-update_where-Elem P p f xs (λ y m. k y (inr m)) h.1)
  ]

  -- A row that an update touches is updated.
  pub Elem-updated :
      (p : A → Bool) (f : A → A) (x : A) (xs : List A)
      → Elem x xs
      → p x ≡ true
      → Elem (f x) (update_where p f xs)
  unfolding update_where
  Elem-updated p f x [] m h = elim m [ ]
  Elem-updated p f x (y ∷ ys) (inl e) h =
      let hit : p y ≡ true = subst (λ z. p z ≡ true) e h in inl (rw hit (rw e refl))
  Elem-updated p f x (y ∷ ys) (inr m) h = inr (Elem-updated p f x ys m h)

  -- An update turns one property of the rows into another.
  pub All-update_where_to {κ μ} :
      (P : A → Type κ) (Q : A → Type μ) (p : A → Bool) (f : A → A) (xs : List A)
      → ((x : A) → Elem x xs → p x ≡ true → P x → Q (f x))
      → ((x : A) → Elem x xs → p x ≡ false → P x → Q x)
      → All P xs
      → All Q (update_where p f xs)
  unfolding update_where
  All-update_where_to P Q p f [] hit miss h = tt
  All-update_where_to P Q p f (x ∷ xs) hit miss h =
      let rest =
        All-update_where_to P Q p f xs (λ y m. hit y (inr m)) (λ y m. miss y (inr m)) h.1 in
      elim (Bool-cases (p x)) [
        | inl e ↦ rw e (hit x (inl refl) e h.0, rest)
        | inr e ↦ rw e (miss x (inl refl) e h.0, rest)
      ]

  pub Elem-select_where :
      (p : A → Bool) (x : A) (xs : List A) → Elem x xs → p x ≡ true → Elem x (select_where p xs)
  unfolding select_where
  Elem-select_where p x [] m h = elim m [ ]
  Elem-select_where p x (y ∷ ys) (inl e) h = rw (subst (λ z. p z ≡ true) e h) (inl e)
  Elem-select_where p x (y ∷ ys) (inr m) h = elim (Bool-cases (p y)) [
    | inl e ↦ rw e (inr (Elem-select_where p x ys m h))
    | inr e ↦ rw e (Elem-select_where p x ys m h)
  ]

  -- A row that a query for one row misses does not pass its test.
  pub find_where-misses :
      (p : A → Bool) (x : A) (xs : List A) → find_where p xs ≡ none → Elem x xs → p x ≡ false
  unfolding find_where
  find_where-misses p x [] h m = elim m [ ]
  find_where-misses p x (y ∷ ys) h m = elim (Bool-cases (p y)) [
    | inl e ↦ cc (rw e at h)
    | inr e ↦ elim m [
      | inl same ↦ rw same e
      | inr later ↦ find_where-misses p x ys (rw e at h) later
    ]
  ]

  -- A query by a key finds the row that has it.
  pub find_where-key :
      (key : A → ℕ) (x : A) (xs : List A)
      → Distinct key xs
      → Elem x xs
      → find_where (λ y. key y == key x) xs ≡ some x
  find_where-key key x xs d m = elim (Option-cases (find_where (λ y. key y == key x) xs)) [
    | inl e ↦ cc (find_where-misses _ x xs e m, ==_refl (key x))
    | inr (y, e) ↦
        let (my, same) = find_where-some _ y xs e in
        let one = Distinct-same key y x xs d my m ((==_iff (key y) (key x)).0 same) in
        e ∙ ap some one
  ]
