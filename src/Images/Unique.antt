-- ===== src/Images/Unique.antt =====
-- `uniqueImageReferences` keeps one reference of each key.
use gitops_dashboard.Prelude.{
  ◌≡◌, ◌≢◌, refl, sym, subst, true, false, List, [], ◌∷◌, arith, Elem, All, All-impl, All-of_Elem,
  Distinct, Bool-cases, inl, inr, ◌⊎◌, true_or,
}
use gitops_dashboard.Prelude.Text.{Text, text_eq, text_eq→eq, text_eq_refl, text_elem}
use gitops_dashboard.Images.Types.{ImageReference}
use gitops_dashboard.Images.Match.{reference_key, unique_references_from, unique_image_references}

-- The key of a reference whose fields are all empty.
abbrev pub blank_key : Text
blank_key = 0 ∷ 0 ∷ 0 ∷ 0 ∷ []

-- A kept reference has a key that is not blank and was not seen.
abbrev IsNew : List Text → ImageReference → Type 0
IsNew seen ref =
    (text_eq (reference_key ref) blank_key ≡ false) × (text_elem (reference_key ref) seen ≡ false)

unique_references_from-IsNew :
    (seen : List Text) (refs : List ImageReference)
    → All (IsNew seen) (unique_references_from seen refs)
unfolding unique_references_from text_elem
unique_references_from-IsNew seen [] = tt
unique_references_from-IsNew seen (ref ∷ refs) =
    elim (Bool-cases (text_eq (reference_key ref) blank_key)) [
      | inl blank ↦ rw blank (unique_references_from-IsNew seen refs)
      | inr full ↦ elim (Bool-cases (text_elem (reference_key ref) seen)) [
        | inl old ↦ rw (full, old) (unique_references_from-IsNew seen refs)
        | inr new ↦
            rw (full, new)
              (
                (full, new),
                All-impl (IsNew (reference_key ref ∷ seen)) (IsNew seen)
                    (λ r h. (h.0, ground (arith, h.1)))
                    (unique_references_from (reference_key ref ∷ seen) refs)
                    (unique_references_from-IsNew (reference_key ref ∷ seen) refs),
              )
      ]
    ]

apart :
    (seen : List Text) (ref r : ImageReference)
    → text_elem (reference_key r) (reference_key ref ∷ seen) ≡ false
    → reference_key r ≡ reference_key ref
    → ⊥
unfolding text_elem
apart seen ref r new same = cc (
  new,
  true_or (text_eq (reference_key r) (reference_key ref)) (text_elem (reference_key r) seen) (
      subst (λ k. text_eq k (reference_key ref) ≡ true) (sym same)
        (text_eq_refl (reference_key ref))),
)

unique_references_from-Distinct :
    (seen : List Text) (refs : List ImageReference)
    → Distinct reference_key (unique_references_from seen refs)
unfolding unique_references_from text_elem
unique_references_from-Distinct seen [] = tt
unique_references_from-Distinct seen (ref ∷ refs) =
    elim (Bool-cases (text_eq (reference_key ref) blank_key)) [
      | inl blank ↦ rw blank (unique_references_from-Distinct seen refs)
      | inr full ↦ elim (Bool-cases (text_elem (reference_key ref) seen)) [
        | inl old ↦ rw (full, old) (unique_references_from-Distinct seen refs)
        | inr new ↦
            rw (full, new)
              (
                All-impl (IsNew (reference_key ref ∷ seen))
                    (λ r. reference_key r ≢ reference_key ref)
                    (λ r h same. apart seen ref r h.1 same)
                    (unique_references_from (reference_key ref ∷ seen) refs)
                    (unique_references_from-IsNew (reference_key ref ∷ seen) refs),
                unique_references_from-Distinct (reference_key ref ∷ seen) refs,
              )
      ]
    ]

-- A reference of the key is kept, or the key was seen.
abbrev Kept : Text → List ImageReference → Type 0
Kept key kept = (r : ImageReference) × Elem r kept × (reference_key r ≡ key)

unique_references_from-Kept :
    (seen : List Text) (refs : List ImageReference) (ref : ImageReference)
    → Elem ref refs
    → text_eq (reference_key ref) blank_key ≡ false
    → text_elem (reference_key ref) seen ≡ false
    → Kept (reference_key ref) (unique_references_from seen refs)
unfolding unique_references_from text_elem
unique_references_from-Kept seen [] ref m full new = elim m [ ]
unique_references_from-Kept seen (first ∷ refs) ref (inl here) full new =
    rw (← here) (rw (full, new) (ref, inl refl, refl))
unique_references_from-Kept seen (first ∷ refs) ref (inr later) full new =
    elim (Bool-cases (text_eq (reference_key first) blank_key)) [
      | inl blank ↦ rw blank (unique_references_from-Kept seen refs ref later full new)
      | inr solid ↦ elim (Bool-cases (text_elem (reference_key first) seen)) [
        | inl old ↦ rw (solid, old) (unique_references_from-Kept seen refs ref later full new)
        | inr fresh ↦ elim (Bool-cases (text_eq (reference_key ref) (reference_key first))) [
          | inl same ↦
              rw (solid, fresh)
                (first, inl refl, sym (text_eq→eq (reference_key ref) (reference_key first) same))
          | inr other ↦
              let (r, m, key) =
                unique_references_from-Kept (reference_key first ∷ seen) refs ref later full
                  (ground (arith, other, new)) in
              rw (solid, fresh) (r, inr m, key)
        ]
      ]
    ]

unique_references_from-Elem :
    (seen : List Text) (refs : List ImageReference) (ref : ImageReference)
    → Elem ref (unique_references_from seen refs)
    → Elem ref refs
unfolding unique_references_from
unique_references_from-Elem seen [] ref m = m
unique_references_from-Elem seen (first ∷ refs) ref m =
    elim (Bool-cases (text_eq (reference_key first) blank_key)) [
      | inl blank ↦ inr (unique_references_from-Elem seen refs ref (rw blank at m))
      | inr solid ↦ elim (Bool-cases (text_elem (reference_key first) seen)) [
        | inl old ↦ inr (unique_references_from-Elem seen refs ref (rw (solid, old) at m))
        | inr fresh ↦
            first_or_later (unique_references_from-Elem (reference_key first ∷ seen) refs ref)
              (rw (solid, fresh) at m)
      ]
    ]
  where
    first_or_later :
        (Elem ref (unique_references_from (reference_key first ∷ seen) refs) → Elem ref refs)
        → (ref ≡ first) ⊎ Elem ref (unique_references_from (reference_key first ∷ seen) refs)
        → (ref ≡ first) ⊎ Elem ref refs
    first_or_later known (inl here) = inl here
    first_or_later known (inr later) = inr (known later)

-- The references that uniqueImageReferences keeps are given ones with keys of their own, and for a
-- given reference whose key is not blank one of its key is kept.
pub unique_image_references-keeps :
    (refs : List ImageReference) (ref : ImageReference)
    → Elem ref refs
    → text_eq (reference_key ref) blank_key ≡ false
    → Distinct reference_key (unique_image_references refs)
      × All (λ r. Elem r refs) (unique_image_references refs)
      × ((r : ImageReference) × Elem r (unique_image_references refs)
          × (reference_key r ≡ reference_key ref))
unfolding unique_image_references
unique_image_references-keeps refs ref m full = (
  unique_references_from-Distinct [] refs,
  All-of_Elem _ (unique_references_from [] refs)
      (λ r here. unique_references_from-Elem [] refs r here),
  unique_references_from-Kept [] refs ref m full (unfold text_elem in refl),
)
