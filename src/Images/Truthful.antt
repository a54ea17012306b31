-- ===== src/Images/Truthful.antt =====
-- The checks of a comparison tell what its observed images show, one check for each reference first.
use gitops_dashboard.Prelude.{
  ◌≡◌, refl, ◌∙◌, ap, Bool, true, false, List, [], ◌∷◌, ◌++◌, map, Option, none, some, ◌⊎◌, inl,
  inr, All, All-append, Elem, Bool-cases, Option-cases,
}
use gitops_dashboard.Images.Types.{
  ImageVersionState, ImageReference, ObservedImage, ImageVersionCheck,
}
use gitops_dashboard.Images.Mutable.{is_mutable}
use gitops_dashboard.Images.Match.{image_references_match}
use gitops_dashboard.Images.Compare.{
  Marked, after_mark, take_unused, filled_by, pass_check, exact_pass, repository_pass, is_filled,
  extra_checks, fill_image_version_check, initial_image_version_check, initial_checks, unused,
  compare_images, desired_for_observed_image, is_exact, shares_repository, no_images, compared,
}

-- A check says what the comparison with its image gives, and the image is one of `items`.
abbrev pub IsTruthful : List ObservedImage → ImageVersionCheck → Type 0
IsTruthful items check =
    ((is_mutable (check.desired) ≡ true) × (check.state ≡ ImageVersionState.mutable))
    ⊎ ((check.observed ≡ none) × (check.state ≡ ImageVersionState.unknown))
    ⊎ ((is_mutable (check.desired) ≡ false)
        × (item : ObservedImage) × Elem item items
        × (check.observed ≡ some item)
        × (check.state ≡ (compared (image_references_match (check.desired) item)).0))

initial-IsTruthful :
    (items : List ObservedImage) (desired : ImageReference) (b : Bool)
    → IsTruthful items (initial_image_version_check desired b)
unfolding initial_image_version_check
initial-IsTruthful items desired b = elim (Bool-cases (is_mutable desired)) [
  | inl e ↦ rw e (inl (e, refl))
  | inr e ↦ rw e (inr (inl (refl, refl)))
]

fill-IsTruthful :
    (items : List ObservedImage) (check : ImageVersionCheck) (item : ObservedImage)
    → Elem item items
    → IsTruthful items (fill_image_version_check check item)
unfolding fill_image_version_check
fill-IsTruthful items check item m = elim (Bool-cases (is_mutable (check.desired))) [
  | inl e ↦ rw e (inl (e, refl))
  | inr e ↦ rw e (inr (inr (e, item, m, refl, refl)))
]

fill-desired :
    (check : ImageVersionCheck) (item : ObservedImage)
    → (fill_image_version_check check item).desired ≡ check.desired
unfolding fill_image_version_check
fill-desired check item = elim (Bool-cases (is_mutable (check.desired))) [
  | inl e ↦ rw e refl
  | inr e ↦ rw e refl
]

initial-desired :
    (desired : ImageReference) (b : Bool)
    → (initial_image_version_check desired b).desired ≡ desired
unfolding initial_image_version_check
initial-desired desired b = elim (Bool-cases (is_mutable desired)) [
  | inl e ↦ rw e refl
  | inr e ↦ rw e refl
]

abbrev Among : List ObservedImage → List Marked → Type 0
Among items marked = All (λ mark. Elem (mark.0) items) marked

-- What a search finds is one of the images, and so is what it leaves.
abbrev FoundAmong : List ObservedImage → Option (ObservedImage × List Marked) → Type 0
FoundAmong items none = Unit
FoundAmong items (some (found, after)) = Elem found items × Among items after

after_mark-FoundAmong :
    (items : List ObservedImage) (mark : Marked) (o : Option (ObservedImage × List Marked))
    → Elem (mark.0) items
    → FoundAmong items o
    → FoundAmong items (after_mark mark o)
after_mark-FoundAmong items mark none m h = tt
after_mark-FoundAmong items mark (some (found, after)) m h = (h.0, (m, h.1))

take_unused-FoundAmong :
    (items : List ObservedImage) (accepts : ObservedImage → Bool) (marked : List Marked)
    → Among items marked
    → FoundAmong items (take_unused accepts marked)
unfolding take_unused
take_unused-FoundAmong items accepts [] h = tt
take_unused-FoundAmong items accepts ((item, true) ∷ rest) h =
    after_mark-FoundAmong items (item, true) (take_unused accepts rest) h.0
      (take_unused-FoundAmong items accepts rest h.1)
take_unused-FoundAmong items accepts ((item, false) ∷ rest) h = elim (Bool-cases (accepts item)) [
  | inl hit ↦ rw hit (h.0, (h.0, h.1))
  | inr miss ↦ rw miss (
      after_mark-FoundAmong items (item, false) (take_unused accepts rest) h.0
        (take_unused-FoundAmong items accepts rest h.1))
]

-- A pass over one check keeps it truthful and its reference the same.
abbrev IsPassed : List ObservedImage → ImageReference → ImageVersionCheck × List Marked → Type 0
IsPassed items desired (check, marked) =
    IsTruthful items check × (check.desired ≡ desired) × Among items marked

filled_by-IsPassed :
    (items : List ObservedImage) (check : ImageVersionCheck) (marked : List Marked)
    → (o : Option (ObservedImage × List Marked)) → IsTruthful items check
    → Among items marked
    → FoundAmong items o
    → IsPassed items (check.desired) (filled_by check marked o)
unfolding filled_by
filled_by-IsPassed items check marked none t h f = (t, refl, h)
filled_by-IsPassed items check marked (some (found, after)) t h f =
    (fill-IsTruthful items check found f.0, fill-desired check found, f.1)

pass_check-IsPassed :
    (items : List ObservedImage) (test : ImageReference → ObservedImage → Bool)
    → (check : ImageVersionCheck) (marked : List Marked) → IsTruthful items check
    → Among items marked
    → IsPassed items (check.desired) (pass_check test check marked)
unfolding pass_check
pass_check-IsPassed items test check marked t h =
    filled_by-IsPassed items check marked (take_unused (test (check.desired)) marked) t h
      (take_unused-FoundAmong items (test (check.desired)) marked h)

-- The checks that a pass over all of them leaves.
abbrev ArePassed :
    List ObservedImage → List ImageVersionCheck → List ImageVersionCheck × List Marked → Type 0
ArePassed items before (checks, marked) =
    All (IsTruthful items) checks
    × (map (λ check. check.desired) checks ≡ map (λ check. check.desired) before)
    × Among items marked

ArePassed-cons :
    (items : List ObservedImage) (check : ImageVersionCheck) (checks : List ImageVersionCheck)
    → (first : ImageVersionCheck × List Marked) (rest : List ImageVersionCheck × List Marked)
    → IsPassed items (check.desired) first
    → ArePassed items checks rest
    → ArePassed items (check ∷ checks) (first.0 ∷ rest.0, rest.1)
ArePassed-cons items check checks first rest f r = ((f.0, r.0), rw (f.1, r.1) refl, r.2)

exact_pass-ArePassed :
    (items : List ObservedImage) (checks : List ImageVersionCheck) (marked : List Marked)
    → All (IsTruthful items) checks
    → Among items marked
    → ArePassed items checks (exact_pass checks marked)
unfolding exact_pass
exact_pass-ArePassed items [] marked t h = (tt, refl, h)
exact_pass-ArePassed items (check ∷ checks) marked t h =
    let first = pass_check-IsPassed items is_exact check marked t.0 h in
    ArePassed-cons items check checks (pass_check is_exact check marked)
      (exact_pass checks (pass_check is_exact check marked).1) first
      (exact_pass-ArePassed items checks (pass_check is_exact check marked).1 t.1 first.2)

repository_pass-ArePassed :
    (items : List ObservedImage) (checks : List ImageVersionCheck) (marked : List Marked)
    → All (IsTruthful items) checks
    → Among items marked
    → ArePassed items checks (repository_pass checks marked)
unfolding repository_pass
repository_pass-ArePassed items [] marked t h = (tt, refl, h)
repository_pass-ArePassed items (check ∷ checks) marked t h = elim (Bool-cases (is_filled check)) [
  | inl full ↦ rw full (
      ArePassed-cons items check checks (check, marked) (repository_pass checks marked)
        (t.0, refl, h) (repository_pass-ArePassed items checks marked t.1 h))
  | inr blank ↦ rw blank (
      let first = pass_check-IsPassed items shares_repository check marked t.0 h in
      ArePassed-cons items check checks (pass_check shares_repository check marked)
        (repository_pass checks (pass_check shares_repository check marked).1) first
        (repository_pass-ArePassed items checks (pass_check shares_repository check marked).1 t.1
          first.2))
]

extra_checks-IsTruthful :
    (items : List ObservedImage) (desired : List ImageReference) (marked : List Marked)
    → Among items marked
    → All (IsTruthful items) (extra_checks desired marked)
unfolding extra_checks
extra_checks-IsTruthful items desired [] h = tt
extra_checks-IsTruthful items desired ((item, true) ∷ rest) h =
    extra_checks-IsTruthful items desired rest h.1
extra_checks-IsTruthful items desired ((item, false) ∷ rest) h =
    elim (Option-cases (desired_for_observed_image desired item)) [
      | inl e ↦ rw e (extra_checks-IsTruthful items desired rest h.1)
      | inr (ref, e) ↦ rw e (
        fill-IsTruthful items (initial_image_version_check ref false) item h.0,
        extra_checks-IsTruthful items desired rest h.1,
      )
    ]

desired_map_append :
    (before after : List ImageVersionCheck)
    → map (λ check. check.desired) (before ++ after)
      ≡ map (λ check. check.desired) before ++ map (λ check. check.desired) after
desired_map_append [] after = refl
desired_map_append (check ∷ before) after = rw (desired_map_append before after) refl

unused-Among :
    (items all : List ObservedImage)
    → ((item : ObservedImage) → Elem item items → Elem item all)
    → Among all (unused items)
unfolding unused
unused-Among [] all f = tt
unused-Among (item ∷ items) all f =
    (f item (inl refl), unused-Among items all (λ other m. f other (inr m)))

initial_checks-IsTruthful :
    (items : List ObservedImage) (b : Bool) (desired : List ImageReference)
    → All (IsTruthful items) (initial_checks b desired)
unfolding initial_checks
initial_checks-IsTruthful items b [] = tt
initial_checks-IsTruthful items b (ref ∷ refs) =
    (initial-IsTruthful items ref b, initial_checks-IsTruthful items b refs)

initial_checks-desired :
    (b : Bool) (desired : List ImageReference)
    → map (λ check. check.desired) (initial_checks b desired) ≡ desired
unfolding initial_checks
initial_checks-desired b [] = refl
initial_checks-desired b (ref ∷ refs) =
    rw (initial-desired ref b, initial_checks-desired b refs) refl

-- All checks are truthful, and the first ones are those of the desired references, in their order.
pub compare_images-IsTruthful :
    (desired : List ImageReference) (items : List ObservedImage)
    → All (IsTruthful items) (compare_images desired items)
      × ((extra : List ImageReference) × (map
              (λ check. check.desired)
              (compare_images desired items)
            ≡ desired ++ extra))
unfolding compare_images
compare_images-IsTruthful desired items =
    let initial = initial_checks (no_images items) desired in
    let exact = exact_pass initial (unused items) in
    let last = repository_pass exact.0 exact.1 in
    let passed =
      exact_pass-ArePassed items initial (unused items)
        (initial_checks-IsTruthful items (no_images items) desired)
        (unused-Among items items (λ item m. m)) in
    let again = repository_pass-ArePassed items exact.0 exact.1 passed.0 passed.2 in
    let extra = extra_checks desired last.1 in
    (
      All-append (IsTruthful items) last.0 extra again.0
          (extra_checks-IsTruthful items desired last.1 again.2),
      (
        map (λ check. check.desired) extra,
        desired_map_append last.0 extra
            ∙ ap (λ refs. refs ++ map (λ check. check.desired) extra)
                (again.1 ∙ passed.1 ∙ initial_checks-desired (no_images items) desired),
      ),
    )
