-- ===== src/Images/Worst.antt =====
-- The aggregated state of some checks is the worst of their states.
use gitops_dashboard.Prelude.{
  ◌≤◌, ◌≡◌, refl, sym, ◌∙◌, List, [], ◌∷◌, ◌⊎◌, inl, inr, ltb, arith, All, All-of_Elem, Elem,
  Bool-cases,
}
use gitops_dashboard.Images.Types.{ImageVersionState, ImageVersionCheck}
use gitops_dashboard.Images.Compare.{
  image_version_priority, worst_from, aggregate_image_version_state,
}

worst_from-le :
    (worst : ImageVersionState) (checks : List ImageVersionCheck)
    → image_version_priority (worst_from worst checks) ≤ image_version_priority worst
unfolding worst_from
worst_from-le worst [] = omega arith
worst_from-le worst (check ∷ checks) =
    let replaced = worst_from-le (check.state) checks in
    let kept = worst_from-le worst checks in
    elim (Bool-cases (ltb (image_version_priority (check.state)) (image_version_priority worst))) [
      | inl e ↦ rw e (ground arith)
      | inr e ↦ rw e kept
    ]

worst_from-le-Elem :
    (worst : ImageVersionState) (checks : List ImageVersionCheck) (check : ImageVersionCheck)
    → Elem check checks
    → image_version_priority (worst_from worst checks) ≤ image_version_priority (check.state)
unfolding worst_from
worst_from-le-Elem worst [] check m = elim m [ ]
worst_from-le-Elem worst (first ∷ checks) check (inl here) =
    let replaced = worst_from-le (first.state) checks in
    let kept = worst_from-le worst checks in
    elim (Bool-cases (ltb (image_version_priority (first.state)) (image_version_priority worst))) [
      | inl e ↦ rw (e, here) replaced
      | inr e ↦ rw (e, here) (ground arith)
    ]
worst_from-le-Elem worst (first ∷ checks) check (inr later) =
    elim (Bool-cases (ltb (image_version_priority (first.state)) (image_version_priority worst))) [
      | inl e ↦ rw e (worst_from-le-Elem (first.state) checks check later)
      | inr e ↦ rw e (worst_from-le-Elem worst checks check later)
    ]

-- A state that is the start or the state of a check.
abbrev Attained : ImageVersionState → ImageVersionState → List ImageVersionCheck → Type 0
Attained state start checks =
    (state ≡ start) ⊎ ((check : ImageVersionCheck) × Elem check checks × (state ≡ check.state))

worst_from-Attained :
    (worst : ImageVersionState) (checks : List ImageVersionCheck)
    → Attained (worst_from worst checks) worst checks
unfolding worst_from
worst_from-Attained worst [] = inl refl
worst_from-Attained worst (check ∷ checks) =
    elim (Bool-cases (ltb (image_version_priority (check.state)) (image_version_priority worst))) [
      | inl e ↦ rw e (replaced (worst_from-Attained (check.state) checks))
      | inr e ↦ rw e (kept (worst_from-Attained worst checks))
    ]
  where
    replaced :
        {state : ImageVersionState}
        → Attained state (check.state) checks
        → Attained state worst (check ∷ checks)
    replaced (inl e) = inr (check, inl refl, e)
    replaced (inr (found, m, e)) = inr (found, inr m, e)

    kept :
        {state : ImageVersionState}
        → Attained state worst checks
        → Attained state worst (check ∷ checks)
    kept (inl e) = inl e
    kept (inr (found, m, e)) = inr (found, inr m, e)

-- The priority tells the states apart.
pub best_is_matching :
    (state : ImageVersionState)
    → image_version_priority ImageVersionState.matching ≤ image_version_priority state
    → state ≡ ImageVersionState.matching
unfolding image_version_priority
best_is_matching ImageVersionState.matching h = refl
best_is_matching ImageVersionState.mismatched h = absurd (omega arith)
best_is_matching ImageVersionState.mutable h = absurd (omega arith)
best_is_matching ImageVersionState.unknown h = absurd (omega arith)

-- No check is worse than the aggregated state.
pub aggregate-le :
    (checks : List ImageVersionCheck) (check : ImageVersionCheck)
    → Elem check checks
    → image_version_priority (aggregate_image_version_state checks)
      ≤ image_version_priority (check.state)
unfolding aggregate_image_version_state
aggregate-le [] check m = elim m [ ]
aggregate-le (first ∷ checks) check m =
    worst_from-le-Elem ImageVersionState.matching (first ∷ checks) check m

-- The aggregated state of one check or more is the state of one of them, and no check is worse.
pub aggregate_image_version_state-worst :
    (first : ImageVersionCheck) (rest : List ImageVersionCheck)
    → ((check : ImageVersionCheck) × Elem check (first ∷ rest)
        × (aggregate_image_version_state (first ∷ rest) ≡ check.state))
      × All
          (λ check.
            image_version_priority (aggregate_image_version_state (first ∷ rest))
            ≤ image_version_priority (check.state))
          (first ∷ rest)
aggregate_image_version_state-worst first rest = (
  unfold aggregate_image_version_state in
      attained (worst_from-Attained ImageVersionState.matching (first ∷ rest)),
  All-of_Elem _ (first ∷ rest) (λ check m. aggregate-le (first ∷ rest) check m),
)
  where
    attained :
        Attained
          (worst_from ImageVersionState.matching (first ∷ rest))
          ImageVersionState.matching
          (first ∷ rest)
        → ((check : ImageVersionCheck) × Elem check (first ∷ rest)
            × (worst_from ImageVersionState.matching (first ∷ rest) ≡ check.state))
    attained (inl e) = (
      first,
      inl refl,
      e
          ∙ sym (
              best_is_matching (first.state) (
                rw e at
                  (worst_from-le-Elem ImageVersionState.matching (first ∷ rest) first (inl refl)))),
    )
    attained (inr found) = found
