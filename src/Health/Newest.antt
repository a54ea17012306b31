-- ===== src/Health/Newest.antt =====
-- The status that counts for a target is the newest, and of the newest the worst.
use gitops_dashboard.Prelude.{
  ◌≤◌, ◌<◌, ◌≡◌, ◌≢◌, refl, sym, ◌∙◌, subst, true, false, List, [], ◌∷◌, ltb, ◌==◌, arith, Elem,
  All, Distinct, Bool-cases, inl, inr, ◌⊎◌,
}
use gitops_dashboard.Prelude.Text.{Text, text_eq, text_eq→eq, text_eq_refl}
use gitops_dashboard.Health.Types.{StatusRow}
use gitops_dashboard.Health.Rollup.{health_priority}
use gitops_dashboard.Health.Latest.{replaces, note_status, latest_from}

-- A status is newer than another, or as new and no better.
abbrev pub Beats : StatusRow → StatusRow → Type 0
Beats r s =
    (s.checked_at < r.checked_at)
    ⊎ ((r.checked_at ≡ s.checked_at) × (health_priority r.health ≤ health_priority s.health))

Beats-trans : (a b c : StatusRow) → Beats a b → Beats b c → Beats a c
Beats-trans a b c (inl h) (inl k) = inl (omega (arith, h, k))
Beats-trans a b c (inl h) (inr k) = inl (let e = k.0 in omega (arith, h, e))
Beats-trans a b c (inr h) (inl k) = inl (let e = h.0 in omega (arith, e, k))
Beats-trans a b c (inr h) (inr k) = inr (
  let e = h.0 in let f = k.0 in omega (arith, e, f),
  let e = h.1 in let f = k.1 in omega (arith, e, f),
)

Beats-refl : (a : StatusRow) → Beats a a
Beats-refl a = inr (refl, omega arith)

-- A status of a target in a map that beats a given one.
abbrev pub Beaten : List StatusRow → StatusRow → Type 0
Beaten latest s = (r : StatusRow) × Elem r latest × (r.target ≡ s.target) × Beats r s

replaces-Beats : (s t : StatusRow) → replaces s t ≡ true → Beats s t
unfolding replaces
replaces-Beats s t h = elim (Bool-cases (ltb t.checked_at s.checked_at)) [
  | inl e ↦ inl (ground arith)
  | inr e ↦ inr (ground arith, ground arith)
]

stays-Beats : (s t : StatusRow) → replaces s t ≡ false → Beats t s
unfolding replaces
stays-Beats s t h = elim (Bool-cases (s.checked_at == t.checked_at)) [
  | inl e ↦ inr (ground arith, ground arith)
  | inr e ↦ inl (ground arith)
]

note_status-Beaten : (s : StatusRow) (latest : List StatusRow) → Beaten (note_status s latest) s
unfolding note_status
note_status-Beaten s [] = (s, inl refl, refl, Beats-refl s)
note_status-Beaten s (t ∷ rest) = elim (Bool-cases (text_eq t.target s.target)) [
  | inl e ↦ elim (Bool-cases (replaces s t)) [
    | inl f ↦ rw (e, f) (s, inl refl, refl, Beats-refl s)
    | inr f ↦ rw (e, f) (t, inl refl, text_eq→eq t.target s.target e, stays-Beats s t f)
  ]
  | inr e ↦ let (r, m, k, b) = note_status-Beaten s rest in rw e (r, inr m, k, b)
]

note_status-keeps :
    (s : StatusRow) (latest : List StatusRow) (t : StatusRow)
    → Elem t latest
    → Beaten (note_status s latest) t
unfolding note_status
note_status-keeps s [] t m = elim m [ ]
note_status-keeps s (u ∷ rest) t (inl here) = elim (Bool-cases (text_eq u.target s.target)) [
  | inl e ↦ elim (Bool-cases (replaces s u)) [
    | inl f ↦
        rw here
          (rw (e, f) (s, inl refl, sym (text_eq→eq u.target s.target e), replaces-Beats s u f))
    | inr f ↦ rw here (rw (e, f) (u, inl refl, refl, Beats-refl u))
  ]
  | inr e ↦ rw here (rw e (u, inl refl, refl, Beats-refl u))
]
note_status-keeps s (u ∷ rest) t (inr later) = elim (Bool-cases (text_eq u.target s.target)) [
  | inl e ↦ rw e (t, inr later, refl, Beats-refl t)
  | inr e ↦ let (r, m, k, b) = note_status-keeps s rest t later in rw e (r, inr m, k, b)
]

latest_from-keeps :
    (service_id : Text) (latest statuses : List StatusRow) (t : StatusRow)
    → Beaten latest t
    → Beaten (latest_from service_id latest statuses) t
unfolding latest_from
latest_from-keeps service_id latest [] t b = b
latest_from-keeps service_id latest (s ∷ statuses) t (r, m, k, b) =
    elim (Bool-cases (text_eq s.service_id service_id)) [
      | inl e ↦
          let (q, mq, kq, bq) = note_status-keeps s latest r m in
          rw e (
            latest_from-keeps service_id (note_status s latest) statuses t
              (q, mq, kq ∙ k, Beats-trans q r t bq b))
      | inr e ↦ rw e (latest_from-keeps service_id latest statuses t (r, m, k, b))
    ]

latest_from-Beaten :
    (service_id : Text) (latest statuses : List StatusRow) (s : StatusRow)
    → Elem s statuses
    → s.service_id ≡ service_id
    → Beaten (latest_from service_id latest statuses) s
unfolding latest_from
latest_from-Beaten service_id latest [] s m own = elim m [ ]
latest_from-Beaten service_id latest (first ∷ statuses) s (inl here) own =
    let named : text_eq first.service_id service_id ≡ true =
      subst (λ x. text_eq x.service_id service_id ≡ true) here
        (subst (λ i. text_eq s.service_id i ≡ true) own (text_eq_refl s.service_id)) in
    rw named (
      latest_from-keeps service_id (note_status first latest) statuses s (
        subst (λ x. Beaten (note_status first latest) x) (sym here)
          (note_status-Beaten first latest)))
latest_from-Beaten service_id latest (first ∷ statuses) s (inr later) own =
    elim (Bool-cases (text_eq first.service_id service_id)) [
      | inl e ↦ rw e (latest_from-Beaten service_id (note_status first latest) statuses s later own)
      | inr e ↦ rw e (latest_from-Beaten service_id latest statuses s later own)
    ]

-- What holds of a status and of a map holds of the map with the status.
All-note_status {κ} :
    (P : StatusRow → Type κ) (s : StatusRow) (latest : List StatusRow)
    → P s
    → All P latest
    → All P (note_status s latest)
unfolding note_status
All-note_status P s [] ps h = (ps, tt)
All-note_status P s (t ∷ rest) ps h = elim (Bool-cases (text_eq t.target s.target)) [
  | inl e ↦ elim (Bool-cases (replaces s t)) [
    | inl f ↦ rw (e, f) (ps, h.1)
    | inr f ↦ rw (e, f) (h.0, h.1)
  ]
  | inr e ↦ rw e (h.0, All-note_status P s rest ps h.1)
]

note_status-Distinct :
    (s : StatusRow) (latest : List StatusRow)
    → Distinct (λ r. r.target) latest
    → Distinct (λ r. r.target) (note_status s latest)
unfolding note_status
note_status-Distinct s [] d = (tt, tt)
note_status-Distinct s (t ∷ rest) d = elim (Bool-cases (text_eq t.target s.target)) [
  | inl e ↦ elim (Bool-cases (replaces s t)) [
    | inl f ↦
        rw (e, f)
          (subst (λ k. All (λ r. r.target ≢ k) rest) (text_eq→eq t.target s.target e) d.0, d.1)
    | inr f ↦ rw (e, f) (d.0, d.1)
  ]
  | inr e ↦ rw e (
    All-note_status (λ r. r.target ≢ t.target) s rest
        (λ same. cc (e, subst (λ k. text_eq k s.target ≡ true) same (text_eq_refl s.target))) d.0,
    note_status-Distinct s rest d.1,
  )
]

-- The targets of a map are distinct, and its statuses are some that were given.
abbrev IsLatest : Text → List StatusRow → List StatusRow → Type 0
IsLatest service_id given latest =
    Distinct (λ r. r.target) latest × All (λ r. Elem r given × (r.service_id ≡ service_id)) latest

latest_from-IsLatest :
    (service_id : Text) (given latest statuses : List StatusRow)
    → IsLatest service_id given latest
    → ((s : StatusRow) → Elem s statuses → Elem s given)
    → IsLatest service_id given (latest_from service_id latest statuses)
unfolding latest_from
latest_from-IsLatest service_id given latest [] h all = h
latest_from-IsLatest service_id given latest (s ∷ statuses) h all =
    elim (Bool-cases (text_eq s.service_id service_id)) [
      | inl e ↦ rw e (
          latest_from-IsLatest service_id given (note_status s latest) statuses
            (
              note_status-Distinct s latest h.0,
              All-note_status (λ r. Elem r given × (r.service_id ≡ service_id)) s latest
                  (all s (inl refl), text_eq→eq s.service_id service_id e) h.1,
            )
            (λ r m. all r (inr m)))
      | inr e ↦
          rw e (latest_from-IsLatest service_id given latest statuses h (λ r m. all r (inr m)))
    ]

-- For a status of a service, the map that applyLatestStatus keeps for the service has one status
-- of each target, each of them one of the given statuses of the service, and for the status's
-- target one that is newer, or as new and no better.
pub latest_from-newest :
    (service_id : Text) (statuses : List StatusRow) (s : StatusRow)
    → Elem s statuses
    → s.service_id ≡ service_id
    → Distinct (λ r. r.target) (latest_from service_id [] statuses)
      × All
          (λ r. Elem r statuses × (r.service_id ≡ service_id))
          (latest_from service_id [] statuses)
      × ((r : StatusRow) × Elem r (latest_from service_id [] statuses)
          × (r.target ≡ s.target)
          × Beats r s)
latest_from-newest service_id statuses s m own =
    let latest = latest_from-IsLatest service_id statuses [] statuses (tt, tt) (λ r here. here) in
    (latest.0, latest.1, latest_from-Beaten service_id [] statuses s m own)
