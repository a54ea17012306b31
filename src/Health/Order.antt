-- ===== src/Health/Order.antt =====
-- The health of a service does not depend on the order of its targets, which comes from a map.
use gitops_dashboard.Prelude.{
  ◌≡◌, refl, sym, ◌∙◌, ap, Bool, true, false, not, List, [], ◌∷◌, inl, inr, ltb, if◌then◌else◌,
  arith, Bool-cases, All, is_nil,
}
use mathlib.Core.List.{Permᴰ}
use mathlib.Core.List.Permᴰ
use gitops_dashboard.Prelude.Rows.{select_where, All-select_where}
use gitops_dashboard.Core.{HealthState, is_not_applicable}
use gitops_dashboard.Health.Rollup.{
  health_priority, worse, Verdict, note_health, note_all, no_verdict, conclude,
  aggregate_applicable, aggregate_target_health, is_healthy, is_unknown,
}

-- The priorities tell the states apart.
health_priority-injective : (a b : HealthState) → health_priority a ≡ health_priority b → a ≡ b
unfolding health_priority
health_priority-injective HealthState.healthy b h = ground arith
health_priority-injective HealthState.degraded b h = ground arith
health_priority-injective HealthState.unhealthy b h = ground arith
health_priority-injective HealthState.unknown b h = ground arith
health_priority-injective HealthState.error b h = ground arith
health_priority-injective HealthState.not_applicable b h = ground arith

-- Two states of which neither is worse are the same.
worse_comm : (a b : HealthState) → worse a b ≡ worse b a
unfolding worse
worse_comm a b = elim (Bool-cases (ltb (health_priority a) (health_priority b))) [
  | inl e ↦ ground arith
  | inr e ↦ elim (Bool-cases (ltb (health_priority b) (health_priority a))) [
    | inl f ↦ ground arith
    | inr f ↦ rw (health_priority-injective a b (ground arith)) refl
  ]
]

worse_swap : (w a b : HealthState) → worse (worse w a) b ≡ worse (worse w b) a
unfolding worse
worse_swap w a b =
    let same : worse a b ≡ worse b a = worse_comm a b in
    elim (Bool-cases (ltb (health_priority a) (health_priority w))) [
      | inl e ↦ elim (Bool-cases (ltb (health_priority b) (health_priority w))) [
        | inl f ↦ rw (e, f) same
        | inr f ↦ rw (e, f) (ground arith)
      ]
      | inr e ↦ elim (Bool-cases (ltb (health_priority b) (health_priority w))) [
        | inl f ↦ rw (e, f) (ground arith)
        | inr f ↦ rw (e, f) (ground arith)
      ]
    ]

-- The flags and the worst state of two turns.
abbrev two_turns : Bool → Bool → Bool → Bool → Verdict → HealthState → Verdict
two_turns ha hb ua ub v worst = record {
  all_healthy = if hb then (if ha then v.all_healthy else false) else false;
  any_healthy = if hb then true else (if ha then true else v.any_healthy);
  all_unknown = if not ub then false else (if not ua then false else v.all_unknown);
  worst = worst;
}

two_turns_swap :
    (ha hb ua ub : Bool) (v : Verdict) (worst : HealthState)
    → two_turns ha hb ua ub v worst ≡ two_turns hb ha ub ua v worst
two_turns_swap ha hb ua ub v worst = ground arith

note_health_swap :
    (v : Verdict) (a b : HealthState)
    → note_health (note_health v a) b ≡ note_health (note_health v b) a
unfolding note_health
note_health_swap v a b =
    ap (two_turns (is_healthy a) (is_healthy b) (is_unknown a) (is_unknown b) v)
      (worse_swap v.worst a b)
    ∙ two_turns_swap (is_healthy a) (is_healthy b) (is_unknown a) (is_unknown b) v
        (worse (worse v.worst b) a)

note_all-Permᴰ :
    {xs ys : List HealthState} → Permᴰ xs ys → (v : Verdict) → note_all v xs ≡ note_all v ys
unfolding note_all
note_all-Permᴰ Permᴰ.nil v = refl
note_all-Permᴰ (Permᴰ.cons e p) v = rw e (note_all-Permᴰ p _)
note_all-Permᴰ (Permᴰ.swap {a = a} {b = b} {l = l} e f) v =
    rw (← e, ← f) (ap (λ w. note_all w l) (note_health_swap v a b))
note_all-Permᴰ (Permᴰ.trans p q) v = note_all-Permᴰ p v ∙ note_all-Permᴰ q v

is_nil-Permᴰ : {xs ys : List HealthState} → Permᴰ xs ys → is_nil xs ≡ is_nil ys
is_nil-Permᴰ Permᴰ.nil = refl
is_nil-Permᴰ (Permᴰ.cons e p) = refl
is_nil-Permᴰ (Permᴰ.swap e f) = refl
is_nil-Permᴰ (Permᴰ.trans p q) = is_nil-Permᴰ p ∙ is_nil-Permᴰ q

-- The result in one form for one state and for more.
abbrev verdict_of : List HealthState → HealthState
verdict_of xs = if is_nil xs then HealthState.unknown else conclude (note_all no_verdict xs)

aggregate_applicable-verdict :
    (xs : List HealthState)
    → All (λ health. not (is_not_applicable health) ≡ true) xs
    → aggregate_applicable xs ≡ verdict_of xs
unfolding aggregate_applicable
aggregate_applicable-verdict [] h = refl
aggregate_applicable-verdict (health ∷ []) h = alone health h.0
  where
    alone :
        (health : HealthState)
        → not (is_not_applicable health) ≡ true
        → health ≡ conclude (note_all no_verdict (health ∷ []))
    alone HealthState.healthy h = refl
    alone HealthState.degraded h = refl
    alone HealthState.unhealthy h = refl
    alone HealthState.unknown h = refl
    alone HealthState.error h = refl
    alone HealthState.not_applicable h = cc
aggregate_applicable-verdict (a ∷ b ∷ rest) h = refl

-- An element at the front of a selection.
abbrev kept_first : Bool → HealthState → List HealthState → List HealthState
kept_first b a l = if b then a ∷ l else l

kept_first-cons :
    (b : Bool) (a : HealthState) {l m : List HealthState}
    → Permᴰ l m
    → Permᴰ (kept_first b a l) (kept_first b a m)
kept_first-cons true a d = Permᴰ.cons refl d
kept_first-cons false a d = d

kept_first-swap :
    (p q : Bool) (a b : HealthState) (l : List HealthState)
    → Permᴰ (kept_first p a (kept_first q b l)) (kept_first q b (kept_first p a l))
kept_first-swap true true a b l = Permᴰ.swap refl refl
kept_first-swap true false a b l = Permᴰ.refl (a ∷ l)
kept_first-swap false true a b l = Permᴰ.refl (b ∷ l)
kept_first-swap false false a b l = Permᴰ.refl l

select_where-Permᴰ :
    (p : HealthState → Bool) {xs ys : List HealthState}
    → Permᴰ xs ys
    → Permᴰ (select_where p xs) (select_where p ys)
unfolding select_where
select_where-Permᴰ p Permᴰ.nil = Permᴰ.nil
select_where-Permᴰ p (Permᴰ.cons {a = a} e d) =
    rw (← e) (kept_first-cons (p a) a (select_where-Permᴰ p d))
select_where-Permᴰ p (Permᴰ.swap {a = a} {b = b} {l = l} e f) =
    rw (← e, ← f) (kept_first-swap (p a) (p b) a b (select_where p l))
select_where-Permᴰ p (Permᴰ.trans d e) =
    Permᴰ.trans (select_where-Permᴰ p d) (select_where-Permᴰ p e)

-- The health of a service is the same for the states of its targets in every order.
pub aggregate_target_health-order :
    (xs ys : List HealthState)
    → Permᴰ xs ys
    → aggregate_target_health xs ≡ aggregate_target_health ys
unfolding aggregate_target_health
aggregate_target_health-order xs ys perm =
    let p : HealthState → Bool = λ health. not (is_not_applicable health) in
    let kept = select_where-Permᴰ p perm in
    let same = note_all-Permᴰ kept no_verdict in
    aggregate_applicable-verdict (select_where p xs) (All-select_where _ p xs (λ health e. e))
    ∙ rw (is_nil-Permᴰ kept, same) refl
    ∙ sym
        (aggregate_applicable-verdict (select_where p ys) (All-select_where _ p ys (λ health e. e)))
