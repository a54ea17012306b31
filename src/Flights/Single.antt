-- ===== src/Flights/Single.antt =====
-- Two runs of an operation for one key never overlap, and nobody waits for a result that is not
-- there.
use gitops_dashboard.Prelude.{
  ◌<◌, ◌≡◌, ◌≢◌, refl, ◌∙◌, ap, true, false, not, List, [], ◌∷◌, none, some, ◌==◌, ==_iff, arith,
  Elem, All, All-Elem, All-impl, Distinct, Distinct-same, Bool-cases, Option-cases, inl, inr,
}
use gitops_dashboard.Prelude.Text.{Text, text_eq, text_eq→eq, text_eq_refl}
use gitops_dashboard.Prelude.Rows.{
  select_where, find_where, Distinct-update_where, Distinct-select_where,
}
use gitops_dashboard.Prelude.Keys.{All-update_where_to, Elem-select_where}
use gitops_dashboard.Flights.Group.{
  RepoOperationCall, Flight, Group, is_for, join_call, set_result, publish, Step, Many, empty_group,
}

-- A call that is not done is in the map, under its key.
abbrev pub IsListed : {A : Type 0} → List Flight → RepoOperationCall A → Type 0
IsListed calls c = (c.is_done ≡ false) → Elem (record { key = c.key; call = c.id }) calls

-- A call that is done has its result.
abbrev pub HasResult : {A : Type 0} → RepoOperationCall A → Type 0
HasResult {A} c = (c.is_done ≡ true) → (value : A) × (c.result ≡ some value)

pub record IsSingle {A : Type 0} (g : Group A) : Type 0 where
  pub listed : All (IsListed g.calls) g.heap
  pub keys : Distinct (λ flight. flight.key) g.calls
  pub ids : Distinct (λ c. c.id) g.heap
  pub below : All (λ c. c.id < g.next) g.heap
  pub results : All HasResult g.heap

no_flight :
    (key : Text) (calls : List Flight)
    → find_where (is_for key) calls ≡ none
    → All (λ flight. flight.key ≢ key) calls
unfolding find_where
no_flight key [] h = tt
no_flight key (flight ∷ calls) h = elim (Bool-cases (text_eq flight.key key)) [
  | inl e ↦ cc (rw e at h)
  | inr e ↦ (
    λ same. cc (e, text_eq_refl key, ap (λ k. text_eq k key) same),
    no_flight key calls (rw e at h),
  )
]

module _ {A : Type 0} where
  join_call-IsSingle : (key : Text) (g : Group A) → IsSingle g → IsSingle (join_call key g)
  unfolding join_call
  join_call-IsSingle key g s = elim (Option-cases (find_where (is_for key) g.calls)) [
    | inr (flight, e) ↦
        rw (e, join_call)
          (record {
            listed = s.listed;
            keys = s.keys;
            ids = s.ids;
            below = s.below;
            results = s.results;
          })
    | inl e ↦
        rw (e, join_call)
          (record {
            listed = (
              λ running. inl refl,
              All-impl (IsListed g.calls) _ (λ c h running. inr (h running)) g.heap s.listed,
            );
            keys = (no_flight key g.calls e, s.keys);
            ids = (
              All-impl (λ c. c.id < g.next) _ (λ c h same. omega (arith, h, same)) g.heap s.below,
              s.ids,
            );
            below = (
              omega arith,
              All-impl (λ c. c.id < g.next) _ (λ c h. omega (arith, h)) g.heap s.below,
            );
            results = (λ closed. cc, s.results);
          })
  ]

  set_result-IsSingle :
      (call : RepoOperationCall A) (value : A) (g : Group A)
      → IsSingle g
      → IsSingle (set_result call value g)
  unfolding set_result
  set_result-IsSingle call value g s = record {
    listed =
        All-update_where_to (IsListed g.calls) (IsListed g.calls) _ _ g.heap (λ c m e h. h)
          (λ c m e h. h) s.listed;
    keys = s.keys;
    ids = Distinct-update_where (λ c. c.id) _ _ g.heap (λ c. refl) s.ids;
    below =
        All-update_where_to (λ c. c.id < g.next) (λ c. c.id < g.next) _ _ g.heap (λ c m e h. h)
          (λ c m e h. h) s.below;
    results =
        All-update_where_to HasResult HasResult _ _ g.heap (λ c m e h closed. (value, refl))
          (λ c m e h. h) s.results;
  }

  -- The call that is published is the only one with its id.
  same_call :
      (call c : RepoOperationCall A) (g : Group A)
      → IsSingle g
      → Elem call g.heap
      → Elem c g.heap
      → (c.id == call.id) ≡ true
      → c.result ≡ call.result
  same_call call c g s m mc e =
      ap (λ x. x.result)
        (Distinct-same (λ x. x.id) c call g.heap s.ids mc m ((==_iff c.id call.id).0 e))

  -- Another running call has another key, and stays in the map.
  other_flight :
      (call c : RepoOperationCall A) (g : Group A)
      → IsSingle g
      → Elem call g.heap
      → call.is_done ≡ false
      → Elem c g.heap
      → c.is_done ≡ false
      → (c.id == call.id) ≡ false
      → Elem (record { key = c.key; call = c.id }) g.calls
      → Elem
          (record { key = c.key; call = c.id })
          (select_where (λ flight. not (is_for call.key flight)) g.calls)
  other_flight call c g s m running mc also e listed =
      Elem-select_where _ _ g.calls listed (elim (Bool-cases (text_eq c.key call.key)) [
        | inr apart ↦ rw apart refl
        | inl same ↦
            let mine = All-Elem (IsListed g.calls) call g.heap s.listed m running in
            let flights =
              Distinct-same (λ flight. flight.key) (record { key = c.key; call = c.id })
                (record { key = call.key; call = call.id }) g.calls s.keys listed mine
                (text_eq→eq c.key call.key same) in
            let ids : c.id ≡ call.id = ap (λ flight. flight.call) flights in
            cc (e, (==_iff c.id call.id).1 ids)
      ])

  publish-IsSingle :
      (call : RepoOperationCall A) (value : A) (g : Group A)
      → Elem call g.heap
      → call.is_done ≡ false
      → call.result ≡ some value
      → IsSingle g
      → IsSingle (publish call g)
  unfolding publish
  publish-IsSingle call value g m unfinished returned s = record {
    listed =
        All-update_where_to (IsListed g.calls)
          (IsListed (select_where (λ flight. not (is_for call.key flight)) g.calls)) _ _ g.heap
          (λ c mc e h running. cc)
          (λ c mc e h running. other_flight call c g s m unfinished mc running e (h running))
          s.listed;
    keys = Distinct-select_where (λ flight. flight.key) _ g.calls s.keys;
    ids = Distinct-update_where (λ c. c.id) _ _ g.heap (λ c. refl) s.ids;
    below =
        All-update_where_to (λ c. c.id < g.next) (λ c. c.id < g.next) _ _ g.heap (λ c mc e h. h)
          (λ c mc e h. h) s.below;
    results =
        All-update_where_to HasResult HasResult _ _ g.heap
          (λ c mc e h closed. (value, same_call call c g s m mc e ∙ returned)) (λ c mc e h. h)
          s.results;
  }

  Step-IsSingle : {g h : Group A} → Step g h → IsSingle g → IsSingle h
  Step-IsSingle {g} (Step.joins key) s = join_call-IsSingle key g s
  Step-IsSingle {g} (Step.returns call value m fresh) s = set_result-IsSingle call value g s
  Step-IsSingle {g} (Step.publishes call value m running returned) s =
      publish-IsSingle call value g m running returned s

  pub empty_group-IsSingle : IsSingle (empty_group {A = A})
  empty_group-IsSingle = record { listed = tt; keys = tt; ids = tt; below = tt; results = tt }

  pub Many-IsSingle : {g h : Group A} → Many g h → IsSingle g → IsSingle h
  Many-IsSingle Many.done s = s
  Many-IsSingle (Many.more steps last) s = Step-IsSingle last (Many-IsSingle steps s)

-- In every run of any number of goroutines on an operation group, two calls of one key that are
-- not done are one call: the operation never runs twice at once for a repository.
pub Many-alone :
    {A : Type 0} (g : Group A) (c d : RepoOperationCall A)
    → Many empty_group g
    → Elem c g.heap
    → Elem d g.heap
    → c.is_done ≡ false
    → d.is_done ≡ false
    → c.key ≡ d.key
    → c ≡ d
Many-alone g c d steps mc md running also same =
    let s = Many-IsSingle steps empty_group-IsSingle in
    let mine = All-Elem (IsListed g.calls) c g.heap s.listed mc running in
    let other = All-Elem (IsListed g.calls) d g.heap s.listed md also in
    let flights =
      Distinct-same (λ flight. flight.key) (record { key = c.key; call = c.id })
        (record { key = d.key; call = d.id }) g.calls s.keys mine other same in
    Distinct-same (λ x. x.id) c d g.heap s.ids mc md (ap (λ flight. flight.call) flights)
