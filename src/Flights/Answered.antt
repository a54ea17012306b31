-- ===== src/Flights/Answered.antt =====
-- Whoever joins a call gets the result of a run for the key that was asked for.
use gitops_dashboard.Prelude.{
  ◌⊎◌, ℕ, ◌≡◌, refl, sym, ap, ◌∙◌, not, Distinct-same, ==_iff, subst, Bool, true, false, List, none,
  some, ◌==◌, Elem, All, All-Elem, All-impl, ◌&&◌, ◌∷◌, Bool-cases, Option-cases, inl, inr,
}
use gitops_dashboard.Prelude.Text.{Text, text_eq, text_eq→eq, text_eq_refl}
use gitops_dashboard.Prelude.Rows.{
  select_where, find_where, update_where, find_where-some, All-select_where_both, exists_where,
  exists_where_none,
}
use gitops_dashboard.Prelude.Keys.{
  Elem-update_where, Elem-updated, find_where-key, find_where-misses,
}
use gitops_dashboard.Flights.Group.{
  RepoOperationCall, Flight, Caller, Group, is_for, join_call, set_result, publish, await, Step,
  Many, empty_group,
}
use gitops_dashboard.Flights.Single.{
  HasResult, IsListed, IsSingle, Many-IsSingle, empty_group-IsSingle,
}

-- A call of a key, by its id, and one that is not done.
abbrev Known : {A : Type 0} → List (RepoOperationCall A) → ℕ → Text → Type 0
Known {A} heap id key = (c : RepoOperationCall A) × Elem c heap × (c.id ≡ id) × (c.key ≡ key)

abbrev Running : {A : Type 0} → List (RepoOperationCall A) → ℕ → Text → Type 0
Running {A} heap id key =
    (c : RepoOperationCall A) × Elem c heap × (c.id ≡ id) × (c.key ≡ key) × (c.is_done ≡ false)

-- The calls of the map run, and those of the goroutines are there, each with its key.
record IsKnown {A : Type 0} (g : Group A) : Type 0 where
  pub flights : All (λ flight. Running g.heap flight.call flight.key) g.calls
  pub callers : All (λ caller. Known g.heap caller.call caller.key) g.callers

module _ {A : Type 0} where
  -- A write to a call keeps its id and its key.
  Known-update_where :
      (p : RepoOperationCall A → Bool) (f : RepoOperationCall A → RepoOperationCall A)
      (heap : List (RepoOperationCall A)) (id : ℕ) (key : Text)
      → ((c : RepoOperationCall A) → ((f c).id ≡ c.id) × ((f c).key ≡ c.key))
      → Known heap id key
      → Known (update_where p f heap) id key
  Known-update_where p f heap id key same (c, m, i, k) = elim (Bool-cases (p c)) [
    | inl e ↦ (f c, Elem-updated p f c heap m e, (same c).0 ∙ i, (same c).1 ∙ k)
    | inr e ↦ (c, Elem-update_where p f c heap m e, i, k)
  ]

  set_result-Running :
      (call : RepoOperationCall A) (value : A) (heap : List (RepoOperationCall A)) (id : ℕ)
      (key : Text)
      → Running heap id key
      → Running
          (update_where (λ c. c.id == call.id) (λ c. record c { result = some value }) heap)
          id
          key
  set_result-Running call value heap id key (c, m, i, k, open_call) =
      elim (Bool-cases (c.id == call.id)) [
        | inl e ↦ (record c { result = some value }, Elem-updated _ _ c heap m e, i, k, open_call)
        | inr e ↦ (c, Elem-update_where _ _ c heap m e, i, k, open_call)
      ]

  -- A call of another key is not the one that is published.
  publish-Running :
      (call : RepoOperationCall A) (g : Group A) (flight : Flight)
      → IsSingle g
      → Elem call g.heap
      → not (is_for call.key flight) ≡ true
      → Running g.heap flight.call flight.key
      → Running (publish call g).heap flight.call flight.key
  unfolding publish
  publish-Running call g flight s mc other (c, m, i, k, running) =
      elim (Bool-cases (c.id == call.id)) [
        | inr e ↦ (c, Elem-update_where _ _ c g.heap m e, i, k, running)
        | inl e ↦
            let one : c ≡ call =
              Distinct-same (λ x. x.id) c call g.heap s.ids m mc ((==_iff c.id call.id).0 e) in
            let same : flight.key ≡ call.key =
              sym k ∙ ap (λ (x : RepoOperationCall A). x.key) one in
            let bad : false ≡ true = rw (same, text_eq_refl call.key) at other in cc
      ]

  join_call-IsKnown : (key : Text) (g : Group A) → IsKnown g → IsKnown (join_call key g)
  unfolding join_call
  join_call-IsKnown key g k = elim (Option-cases (find_where (is_for key) g.calls)) [
    | inr (flight, e) ↦
        rw (e, join_call)
          (record {
            flights = k.flights;
            callers = (joined flight (find_where-some (is_for key) flight g.calls e), k.callers);
          })
    | inl e ↦
        rw (e, join_call)
          (let new : RepoOperationCall A = record {
            id = g.next;
            key = key;
            result = none;
            is_done = false;
          } in
            record {
              flights = (
                (new, inl refl, refl, refl, refl),
                All-impl _ _ (λ flight h. (h.0, inr h.1, h.2, h.3, h.4)) g.calls k.flights,
              );
              callers = (
                (new, inl refl, refl, refl),
                All-impl _ _ (λ caller h. (h.0, inr h.1, h.2, h.3)) g.callers k.callers,
              );
            })
  ]
    where
      joined :
          (flight : Flight)
          → Elem flight g.calls × (is_for key flight ≡ true)
          → Known g.heap flight.call key
      joined flight (m, named) =
          let (c, mc, i, same, running) =
            All-Elem (λ x. Running g.heap x.call x.key) flight g.calls k.flights m in
          (c, mc, i, same ∙ text_eq→eq flight.key key named)

  Step-IsKnown : {g h : Group A} → Step g h → IsSingle g → IsKnown g → IsKnown h
  unfolding set_result publish
  Step-IsKnown {g} (Step.joins key) s k = join_call-IsKnown key g k
  Step-IsKnown {g} (Step.returns call value m fresh) s k = record {
    flights =
        All-impl _ _ (λ flight h. set_result-Running call value g.heap flight.call flight.key h)
          g.calls k.flights;
    callers =
        All-impl _ _
          (λ caller h. Known-update_where _ _ g.heap caller.call caller.key (λ c. (refl, refl)) h)
          g.callers k.callers;
  }
  Step-IsKnown {g} (Step.publishes call value m running returned) s k = record {
    flights =
        All-impl _ _ (λ flight h. publish-Running call g flight s m h.1 h.0)
          (select_where _ g.calls) (All-select_where_both _ _ g.calls k.flights);
    callers =
        All-impl _ _
          (λ caller h. Known-update_where _ _ g.heap caller.call caller.key (λ c. (refl, refl)) h)
          g.callers k.callers;
  }

  Many-IsKnown : {g h : Group A} → Many g h → IsSingle g → IsKnown g → IsKnown h
  Many-IsKnown Many.done s k = k
  Many-IsKnown (Many.more steps last) s k =
      Step-IsKnown last (Many-IsSingle steps s) (Many-IsKnown steps s k)

  -- A goroutine goes on waiting for the call that it joined.
  Step-callers :
      {g h : Group A} (caller : Caller) → Step g h → Elem caller g.callers → Elem caller h.callers
  unfolding join_call set_result publish
  Step-callers {g} caller (Step.joins key) m =
      elim (Option-cases (find_where (is_for key) g.calls)) [
        | inr (flight, e) ↦ rw (e, join_call) (inr m)
        | inl e ↦ rw (e, join_call) (inr m)
      ]
  Step-callers caller (Step.returns call value mc fresh) m = m
  Step-callers caller (Step.publishes call value mc running returned) m = m

  Many-callers :
      {g h : Group A} (caller : Caller) → Many g h → Elem caller g.callers → Elem caller h.callers
  Many-callers caller Many.done m = m
  Many-callers caller (Many.more steps last) m =
      Step-callers caller last (Many-callers caller steps m)

-- What is received from a call that is done is its result.
await-done :
    {A : Type 0} (g : Group A) (c : RepoOperationCall A) (value : A)
    → IsSingle g
    → Elem c g.heap
    → c.is_done ≡ true
    → c.result ≡ some value
    → await c.id g ≡ some value
unfolding await
await-done g c value s m closed returned =
    rw (find_where-key (λ x. x.id) c g.heap s.ids m, await) (rw closed returned)

-- A call of a key that is not done.
abbrev pub is_running_for : {A : Type 0} → Text → RepoOperationCall A → Bool
is_running_for key c = text_eq c.key key && not c.is_done

-- The call that a goroutine joins: one of the key that runs, or a new one where none runs.
unfoldable pub IsJoined : {A : Type 0} → Text → Caller → Group A → Type 0
IsJoined {A} key caller g =
    (caller.key ≡ key)
    × (((d : RepoOperationCall A) × Elem d g.heap
          × (d.id ≡ caller.call)
          × (is_running_for key d ≡ true))
        ⊎ (exists_where (is_running_for key) g.heap ≡ false) × (caller.call ≡ g.next))

no_running :
    {A : Type 0} (key : Text) (g : Group A)
    → IsSingle g
    → find_where (is_for key) g.calls ≡ none
    → exists_where (is_running_for key) g.heap ≡ false
no_running {A} key g s missed = exists_where_none (is_running_for key) g.heap (
    All-impl (IsListed g.calls) _
      (λ c listed. elim (Bool-cases (text_eq c.key key)) [
        | inr other ↦ rw other refl
        | inl same ↦ elim (Bool-cases c.is_done) [
          | inl closed ↦ rw (same, closed) refl
          | inr running ↦
              let miss = find_where-misses (is_for key) _ g.calls missed (listed running) in cc
        ]
      ])
      g.heap s.listed)

join_call-IsJoined :
    {A : Type 0} (key : Text) (caller : Caller) (g : Group A)
    → IsSingle g
    → IsKnown g
    → (join_call key g).callers ≡ caller ∷ g.callers
    → IsJoined key caller g
unfolding join_call IsJoined
join_call-IsJoined key caller g s k joined = elim (Option-cases (find_where (is_for key) g.calls)) [
  | inl missed ↦
      let made : record { key = key; call = g.next } ∷ g.callers ≡ caller ∷ g.callers =
        rw (missed, join_call) at joined in
      let one : record { key = key; call = g.next } ≡ caller = cc in
      (
        sym (ap (λ (x : Caller). x.key) one),
        inr (no_running key g s missed, sym (ap (λ (x : Caller). x.call) one)),
      )
  | inr (flight, found) ↦
      let made : record { key = key; call = flight.call } ∷ g.callers ≡ caller ∷ g.callers =
        rw (found, join_call) at joined in
      let one : record { key = key; call = flight.call } ≡ caller = cc in
      let (m, named) = find_where-some (is_for key) flight g.calls found in
      let (d, md, id, same, running) =
        All-Elem (λ x. Running g.heap x.call x.key) flight g.calls k.flights m in
      (
        sym (ap (λ (x : Caller). x.key) one),
        inl (d, md, id ∙ ap (λ (x : Caller). x.call) one, rw (same, running, named) refl),
      )
]

-- Whoever joins an operation group after any run joins the call of the key that runs at that time,
-- or a new one where no call of the key runs. Through every run after that, of any number of
-- goroutines, it goes on waiting for that very call, by its id: the call is there under the key,
-- and either it is not done yet, or a value is received from it, and the value is the result of
-- the call.
pub Many-answers :
    {A : Type 0} (key : Text) (caller : Caller) (g h : Group A)
    → Many empty_group g
    → (join_call key g).callers ≡ caller ∷ g.callers
    → Many (join_call key g) h
    → IsJoined key caller g
      × Elem caller h.callers
      × ((c : RepoOperationCall A) × Elem c h.heap
          × (c.id ≡ caller.call)
          × (c.key ≡ key)
          × ((c.is_done ≡ false)
              ⊎ ((value : A) × (await caller.call h ≡ some value) × (c.result ≡ some value))))
Many-answers {A} key caller g h before joined after =
    let s = Many-IsSingle before empty_group-IsSingle in
    let k = Many-IsKnown before empty_group-IsSingle (record { flights = tt; callers = tt }) in
    let start : Many empty_group (join_call key g) = Many.more before (Step.joins key) in
    let s' = Many-IsSingle after (Many-IsSingle start empty_group-IsSingle) in
    let k' =
      Many-IsKnown after (Many-IsSingle start empty_group-IsSingle) (join_call-IsKnown key g k) in
    let waits =
      Many-callers caller after (subst (λ callers. Elem caller callers) (sym joined) (inl refl)) in
    let is_joined = join_call-IsJoined key caller g s k joined in
    let (c, mc, id, same) =
      All-Elem (λ x. Known h.heap x.call x.key) caller h.callers k'.callers waits in
    (
      is_joined,
      waits,
      (
        c,
        mc,
        id,
        same ∙ (unfold IsJoined in is_joined.0),
        elim (Bool-cases c.is_done) [
          | inr running ↦ inl running
          | inl closed ↦
              let (value, returned) = All-Elem HasResult c h.heap s'.results mc closed in
              inr (
                value,
                subst (λ i. await i h ≡ some value) id (await-done h c value s' mc closed returned),
                returned,
              )
        ],
      ),
    )
