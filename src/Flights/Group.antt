-- ===== src/Flights/Group.antt =====
-- internal/scanner/repo_singleflight.go. The calls are objects that goroutines share: `heap` holds
-- them, and the map of the group holds their ids. Each step is what one goroutine does while it
-- holds the mutex, or the write of the result before it takes the mutex again; any order of the
-- steps of any number of goroutines is a run. `do` and `doDetached` differ in the goroutine that
-- runs the operation, not in the steps.
use gitops_dashboard.Prelude.{
  ℕ, ◌+◌, ◌≡◌, Bool, true, false, not, List, [], ◌∷◌, Option, none, some, ◌==◌, if◌then◌else◌, Elem,
}
use gitops_dashboard.Prelude.Text.{Text, text_eq}
use gitops_dashboard.Prelude.Rows.{select_where, find_where, update_where}

-- `repoOperationCall`, with the key that it was made for; `result` is `none` before the operation
-- has returned, and `is_done` tells whether the channel is closed.
pub record RepoOperationCall (A : Type 0) : Type 0 where
  pub id : ℕ
  pub key : Text
  pub result : Option A
  pub is_done : Bool

-- An entry of the map of the group.
pub record Flight : Type 0 where
  pub key : Text
  pub call : ℕ

-- A goroutine that waits for a call, or runs it.
pub record Caller : Type 0 where
  pub key : Text
  pub call : ℕ

pub record Group (A : Type 0) : Type 0 where
  pub calls : List Flight
  pub heap : List (RepoOperationCall A)
  pub next : ℕ
  pub callers : List Caller

abbrev pub is_for : Text → Flight → Bool
is_for key flight = text_eq flight.key key

-- The first critical section: the call of the key, or a new one.
unfoldable pub join_call : {A : Type 0} → Text → Group A → Group A
join_call key g = elim (find_where (is_for key) g.calls) [
  | some flight ↦ record g { callers = record { key = key; call = flight.call } ∷ g.callers }
  | none ↦ record {
    calls = record { key = key; call = g.next } ∷ g.calls;
    heap = record { id = g.next; key = key; result = none; is_done = false } ∷ g.heap;
    next = g.next + 1;
    callers = record { key = key; call = g.next } ∷ g.callers;
  }
]

-- `call.value, call.err = fn()`.
unfoldable pub set_result : {A : Type 0} → RepoOperationCall A → A → Group A → Group A
set_result call value g = record g {
  heap = update_where (λ c. c.id == call.id) (λ c. record c { result = some value }) g.heap;
}

-- The second critical section: `delete(group.calls, key)` and `close(call.done)`.
unfoldable pub publish : {A : Type 0} → RepoOperationCall A → Group A → Group A
publish call g = record g {
  calls = select_where (λ flight. not (is_for call.key flight)) g.calls;
  heap = update_where (λ c. c.id == call.id) (λ c. record c { is_done = true }) g.heap;
}

-- What a goroutine that waits receives: `none` while the channel is open.
unfoldable pub await : {A : Type 0} → ℕ → Group A → Option A
await id g = elim (find_where (λ c. c.id == id) g.heap) [
  | none ↦ none
  | some call ↦ if call.is_done then call.result else none
]

-- A call that is not done is run by one goroutine, which sets its result once and publishes it
-- after that. A goroutine whose context ends leaves without a step.
pub data Step {A : Type 0} : Group A → Group A → Type 0 where
  joins : {g : Group A} (key : Text) → Step g (join_call key g)
  returns :
      {g : Group A} (call : RepoOperationCall A) (value : A)
      → Elem call g.heap
      → call.result ≡ none
      → Step g (set_result call value g)
  publishes :
      {g : Group A} (call : RepoOperationCall A) (value : A)
      → Elem call g.heap
      → call.is_done ≡ false
      → call.result ≡ some value
      → Step g (publish call g)

pub data Many {A : Type 0} : Group A → Group A → Type 0 where
  done : {g : Group A} → Many g g
  more : {g h k : Group A} → Many g h → Step h k → Many g k

abbrev pub empty_group : {A : Type 0} → Group A
empty_group = record { calls = []; heap = []; next = 0; callers = [] }
