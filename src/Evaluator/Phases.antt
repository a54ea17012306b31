-- ===== src/Evaluator/Phases.antt =====
-- What the evaluator promises for one target: a machine of four phases, whose notices alternate.
use gitops_dashboard.Prelude.{Bool, true, false, List, [], ◌∷◌, Option, none, some, ◌≡◌, refl}

-- `down` was never reported as a failure, `failed` was.
pub data Phase : Type 0 where
  unknown up down failed : Phase

pub data Notice : Type 0 where
  failure recovery : Notice

-- An evaluation takes a target from a phase to a phase, and sends a notice or none.
pub data Transition : Phase → Option Notice → Phase → Type 0 where
  stay : {p : Phase} → Transition p none p
  first_up : Transition Phase.unknown none Phase.up
  first_down : Transition Phase.unknown none Phase.down
  silent_recovery : Transition Phase.down none Phase.up
  fail : Transition Phase.up (some Notice.failure) Phase.failed
  recover : Transition Phase.failed (some Notice.recovery) Phase.up

-- The notices of a number of evaluations, in order.
pub data Notices : Phase → List Notice → Phase → Type 0 where
  done : {p : Phase} → Notices p [] p
  quiet : {p q r : Phase} {ns : List Notice} → Transition p none q → Notices q ns r → Notices p ns r
  sent :
      {p q r : Phase} {n : Notice} {ns : List Notice}
      → Transition p (some n) q
      → Notices q ns r
      → Notices p (n ∷ ns) r

-- Failures and recoveries in turn, from a failure on (`true`) or from a recovery on.
abbrev pub alternate : Bool → List Notice → Bool
alternate b [] = true
alternate true (Notice.failure ∷ ns) = alternate false ns
alternate true (Notice.recovery ∷ ns) = false
alternate false (Notice.recovery ∷ ns) = alternate true ns
alternate false (Notice.failure ∷ ns) = false

abbrev pub awaits_failure : Phase → Bool
awaits_failure Phase.failed = false
awaits_failure _ = true

-- The notices of a target alternate, and a recovery never comes first unless a failure was sent.
pub Notices-alternate :
    (p q : Phase) (ns : List Notice) → Notices p ns q → alternate (awaits_failure p) ns ≡ true
Notices-alternate p q ns Notices.done = refl
Notices-alternate p q ns (Notices.quiet {q = m} t rest) =
    quietly p m t (Notices-alternate m q ns rest)
  where
    quietly :
        (p m : Phase)
        → Transition p none m
        → alternate (awaits_failure m) ns ≡ true
        → alternate (awaits_failure p) ns ≡ true
    quietly p m Transition.stay h = h
    quietly p m Transition.first_up h = h
    quietly p m Transition.first_down h = h
    quietly p m Transition.silent_recovery h = h
Notices-alternate p q ns (Notices.sent {q = m} {n = n} {ns = later} t rest) =
    loudly p m n later t (Notices-alternate m q later rest)
  where
    loudly :
        (p m : Phase) (n : Notice) (later : List Notice)
        → Transition p (some n) m
        → alternate (awaits_failure m) later ≡ true
        → alternate (awaits_failure p) (n ∷ later) ≡ true
    loudly p m n later Transition.fail h = h
    loudly p m n later Transition.recover h = h
