-- ===== src/Egress/Reached.antt =====
-- The dialer connects only where the policy permits.
use gitops_dashboard.Prelude.{
  ◌≡◌, refl, ap, ◌∙◌, true, List, [], ◌∷◌, Option, none, some, Bool-cases, inl, inr, Elem,
}
use gitops_dashboard.Prelude.Text.{Text}
use gitops_dashboard.Egress.Policy.{NetFunctions, EgressPolicy, check_host}
use gitops_dashboard.Egress.Dial.{
  Dialed, DialError, Attempt, passes, parse_policy_addr, checked_dial_addresses, after_attempt,
  dial_each, dial_checked, dial_split, dial_context,
}
use gitops_dashboard.Egress.Permits.{IsChecked, check_parsed-IsChecked}

module _ {Addr : Type 0} {Prefix : Type 0} (net : NetFunctions Addr Prefix)
    (policy : EgressPolicy Prefix) where
  -- The host and the port that an address names, and the decision on the host.
  abbrev pub IsReached : Text → Text → Type 0
  unfolding passes
  IsReached asked address =
      (host : Text) × (port : Text) × (net.split_host_port asked ≡ some (host, port))
      × (passes (check_host net policy host) ≡ true)
      × IsChecked net policy (check_host net policy host).allowed port address

  checked_dial_addresses-IsReached :
      (network asked host port address : Text) (addresses : List Text)
      → net.split_host_port asked ≡ some (host, port)
      → checked_dial_addresses net policy network host port ≡ Dialed.ok addresses
      → Elem address addresses
      → IsReached asked address
  unfolding checked_dial_addresses
  checked_dial_addresses-IsReached network asked host port address addresses parts h m =
      elim (Bool-cases (passes (check_host net policy host))) [
        | inr e ↦
            let bad : Dialed.failed (DialError.route_policy_error (check_host net policy host).rule)
                ≡ Dialed.ok addresses =
              rw e at h in
            cc
        | inl e ↦ (
          host,
          port,
          parts,
          e,
          check_parsed-IsChecked net policy (check_host net policy host).allowed network host port
              address (parse_policy_addr net host) addresses (rw e at h) m,
        )
      ]

  module _ {Conn : Type 0} (dial : Text → Text → Attempt Conn) where
    after_attempt-Elem :
        (network address : Text) (addresses : List Text) (conn : Conn) (answer : Attempt Conn)
        → dial network address ≡ answer
        → ((err : DialError)
            → dial_each net dial network err addresses ≡ Dialed.ok conn
            → (a : Text) × Elem a addresses × (dial network a ≡ Attempt.opened conn))
        → after_attempt net dial answer (λ err. dial_each net dial network err addresses)
          ≡ Dialed.ok conn
        → (a : Text) × Elem a (address ∷ addresses) × (dial network a ≡ Attempt.opened conn)
    unfolding after_attempt
    after_attempt-Elem network address addresses conn (Attempt.opened c) e rest h =
        let given : Dialed.ok c ≡ Dialed.ok conn = h in
        let same : c ≡ conn = cc in (address, inl refl, e ∙ ap Attempt.opened same)
    after_attempt-Elem network address addresses conn (Attempt.refused err) e rest h =
        let (a, m, d) = rest (DialError.dial_failed err) h in (a, inr m, d)
    after_attempt-Elem network address addresses conn (Attempt.cut_off err) e rest h =
        let bad : Dialed.failed (DialError.dial_failed err) ≡ Dialed.ok conn = h in cc

    dial_each-Elem :
        (network : Text) (last : DialError) (addresses : List Text) (conn : Conn)
        → dial_each net dial network last addresses ≡ Dialed.ok conn
        → (address : Text) × Elem address addresses × (dial network address ≡ Attempt.opened conn)
    unfolding dial_each
    dial_each-Elem network last [] conn h = let bad : Dialed.failed last ≡ Dialed.ok conn = h in cc
    dial_each-Elem network last (address ∷ addresses) conn h =
        after_attempt-Elem network address addresses conn (dial network address) refl
          (λ err e. dial_each-Elem network err addresses conn e) h

    dial_checked-IsReached :
        (network asked : Text) (conn : Conn) (checked : Dialed (List Text))
        → ((addresses : List Text)
            → checked ≡ Dialed.ok addresses
            → (address : Text) → Elem address addresses
            → IsReached asked address)
        → dial_checked net dial network checked ≡ Dialed.ok conn
        → (address : Text) × (dial network address ≡ Attempt.opened conn) × IsReached asked address
    unfolding dial_checked
    dial_checked-IsReached network asked conn (Dialed.failed err) reached h =
        let bad : Dialed.failed err ≡ Dialed.ok conn = h in cc
    dial_checked-IsReached network asked conn (Dialed.ok addresses) reached h =
        let (address, m, d) = dial_each-Elem network DialError.not_dialed addresses conn h in
        (address, d, reached addresses refl address m)

    dial_split-IsReached :
        (network asked : Text) (conn : Conn) (parts : Option (Text × Text))
        → net.split_host_port asked ≡ parts
        → dial_split net dial policy network parts ≡ Dialed.ok conn
        → (address : Text) × (dial network address ≡ Attempt.opened conn) × IsReached asked address
    unfolding dial_split
    dial_split-IsReached network asked conn none e h =
        let bad : Dialed.failed DialError.split_failed ≡ Dialed.ok conn = h in cc
    dial_split-IsReached network asked conn (some (host, port)) e h =
        dial_checked-IsReached network asked conn
          (checked_dial_addresses net policy network host port)
          (λ addresses f address m.
            checked_dial_addresses-IsReached network asked host port address addresses e f m)
          h

    -- Whenever DialContext of the policy dialer gives a connection, whatever the resolver and the
    -- base dialer answer, the base dialer opened it at an address joined with the port that was
    -- asked for, where the policy allows or defers the host and permits the address: no deny range
    -- holds the address, and either an allow range holds it, or no default deny range does and, if
    -- there are allow ranges, the host was allowed.
    pub dial_context-IsReached :
        (network asked : Text) (conn : Conn)
        → dial_context net dial policy network asked ≡ Dialed.ok conn
        → (address : Text) × (dial network address ≡ Attempt.opened conn) × IsReached asked address
    unfolding dial_context
    dial_context-IsReached network asked conn h =
        dial_split-IsReached network asked conn (net.split_host_port asked) refl h
