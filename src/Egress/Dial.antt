-- ===== src/Egress/Dial.antt =====
-- The dialer of internal/monitor/http_route_policy.go.
use gitops_dashboard.Prelude.{
  Bool, true, not, ◌||◌, List, [], ◌∷◌, Option, none, some, if◌then◌else◌,
}
use gitops_dashboard.Prelude.Text.{Text, codes, text_elem}
use gitops_dashboard.Egress.Policy.{
  NetFunctions, EgressDecision, EgressPolicy, check_host, check_resolved_addr_for_host,
  trim_brackets,
}

-- The errors of the dialer: `routePolicyError`, an error of `net.SplitHostPort`, of the resolver or
-- of the base dialer, and the three texts that start with "resolve", by what they name. `not_dialed`
-- is the nil error of a loop over no address.
pub data DialError : Type 0 where
  route_policy_error : Text → DialError
  split_failed lookup_failed not_dialed : DialError
  no_addresses : Text → DialError
  invalid_address : Text → Text → DialError
  no_addresses_for : Text → Text → DialError
  dial_failed : Text → DialError

pub data Dialed (A : Type 0) : Type 0 where
  ok : A → Dialed A
  failed : DialError → Dialed A

-- What the base dialer answers: a connection, or the text of its error, which is `cut_off` when the
-- context has ended.
pub data Attempt (Conn : Type 0) : Type 0 where
  opened : Conn → Attempt Conn
  refused : Text → Attempt Conn
  cut_off : Text → Attempt Conn

-- `routePolicyDecisionError`, as the test for its nil.
unfoldable pub passes : EgressDecision → Bool
passes decision = decision.allowed || decision.deferred

-- `routeIPMatchesNetwork`.
unfoldable pub route_ip_matches_network :
    {Addr Prefix : Type 0} → NetFunctions Addr Prefix → Text → Addr → Bool
route_ip_matches_network net network addr =
    if text_elem network (codes "tcp4" ∷ codes "udp4" ∷ codes "ip4" ∷ [])
    then net.is_4 addr
    else if text_elem network (codes "tcp6" ∷ codes "udp6" ∷ codes "ip6" ∷ [])
    then net.is_6 addr
    else true

module _ {Addr : Type 0} {Prefix : Type 0} (net : NetFunctions Addr Prefix) where
  unfoldable pub unmapped : Option Addr → Option Addr
  unmapped none = none
  unmapped (some addr) = some (net.unmap addr)

  -- `parsePolicyAddr`.
  unfoldable pub parse_policy_addr : Text → Option Addr
  unfolding trim_brackets unmapped
  parse_policy_addr value = unmapped (net.parse_addr (trim_brackets value))

  -- An address of the resolver, before the rest of them.
  unfoldable pub add_checked :
      EgressPolicy Prefix
      → Bool
      → Text
      → Text
      → Text
      → Text
      → Option Addr
      → Dialed (List Text)
      → Dialed (List Text)
  unfolding passes route_ip_matches_network check_resolved_addr_for_host
  add_checked policy host_allowed network host port ip none rest =
      Dialed.failed (DialError.invalid_address host ip)
  add_checked policy host_allowed network host port ip (some addr) (Dialed.failed err) =
      let decision = check_resolved_addr_for_host net policy addr host_allowed in
      if passes decision
      then Dialed.failed err
      else Dialed.failed (DialError.route_policy_error decision.rule)
  add_checked policy host_allowed network host port ip (some addr) (Dialed.ok rest) =
      let decision = check_resolved_addr_for_host net policy addr host_allowed in
      if not (passes decision)
      then Dialed.failed (DialError.route_policy_error decision.rule)
      else if route_ip_matches_network net network addr
      then Dialed.ok (net.join_host_port (net.addr_text addr) port ∷ rest)
      else Dialed.ok rest

  -- The loop over the addresses of the resolver.
  unfoldable pub check_ips :
      EgressPolicy Prefix → Bool → Text → Text → Text → List Text → Dialed (List Text)
  unfolding parse_policy_addr add_checked
  check_ips policy host_allowed network host port [] = Dialed.ok []
  check_ips policy host_allowed network host port (ip ∷ ips) =
      add_checked policy host_allowed network host port ip (parse_policy_addr ip)
        (check_ips policy host_allowed network host port ips)

  unfoldable pub not_empty : Text → Text → Dialed (List Text) → Dialed (List Text)
  not_empty host network (Dialed.failed err) = Dialed.failed err
  not_empty host network (Dialed.ok []) = Dialed.failed (DialError.no_addresses_for host network)
  not_empty host network (Dialed.ok (address ∷ addresses)) = Dialed.ok (address ∷ addresses)

  unfoldable pub check_resolved :
      EgressPolicy Prefix → Bool → Text → Text → Text → Option (List Text) → Dialed (List Text)
  unfolding check_ips not_empty
  check_resolved policy host_allowed network host port none = Dialed.failed DialError.lookup_failed
  check_resolved policy host_allowed network host port (some []) =
      Dialed.failed (DialError.no_addresses host)
  check_resolved policy host_allowed network host port (some (ip ∷ ips)) =
      not_empty host network (check_ips policy host_allowed network host port (ip ∷ ips))

  -- The host as an address, or as a name that the resolver looks up.
  unfoldable pub check_parsed :
      EgressPolicy Prefix → Bool → Text → Text → Text → Option Addr → Dialed (List Text)
  unfolding check_resolved passes check_resolved_addr_for_host
  check_parsed policy host_allowed network host port none =
      check_resolved policy host_allowed network host port (net.lookup host)
  check_parsed policy host_allowed network host port (some addr) =
      let decision = check_resolved_addr_for_host net policy addr host_allowed in
      if passes decision
      then Dialed.ok (net.join_host_port (net.addr_text addr) port ∷ [])
      else Dialed.failed (DialError.route_policy_error decision.rule)

  -- `checkedDialAddresses`.
  unfoldable pub checked_dial_addresses :
      EgressPolicy Prefix → Text → Text → Text → Dialed (List Text)
  unfolding check_host passes parse_policy_addr check_parsed
  checked_dial_addresses policy network host port =
      let decision = check_host net policy host in
      if passes decision
      then check_parsed policy decision.allowed network host port (parse_policy_addr host)
      else Dialed.failed (DialError.route_policy_error decision.rule)

  module _ {Conn : Type 0} (dial : Text → Text → Attempt Conn) where
    unfoldable pub after_attempt : Attempt Conn → (DialError → Dialed Conn) → Dialed Conn
    after_attempt (Attempt.opened conn) later = Dialed.ok conn
    after_attempt (Attempt.refused err) later = later (DialError.dial_failed err)
    after_attempt (Attempt.cut_off err) later = Dialed.failed (DialError.dial_failed err)

    -- The loop over the checked addresses, with the last error.
    unfoldable pub dial_each : Text → DialError → List Text → Dialed Conn
    unfolding after_attempt
    dial_each network last [] = Dialed.failed last
    dial_each network last (address ∷ addresses) =
        after_attempt (dial network address) (λ err. dial_each network err addresses)

    unfoldable pub dial_checked : Text → Dialed (List Text) → Dialed Conn
    unfolding dial_each
    dial_checked network (Dialed.failed err) = Dialed.failed err
    dial_checked network (Dialed.ok addresses) = dial_each network DialError.not_dialed addresses

    unfoldable pub dial_split : EgressPolicy Prefix → Text → Option (Text × Text) → Dialed Conn
    unfolding checked_dial_addresses dial_checked
    dial_split policy network none = Dialed.failed DialError.split_failed
    dial_split policy network (some parts) =
        dial_checked network (checked_dial_addresses policy network parts.0 parts.1)

    -- `DialContext` of `routePolicyDialer`.
    unfoldable pub dial_context : EgressPolicy Prefix → Text → Text → Dialed Conn
    unfolding dial_split
    dial_context policy network address = dial_split policy network (net.split_host_port address)
