-- ===== src/Egress/Redirect.antt =====
-- The check of a redirect in internal/monitor/http_route_policy.go, beside that of the dialer.
use gitops_dashboard.Prelude.{
  ◌≡◌, refl, sym, ap, ◌∙◌, Bool, true, false, List, [], ◌∷◌, Option, none, some, if◌then◌else◌,
  Bool-cases, inl, inr,
}
use gitops_dashboard.Prelude.Text.{Text, codes, is_empty, text_elem, text_eq}
use gitops_dashboard.Egress.Policy.{
  NetFunctions, EgressPolicy, check_host, check_resolved_addr_for_host, normalize_host,
}
use gitops_dashboard.Egress.Dial.{
  Dialed, DialError, passes, parse_policy_addr, add_checked, check_ips, not_empty, check_resolved,
  check_parsed, checked_dial_addresses, route_ip_matches_network,
}

-- The error of a result, if it is one.
unfoldable pub error_of : {A : Type 0} → Dialed A → Option DialError
error_of (Dialed.ok x) = none
error_of (Dialed.failed err) = some err

module _ {Addr : Type 0} {Prefix : Type 0} (net : NetFunctions Addr Prefix)
    (policy : EgressPolicy Prefix) where
  -- An address of the resolver, before the rest of them.
  unfoldable check_one : Bool → Text → Text → Option Addr → Option DialError → Option DialError
  unfolding passes check_resolved_addr_for_host
  check_one host_allowed host ip none rest = some (DialError.invalid_address host ip)
  check_one host_allowed host ip (some addr) rest =
      let decision = check_resolved_addr_for_host net policy addr host_allowed in
      if passes decision then rest else some (DialError.route_policy_error decision.rule)

  -- The loop over the addresses of the resolver.
  unfoldable check_all : Bool → Text → List Text → Option DialError
  unfolding check_one parse_policy_addr
  check_all host_allowed host [] = none
  check_all host_allowed host (ip ∷ ips) =
      check_one host_allowed host ip (parse_policy_addr net ip) (check_all host_allowed host ips)

  unfoldable check_looked_up : Bool → Text → Option (List Text) → Option DialError
  unfolding check_all
  check_looked_up host_allowed host none = some DialError.lookup_failed
  check_looked_up host_allowed host (some []) = some (DialError.no_addresses host)
  check_looked_up host_allowed host (some (ip ∷ ips)) = check_all host_allowed host (ip ∷ ips)

  unfoldable check_destination : Bool → Text → Option Addr → Option DialError
  unfolding check_looked_up
  check_destination host_allowed host none = check_looked_up host_allowed host (net.lookup host)
  check_destination host_allowed host (some addr) =
      check_one host_allowed host host (some addr) none

  -- `checkPolicyURLDestination`, of the host name of the URL.
  unfoldable pub check_policy_url_destination : Text → Option DialError
  unfolding check_destination check_host passes
  check_policy_url_destination host =
      let decision = check_host net policy host in
      if is_empty host
      then some (DialError.route_policy_error (codes "invalid route"))
      else if passes decision
      then check_destination decision.allowed host (parse_policy_addr net host)
      else some (DialError.route_policy_error decision.rule)

  add_checked-error :
      (host_allowed : Bool) (host port ip : Text) (addr : Option Addr) (before : Dialed (List Text))
      → error_of (add_checked net policy host_allowed (codes "tcp") host port ip addr before)
        ≡ check_one host_allowed host ip addr (error_of before)
  unfolding add_checked check_one error_of passes route_ip_matches_network text_elem text_eq
  add_checked-error host_allowed host port ip none before = refl
  add_checked-error host_allowed host port ip (some addr) (Dialed.failed err) =
      elim (Bool-cases (passes (check_resolved_addr_for_host net policy addr host_allowed))) [
        | inl e ↦ rw e refl
        | inr e ↦ rw e refl
      ]
  add_checked-error host_allowed host port ip (some addr) (Dialed.ok rest) =
      elim (Bool-cases (passes (check_resolved_addr_for_host net policy addr host_allowed))) [
        | inl e ↦ rw e refl
        | inr e ↦ rw e refl
      ]

  not_empty-add_checked :
      (host_allowed : Bool) (host port ip : Text) (addr : Option Addr) (before : Dialed (List Text))
      → not_empty net host
          (codes "tcp")
          (add_checked net policy host_allowed (codes "tcp") host port ip addr before)
        ≡ add_checked net policy host_allowed (codes "tcp") host port ip addr before
  unfolding add_checked not_empty passes route_ip_matches_network text_elem text_eq
  not_empty-add_checked host_allowed host port ip none before = refl
  not_empty-add_checked host_allowed host port ip (some addr) (Dialed.failed err) =
      elim (Bool-cases (passes (check_resolved_addr_for_host net policy addr host_allowed))) [
        | inl e ↦ rw e refl
        | inr e ↦ rw e refl
      ]
  not_empty-add_checked host_allowed host port ip (some addr) (Dialed.ok rest) =
      elim (Bool-cases (passes (check_resolved_addr_for_host net policy addr host_allowed))) [
        | inl e ↦ rw e refl
        | inr e ↦ rw e refl
      ]

  check_ips-error :
      (host_allowed : Bool) (host port : Text) (ips : List Text)
      → error_of (check_ips net policy host_allowed (codes "tcp") host port ips)
        ≡ check_all host_allowed host ips
  unfolding check_ips check_all error_of
  check_ips-error host_allowed host port [] = refl
  check_ips-error host_allowed host port (ip ∷ ips) =
      add_checked-error host_allowed host port ip (parse_policy_addr net ip)
        (check_ips net policy host_allowed (codes "tcp") host port ips)
      ∙ ap (check_one host_allowed host ip (parse_policy_addr net ip))
          (check_ips-error host_allowed host port ips)

  check_resolved-error :
      (host_allowed : Bool) (host port : Text) (found : Option (List Text))
      → error_of (check_resolved net policy host_allowed (codes "tcp") host port found)
        ≡ check_looked_up host_allowed host found
  unfolding check_resolved check_looked_up error_of check_ips
  check_resolved-error host_allowed host port none = refl
  check_resolved-error host_allowed host port (some []) = refl
  check_resolved-error host_allowed host port (some (ip ∷ ips)) =
      ap error_of (
        not_empty-add_checked host_allowed host port ip (parse_policy_addr net ip)
          (check_ips net policy host_allowed (codes "tcp") host port ips))
      ∙ check_ips-error host_allowed host port (ip ∷ ips)

  check_parsed-error :
      (host_allowed : Bool) (host port : Text) (addr : Option Addr)
      → error_of (check_parsed net policy host_allowed (codes "tcp") host port addr)
        ≡ check_destination host_allowed host addr
  unfolding check_parsed check_destination error_of passes check_one
  check_parsed-error host_allowed host port none =
      check_resolved-error host_allowed host port (net.lookup host)
  check_parsed-error host_allowed host port (some addr) =
      elim (Bool-cases (passes (check_resolved_addr_for_host net policy addr host_allowed))) [
        | inl e ↦ rw e refl
        | inr e ↦ rw e refl
      ]

  -- The check of a redirect and the dialer agree: for every policy, resolver, host and port, the
  -- error of checkPolicyURLDestination on the host is the error of checkedDialAddresses on it for
  -- network tcp, and one has none exactly when the other has none.
  pub check_policy_url_destination-dial :
      (host port : Text)
      → check_policy_url_destination host
        ≡ error_of (checked_dial_addresses net policy (codes "tcp") host port)
  unfolding check_policy_url_destination checked_dial_addresses check_host normalize_host error_of
      passes gitops_dashboard.Prelude.Text.to_lower gitops_dashboard.Prelude.Text.trim_space
  check_policy_url_destination-dial [] port = refl
  check_policy_url_destination-dial (c ∷ s) port =
      elim (Bool-cases (passes (check_host net policy (c ∷ s)))) [
        | inl e ↦ rw e (sym (check_parsed-error _ (c ∷ s) port (parse_policy_addr net (c ∷ s))))
        | inr e ↦ rw e refl
      ]
