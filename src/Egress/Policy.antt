-- ===== src/Egress/Policy.antt =====
-- internal/routetarget/policy.go. Package net/netip and the host of a URL are parameters; an error
-- of a rule is `none`.
use gitops_dashboard.Prelude.{
  ℕ, Bool, true, false, not, ◌&&◌, ◌||◌, List, [], ◌∷◌, ◌++◌, Option, none, some, ◌==◌,
  if◌then◌else◌, length, take, ◌-◌,
}
use gitops_dashboard.Prelude.Text.{Text, codes, is_empty, text_eq, has_suffix, trim_space, to_lower}
use gitops_dashboard.Prelude.Rows.{find_where}

-- What the program calls of packages net and net/netip; `host_prefix` is the prefix of one address,
-- `lookup` is the resolver, which gives the texts of the addresses.
pub record NetFunctions (Addr : Type 0) (Prefix : Type 0) : Type 0 where
  pub parse_addr : Text → Option Addr
  pub parse_prefix : Text → Option Prefix
  pub masked : Prefix → Prefix
  pub host_prefix : Addr → Prefix
  pub holds : Prefix → Addr → Bool
  pub addr_text : Addr → Text
  pub prefix_text : Prefix → Text
  pub unmap : Addr → Addr
  pub is_4 : Addr → Bool
  pub is_6 : Addr → Bool
  pub split_host_port : Text → Option (Text × Text)
  pub join_host_port : Text → Text → Text
  pub lookup : Text → Option (List Text)

-- `egressRule`, its kind as the constructor; the value of a domain rule is its domain.
pub data EgressRule (Prefix : Type 0) : Type 0 where
  domain : Text → EgressRule Prefix
  cidr : Text → Prefix → EgressRule Prefix

pub record EgressDecision : Type 0 where
  pub allowed : Bool
  pub rule : Text
  pub deferred : Bool

pub record EgressPolicyConfig : Type 0 where
  pub allow_domains : List Text
  pub allow_cidrs : List Text
  pub deny_domains : List Text
  pub deny_cidrs : List Text

pub record EgressPolicy (Prefix : Type 0) : Type 0 where
  pub allow_rules : List (EgressRule Prefix)
  pub deny_rules : List (EgressRule Prefix)
  pub default_deny_rules : List (EgressRule Prefix)
  pub has_allow_rules : Bool
  pub has_allow_domain_rules : Bool
  pub has_allow_cidr_rules : Bool

unfoldable pub trim_brackets_left : Text → Text
trim_brackets_left [] = []
trim_brackets_left (c ∷ s) = if c == b'[' || c == b']' then trim_brackets_left s else c ∷ s

abbrev trim_brackets_end : Bool → ℕ → Text → Text
trim_brackets_end true c [] = []
trim_brackets_end true c (d ∷ s) = c ∷ d ∷ s
trim_brackets_end false c s = c ∷ s

unfoldable pub trim_brackets_right : Text → Text
trim_brackets_right [] = []
trim_brackets_right (c ∷ s) = trim_brackets_end (c == b'[' || c == b']') c (trim_brackets_right s)

-- `strings.Trim(value, "[]")`.
unfoldable pub trim_brackets : Text → Text
unfolding trim_brackets_left trim_brackets_right
trim_brackets s = trim_brackets_right (trim_brackets_left s)

-- `normalizeHost`.
unfoldable pub normalize_host : Text → Text
unfolding trim_brackets
normalize_host host = to_lower (trim_brackets (trim_space host))

-- `strings.TrimSuffix(s, ".")`.
unfoldable pub trim_dot : Text → Text
trim_dot s = if has_suffix (codes ".") s then take (length s - 1) s else s

abbrev pub is_some : {A : Type 0} → Option A → Bool
is_some none = false
is_some (some x) = true

module _ {Addr : Type 0} {Prefix : Type 0} (net : NetFunctions Addr Prefix) where
  -- `matchesDomainRule`.
  unfoldable pub matches_domain_rule : Text → Text → Bool
  unfolding normalize_host trim_dot
  matches_domain_rule host name =
      let bare = trim_dot (normalize_host host) in
      if is_some (net.parse_addr host)
      then false
      else text_eq bare name || has_suffix (codes "." ++ name) bare

  -- A domain rule that matches the host, and a CIDR rule that holds the address.
  unfoldable pub is_domain_match : Text → EgressRule Prefix → Bool
  unfolding matches_domain_rule
  is_domain_match host (EgressRule.domain name) = matches_domain_rule host name
  is_domain_match host (EgressRule.cidr value prefix) = false

  unfoldable pub is_cidr_match : Addr → EgressRule Prefix → Bool
  is_cidr_match addr (EgressRule.domain name) = false
  is_cidr_match addr (EgressRule.cidr value prefix) = net.holds prefix addr

  -- `String` of a rule.
  unfoldable pub rule_text : EgressRule Prefix → Text
  rule_text (EgressRule.domain name) = codes "domain " ++ name
  rule_text (EgressRule.cidr value prefix) = codes "cidr " ++ value

  abbrev pub allow : Text → EgressDecision
  allow why = record { allowed = true; rule = why; deferred = false }

  abbrev pub deny : Text → EgressDecision
  deny why = record { allowed = false; rule = why; deferred = false }

  -- The decision of the first rule that matches, if there is one.
  unfoldable pub on_match :
      Option (EgressRule Prefix) → (Text → EgressDecision) → EgressDecision → EgressDecision
  unfolding rule_text
  on_match none decide later = later
  on_match (some rule) decide later = decide (rule_text rule)

  -- `CheckResolvedAddrForHost`.
  unfoldable pub check_resolved_addr_for_host : EgressPolicy Prefix → Addr → Bool → EgressDecision
  unfolding is_cidr_match on_match
  check_resolved_addr_for_host policy addr host_allowed =
      on_match (find_where (is_cidr_match addr) policy.deny_rules)
        (λ text. deny (codes "deny " ++ text))
        (on_match (find_where (is_cidr_match addr) policy.allow_rules)
          (λ text. allow (codes "allow " ++ text))
          (on_match (find_where (is_cidr_match addr) policy.default_deny_rules)
            (λ text. deny (codes "default deny " ++ text))
            (if policy.has_allow_cidr_rules && not host_allowed
              then deny (codes "no allow cidr rule matched")
              else allow [])))

  -- The branch of `CheckHost` for a host that is an address, and the one for a name.
  unfoldable pub check_host_addr : EgressPolicy Prefix → Addr → EgressDecision
  unfolding check_resolved_addr_for_host
  check_host_addr policy addr =
      let decision = check_resolved_addr_for_host policy addr false in
      if not decision.allowed
      then decision
      else if policy.has_allow_domain_rules && not policy.has_allow_cidr_rules
      then deny (codes "no allow rule matched")
      else decision

  unfoldable pub check_host_name : EgressPolicy Prefix → Text → EgressDecision
  unfolding is_domain_match on_match
  check_host_name policy host =
      on_match (find_where (is_domain_match host) policy.deny_rules)
        (λ text. deny (codes "deny " ++ text))
        (on_match (find_where (is_domain_match host) policy.allow_rules)
          (λ text. allow (codes "allow " ++ text))
          (if policy.has_allow_cidr_rules
            then record {
              allowed = false;
              rule = codes "cidr resolution required";
              deferred = true;
            }
            else if policy.has_allow_rules
            then deny (codes "no allow rule matched")
            else allow []))

  unfoldable pub check_host_as : EgressPolicy Prefix → Text → Option Addr → EgressDecision
  unfolding check_host_addr check_host_name
  check_host_as policy host none = check_host_name policy host
  check_host_as policy host (some addr) = check_host_addr policy addr

  -- `CheckHost`.
  unfoldable pub check_host : EgressPolicy Prefix → Text → EgressDecision
  unfolding normalize_host check_host_as
  check_host policy raw =
      let host = normalize_host raw in
      if is_empty host
      then deny (codes "invalid route")
      else check_host_as policy host (net.parse_addr host)
