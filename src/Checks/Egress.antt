-- ===== src/Checks/Egress.antt =====
-- The theorem on the dialer at a small network of numbered addresses.
use gitops_dashboard.Prelude.{
  ℕ, zero, suc, ◌≡◌, refl, Bool, true, false, List, [], ◌∷◌, Option, none, some, ◌==◌,
  if◌then◌else◌, ap,
}
use gitops_dashboard.Prelude.Text.{Text, codes, text_eq, decimal}
use gitops_dashboard.Egress.Policy.{NetFunctions, EgressPolicy, EgressRule}
use gitops_dashboard.Egress.Dial.{Attempt, dial_context}
use gitops_dashboard.Egress.Reached.{IsReached, dial_context-IsReached}
use gitops_dashboard.Prelude.{inl, inr}
use gitops_dashboard.Prelude.Rows.{exists_where}
use gitops_dashboard.Egress.Policy.{EgressPolicyConfig, is_cidr_match}
use gitops_dashboard.Egress.Defaults.{new_egress_policy-denies}
use gitops_dashboard.Egress.Dial.{checked_dial_addresses}
use gitops_dashboard.Egress.Redirect.{
  error_of, check_policy_url_destination, check_policy_url_destination-dial,
}

-- Addresses are numbers of one digit and prefixes are lists of them; every name resolves to 1 and 2.
abbrev digit : Text → Option ℕ
digit [] = none
digit (c ∷ []) = if c == b'1' then some 1 else if c == b'2' then some 2 else none
digit (c ∷ d ∷ s) = none

abbrev small_net : NetFunctions ℕ ℕ
small_net = record {
  parse_addr = digit;
  parse_prefix = λ s. none;
  masked = λ p. p;
  host_prefix = λ a. a;
  holds = λ p a. p == a;
  addr_text = λ a. if a == 1 then codes "1" else codes "2";
  prefix_text = λ p. if p == 1 then codes "1" else codes "2";
  unmap = λ a. a;
  is_4 = λ a. a == 2;
  is_6 = λ a. a == 1;
  split_host_port = λ s. some (codes "web.example", codes "80");
  join_host_port = λ host port. host;
  lookup = λ host. some (codes "1" ∷ codes "2" ∷ []);
}

abbrev small_policy : EgressPolicy ℕ
small_policy = record {
  allow_rules = EgressRule.domain (codes "example") ∷ EgressRule.cidr (codes "1") 1 ∷ [];
  deny_rules = EgressRule.domain (codes "internal") ∷ [];
  default_deny_rules = [];
  has_allow_rules = true;
  has_allow_domain_rules = true;
  has_allow_cidr_rules = true;
}

abbrev small_dial : Text → Text → Attempt ℕ
small_dial network address =
    if text_eq address (codes "2") then Attempt.opened 7 else Attempt.refused (codes "refused")

dial_context-IsReached_example :
    (address : Text) × (small_dial (codes "tcp") address ≡ Attempt.opened 7)
    × IsReached small_net small_policy (codes "web.example:80") address
unfolding dial_context gitops_dashboard.Prelude.Text.to_lower
    gitops_dashboard.Prelude.Text.trim_space gitops_dashboard.Prelude.Rows.find_where text_eq
    gitops_dashboard.Prelude.Text.has_suffix gitops_dashboard.Prelude.Text.lower_byte
    gitops_dashboard.Prelude.Text.text_elem
dial_context-IsReached_example =
    dial_context-IsReached small_net small_policy small_dial (codes "tcp") (codes "web.example:80")
      7 refl

-- A network where the range 169.254.0.0/16 is the address 1, which the configuration allows.
abbrev local_net : NetFunctions ℕ ℕ
local_net = record {
  parse_addr = digit;
  parse_prefix = λ s. if text_eq s (codes "169.254.0.0/16") then some 1 else some 9;
  masked = λ p. p;
  host_prefix = λ a. a;
  holds = λ p a. p == a;
  addr_text = λ a. codes "1";
  prefix_text = λ p. codes "1";
  unmap = λ a. a;
  is_4 = λ a. true;
  is_6 = λ a. false;
  split_host_port = λ s. none;
  join_host_port = λ host port. host;
  lookup = λ host. none;
}

abbrev local_config : EgressPolicyConfig
local_config = record {
  allow_domains = [];
  allow_cidrs = codes " 169.254.0.0/16" ∷ [];
  deny_domains = [];
  deny_cidrs = [];
}

abbrev local_policy : EgressPolicy ℕ
local_policy = record {
  allow_rules = EgressRule.cidr (codes "1") 1 ∷ [];
  deny_rules = [];
  default_deny_rules = EgressRule.cidr (codes "1") 1 ∷ EgressRule.cidr (codes "1") 9 ∷ [];
  has_allow_rules = true;
  has_allow_domain_rules = false;
  has_allow_cidr_rules = true;
}

new_egress_policy-denies_example :
    exists_where (is_cidr_match local_net 1) local_policy.allow_rules ≡ true
unfolding gitops_dashboard.Egress.Compile.new_egress_policy
    gitops_dashboard.Egress.Policy.check_resolved_addr_for_host gitops_dashboard.Egress.Dial.passes
    gitops_dashboard.Prelude.Text.trim_space gitops_dashboard.Prelude.Rows.find_where text_eq
    exists_where
new_egress_policy-denies_example =
    new_egress_policy-denies local_net local_config local_policy (codes "169.254.0.0/16") 1 1 false
      refl (inl refl) refl refl refl

check_policy_url_destination-dial_example :
    check_policy_url_destination small_net small_policy (codes "web.example")
    ≡ error_of (
        checked_dial_addresses small_net small_policy
          (codes "tcp")
          (codes "web.example")
          (codes "80"))
check_policy_url_destination-dial_example =
    check_policy_url_destination-dial small_net small_policy (codes "web.example") (codes "80")
