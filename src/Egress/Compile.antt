-- ===== src/Egress/Compile.antt =====
-- internal/routetarget/policy.go: the policy that a configuration gives.
use gitops_dashboard.Prelude.{
  Bool, true, false, not, ◌||◌, List, [], ◌∷◌, ◌++◌, Option, none, some, if◌then◌else◌, drop, ◌>>=◌,
}
use gitops_dashboard.Prelude.Text.{Text, codes, is_empty, has_prefix, trim_space, to_lower}
use gitops_dashboard.Prelude.Strings.{has_byte}
use gitops_dashboard.Prelude.Rows.{exists_where}
use gitops_dashboard.Egress.Policy.{
  NetFunctions, EgressRule, EgressPolicyConfig, EgressPolicy, is_some, trim_dot,
}

-- `strings.TrimPrefix` of a constant of two bytes and of one.
abbrev trim_star_dot : Text → Text
trim_star_dot s = if has_prefix (codes "*.") s then drop 2 s else s

abbrev trim_first_dot : Text → Text
trim_first_dot s = if has_prefix (codes ".") s then drop 1 s else s

abbrev pub default_deny_cidrs : List Text
default_deny_cidrs = codes "169.254.0.0/16" ∷ codes "fe80::/10" ∷ []

abbrev is_nil : {A : Type 0} → List A → Bool
is_nil [] = true
is_nil (x ∷ xs) = false

module _ {Addr : Type 0} {Prefix : Type 0} (net : NetFunctions Addr Prefix) where
  -- `normalizeDomainRule`.
  unfoldable pub normalize_domain_rule : Text → Option Text
  unfolding trim_dot
  normalize_domain_rule value =
      let name = trim_first_dot (trim_star_dot (trim_dot (to_lower (trim_space value)))) in
      if is_empty name
      then none
      else if has_byte b'/' name || has_byte b':' name || has_byte b'@' name
      then none
      else if is_some (net.parse_addr name)
      then none
      else some name

  unfoldable pub prefix_or_addr : Option Prefix → Option Addr → Option Prefix
  prefix_or_addr (some prefix) addr = some (net.masked prefix)
  prefix_or_addr none (some addr) = some (net.host_prefix addr)
  prefix_or_addr none none = none

  -- `parseCIDRRule`.
  unfoldable pub parse_cidr_rule : Text → Option Prefix
  unfolding prefix_or_addr
  parse_cidr_rule value =
      let range = trim_space value in prefix_or_addr (net.parse_prefix range) (net.parse_addr range)

  -- The two loops of `compileEgressRules`, the second with the rules of the first before it.
  unfoldable pub compile_cidrs : List Text → Option (List (EgressRule Prefix))
  unfolding parse_cidr_rule
  compile_cidrs [] = some []
  compile_cidrs (value ∷ values) = do
    prefix ← parse_cidr_rule value
    rules ← compile_cidrs values
    some (EgressRule.cidr (net.prefix_text prefix) prefix ∷ rules)

  unfoldable pub compile_domains : List Text → Option (List (EgressRule Prefix))
  unfolding normalize_domain_rule
  compile_domains [] = some []
  compile_domains (value ∷ values) = do
    name ← normalize_domain_rule value
    rules ← compile_domains values
    some (EgressRule.domain name ∷ rules)

  -- `compileEgressRules`.
  unfoldable pub compile_egress_rules : List Text → List Text → Option (List (EgressRule Prefix))
  unfolding compile_cidrs compile_domains
  compile_egress_rules domains cidrs = do
    named ← compile_domains domains
    ranges ← compile_cidrs cidrs
    some (named ++ ranges)

  unfoldable pub is_domain_rule : EgressRule Prefix → Bool
  is_domain_rule (EgressRule.domain name) = true
  is_domain_rule (EgressRule.cidr value prefix) = false

  -- `NewEgressPolicy`.
  unfoldable pub new_egress_policy : EgressPolicyConfig → Option (EgressPolicy Prefix)
  unfolding compile_egress_rules is_domain_rule
  new_egress_policy cfg = do
    allowed ← compile_egress_rules cfg.allow_domains cfg.allow_cidrs
    denied ← compile_egress_rules cfg.deny_domains cfg.deny_cidrs
    default_denied ← compile_egress_rules [] default_deny_cidrs
    some (record {
      allow_rules = allowed;
      deny_rules = denied;
      default_deny_rules = default_denied;
      has_allow_rules = not (is_nil allowed);
      has_allow_domain_rules = exists_where is_domain_rule allowed;
      has_allow_cidr_rules = exists_where (λ rule. not (is_domain_rule rule)) allowed;
    })
