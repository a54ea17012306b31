-- ===== src/Egress/Defaults.antt =====
-- The ranges that are denied unless the configuration allows them.
use gitops_dashboard.Prelude.{
  ◌≡◌, refl, sym, ap, ◌∙◌, subst, Bool, true, false, List, [], ◌∷◌, Option, none, some, ◌>>=◌, inl,
  inr, Elem, or_true, true_or,
}
use gitops_dashboard.Prelude.Text.{Text}
use gitops_dashboard.Prelude.Rows.{exists_where}
use gitops_dashboard.Egress.Policy.{
  NetFunctions, EgressRule, EgressPolicyConfig, EgressPolicy, is_cidr_match,
  check_resolved_addr_for_host,
}
use gitops_dashboard.Egress.Compile.{
  parse_cidr_rule, compile_cidrs, compile_egress_rules, default_deny_cidrs, new_egress_policy,
}
use gitops_dashboard.Egress.Dial.{passes}
use gitops_dashboard.Egress.Permits.{IsPermitted, passes-IsPermitted}

-- A result of a chain comes from a result of its first step.
from_bind :
    {A B : Type 0} (o : Option A) (f : A → Option B) (y : B)
    → (o >>= f) ≡ some y
    → (x : A) × (o ≡ some x) × (f x ≡ some y)
from_bind none f y h = let bad : none ≡ some y = h in cc
from_bind (some x) f y h = (x, refl, h)

module _ {Addr : Type 0} {Prefix : Type 0} (net : NetFunctions Addr Prefix) where
  compile_cidrs-holds :
      (values : List Text) (rules : List (EgressRule Prefix)) (value : Text) (prefix : Prefix)
      (addr : Addr)
      → compile_cidrs net values ≡ some rules
      → Elem value values
      → parse_cidr_rule net value ≡ some prefix
      → net.holds prefix addr ≡ true
      → exists_where (is_cidr_match net addr) rules ≡ true
  unfolding compile_cidrs exists_where is_cidr_match
  compile_cidrs-holds [] rules value prefix addr h m parsed held = elim m [ ]
  compile_cidrs-holds (v ∷ values) rules value prefix addr h m parsed held =
      let (range, one, e) = from_bind (parse_cidr_rule net v) _ rules h in
      let (others, two, f) = from_bind (compile_cidrs net values) _ rules e in
      let made : EgressRule.cidr (net.prefix_text range) range ∷ others ≡ rules = cc in
      subst (λ rs. exists_where (is_cidr_match net addr) rs ≡ true) made
        (elim m [
          | inl same ↦
              let joined : some prefix ≡ some range =
                sym parsed ∙ ap (parse_cidr_rule net) same ∙ one in
              let found : prefix ≡ range = cc in
              true_or (net.holds range addr) _ (subst (λ r. net.holds r addr ≡ true) found held)
          | inr later ↦
              or_true (net.holds range addr) _
                (compile_cidrs-holds values others value prefix addr two later parsed held)
        ])

  default_rules_of : Option (EgressPolicy Prefix) → List (EgressRule Prefix)
  default_rules_of none = []
  default_rules_of (some policy) = policy.default_deny_rules

  new_egress_policy-default_rules :
      (cfg : EgressPolicyConfig) (policy : EgressPolicy Prefix)
      → new_egress_policy net cfg ≡ some policy
      → compile_cidrs net default_deny_cidrs ≡ some policy.default_deny_rules
  unfolding new_egress_policy compile_egress_rules default_rules_of
  new_egress_policy-default_rules cfg policy made =
      let (allowed, one, e) =
        from_bind (compile_egress_rules net cfg.allow_domains cfg.allow_cidrs) _ policy made in
      let (denied, two, f) =
        from_bind (compile_egress_rules net cfg.deny_domains cfg.deny_cidrs) _ policy e in
      let (defaults, three, g) =
        from_bind (compile_egress_rules net [] default_deny_cidrs) _ policy f in
      let (ranges, four, i) = from_bind (compile_cidrs net default_deny_cidrs) _ defaults three in
      four ∙ i ∙ ap some (ap default_rules_of g)

  -- In the policy that any configuration gives, an address that lies in one of the default deny
  -- ranges (169.254.0.0/16 and fe80::/10, as they are parsed) passes the check of resolved
  -- addresses only if an allow range of the configuration holds it, whatever domains are allowed
  -- and whether or not the host was.
  pub new_egress_policy-denies :
      (cfg : EgressPolicyConfig) (policy : EgressPolicy Prefix) (value : Text) (prefix : Prefix)
      (addr : Addr) (host_allowed : Bool)
      → new_egress_policy net cfg ≡ some policy
      → Elem value default_deny_cidrs
      → parse_cidr_rule net value ≡ some prefix
      → net.holds prefix addr ≡ true
      → passes (check_resolved_addr_for_host net policy addr host_allowed) ≡ true
      → exists_where (is_cidr_match net addr) policy.allow_rules ≡ true
  unfolding IsPermitted
  new_egress_policy-denies cfg policy value prefix addr host_allowed made m parsed held passed =
      let denied =
        compile_cidrs-holds default_deny_cidrs policy.default_deny_rules value prefix addr
          (new_egress_policy-default_rules cfg policy made) m parsed held in
      elim (passes-IsPermitted net policy addr host_allowed passed).1 [
        | inl listed ↦ listed
        | inr (clear, open_range) ↦ let bad : true ≡ false = sym denied ∙ clear in cc
      ]
