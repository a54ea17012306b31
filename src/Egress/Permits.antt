-- ===== src/Egress/Permits.antt =====
-- What the dialer has checked of the addresses that it tries.
use gitops_dashboard.Prelude.{
  ◌≡◌, refl, sym, subst, Bool, true, false, not, ◌&&◌, List, [], ◌∷◌, Option, none, some,
  Bool-cases, inl, inr, ◌⊎◌, Elem,
}
use gitops_dashboard.Prelude.Text.{Text}
use gitops_dashboard.Prelude.Rows.{find_where, exists_where}
use gitops_dashboard.Egress.Policy.{
  NetFunctions, EgressRule, EgressPolicy, is_cidr_match, check_resolved_addr_for_host, on_match,
}
use gitops_dashboard.Egress.Dial.{
  Dialed, DialError, passes, route_ip_matches_network, parse_policy_addr, add_checked, check_ips,
  not_empty, check_resolved, check_parsed,
}

module _ {A : Type 0} where
  pub option_cases : (o : Option A) → (o ≡ none) ⊎ ((x : A) × (o ≡ some x))
  option_cases none = inl refl
  option_cases (some x) = inr (x, refl)

  find_where-none :
      (p : A → Bool) (xs : List A) → find_where p xs ≡ none → exists_where p xs ≡ false
  unfolding find_where exists_where
  find_where-none p [] h = refl
  find_where-none p (x ∷ xs) h = elim (Bool-cases (p x)) [
    | inl e ↦ cc (rw e at h)
    | inr e ↦ rw e (find_where-none p xs (rw e at h))
  ]

  find_where-found :
      (p : A → Bool) (x : A) (xs : List A) → find_where p xs ≡ some x → exists_where p xs ≡ true
  unfolding find_where exists_where
  find_where-found p x [] h = cc
  find_where-found p x (y ∷ xs) h = elim (Bool-cases (p y)) [
    | inl e ↦ rw e refl
    | inr e ↦ rw e (find_where-found p x xs (rw e at h))
  ]

module _ {Addr : Type 0} {Prefix : Type 0} (net : NetFunctions Addr Prefix)
    (policy : EgressPolicy Prefix) where
  -- What the rules permit, said without the order in which they are tried: no deny range holds the
  -- address, and an allow range holds it, or no default range does and the host was allowed by its
  -- name if there are allow ranges.
  unfoldable pub IsPermitted : Bool → Addr → Type 0
  unfolding is_cidr_match
  IsPermitted host_allowed addr =
      (exists_where (is_cidr_match net addr) policy.deny_rules ≡ false)
      × ((exists_where (is_cidr_match net addr) policy.allow_rules ≡ true)
          ⊎ ((exists_where (is_cidr_match net addr) policy.default_deny_rules ≡ false)
              × (policy.has_allow_cidr_rules && not host_allowed ≡ false)))

  pub passes-IsPermitted :
      (addr : Addr) (host_allowed : Bool)
      → passes (check_resolved_addr_for_host net policy addr host_allowed) ≡ true
      → IsPermitted host_allowed addr
  unfolding passes check_resolved_addr_for_host on_match IsPermitted
  passes-IsPermitted addr host_allowed h =
      let holds : EgressRule Prefix → Bool = is_cidr_match net addr in
      elim (option_cases (find_where holds policy.deny_rules)) [
        | inr (rule, e) ↦ let bad : false ≡ true = rw e at h in cc
        | inl denied ↦ (
          find_where-none holds policy.deny_rules denied,
          elim (option_cases (find_where holds policy.allow_rules)) [
            | inr (rule, e) ↦ inl (find_where-found holds rule policy.allow_rules e)
            | inl not_listed ↦ elim (option_cases (find_where holds policy.default_deny_rules)) [
              | inr (rule, e) ↦ let bad : false ≡ true = rw (denied, not_listed, e) at h in cc
              | inl clear ↦ inr (
                find_where-none holds policy.default_deny_rules clear,
                elim (Bool-cases (policy.has_allow_cidr_rules && not host_allowed)) [
                  | inr free ↦ free
                  | inl closed ↦
                      let bad : false ≡ true = rw (denied, not_listed, clear, closed) at h in cc
                ],
              )
            ]
          ],
        )
      ]

  -- An address that the program may connect to under a host and a port.
  abbrev pub IsChecked : Bool → Text → Text → Type 0
  IsChecked host_allowed port address =
      (addr : Addr) × (address ≡ net.join_host_port (net.addr_text addr) port)
      × IsPermitted host_allowed addr

  add_checked-IsChecked :
      (host_allowed : Bool) (network host port ip address : Text) (addr : Option Addr)
      (before : Dialed (List Text)) (addresses : List Text)
      → ((rest : List Text)
          → before ≡ Dialed.ok rest
          → Elem address rest
          → IsChecked host_allowed port address)
      → add_checked net policy host_allowed network host port ip addr before ≡ Dialed.ok addresses
      → Elem address addresses
      → IsChecked host_allowed port address
  unfolding passes add_checked
  add_checked-IsChecked host_allowed network host port ip address none before addresses ih h m =
      let bad : Dialed.failed (DialError.invalid_address host ip) ≡ Dialed.ok addresses = h in cc
  add_checked-IsChecked host_allowed network host port ip address (some addr) (Dialed.failed err)
        addresses ih h m =
      elim (Bool-cases (passes (check_resolved_addr_for_host net policy addr host_allowed))) [
        | inl e ↦ let bad : Dialed.failed err ≡ Dialed.ok addresses = rw e at h in cc
        | inr e ↦
            let bad : Dialed.failed (
                  DialError.route_policy_error
                    (check_resolved_addr_for_host net policy addr host_allowed).rule)
                ≡ Dialed.ok addresses =
              rw e at h in
            cc
      ]
  add_checked-IsChecked host_allowed network host port ip address (some addr) (Dialed.ok rest)
        addresses ih h m =
      elim (Bool-cases (passes (check_resolved_addr_for_host net policy addr host_allowed))) [
        | inr e ↦
            let bad : Dialed.failed (
                  DialError.route_policy_error
                    (check_resolved_addr_for_host net policy addr host_allowed).rule)
                ≡ Dialed.ok addresses =
              rw e at h in
            cc
        | inl e ↦ elim (Bool-cases (route_ip_matches_network net network addr)) [
          | inl fits ↦
              let added : Dialed.ok (net.join_host_port (net.addr_text addr) port ∷ rest)
                  ≡ Dialed.ok addresses =
                rw (e, fits) at h in
              let same : net.join_host_port (net.addr_text addr) port ∷ rest ≡ addresses = cc in
              elim (subst (λ xs. Elem address xs) (sym same) m) [
                | inl here ↦ (addr, here, passes-IsPermitted addr host_allowed e)
                | inr later ↦ ih rest refl later
              ]
          | inr other ↦
              let kept : Dialed.ok rest ≡ Dialed.ok addresses = rw (e, other) at h in
              let same : rest ≡ addresses = cc in
              ih rest refl (subst (λ xs. Elem address xs) (sym same) m)
        ]
      ]

  check_ips-IsChecked :
      (host_allowed : Bool) (network host port address : Text) (ips addresses : List Text)
      → check_ips net policy host_allowed network host port ips ≡ Dialed.ok addresses
      → Elem address addresses
      → IsChecked host_allowed port address
  unfolding check_ips
  check_ips-IsChecked host_allowed network host port address [] addresses h m =
      let same : [] ≡ addresses = cc in elim (subst (λ xs. Elem address xs) (sym same) m) [ ]
  check_ips-IsChecked host_allowed network host port address (ip ∷ ips) addresses h m =
      add_checked-IsChecked host_allowed network host port ip address (parse_policy_addr net ip)
        (check_ips net policy host_allowed network host port ips) addresses
        (λ rest e n. check_ips-IsChecked host_allowed network host port address ips rest e n) h m

  not_empty-eq :
      (host network : Text) (before : Dialed (List Text)) (addresses : List Text)
      → not_empty net host network before ≡ Dialed.ok addresses
      → before ≡ Dialed.ok addresses
  unfolding not_empty
  not_empty-eq host network (Dialed.failed err) addresses h = h
  not_empty-eq host network (Dialed.ok []) addresses h = cc
  not_empty-eq host network (Dialed.ok (a ∷ rest)) addresses h = h

  check_resolved-IsChecked :
      (host_allowed : Bool) (network host port address : Text) (ips : Option (List Text))
      (addresses : List Text)
      → check_resolved net policy host_allowed network host port ips ≡ Dialed.ok addresses
      → Elem address addresses
      → IsChecked host_allowed port address
  unfolding check_resolved
  check_resolved-IsChecked host_allowed network host port address none addresses h m =
      let bad : Dialed.failed DialError.lookup_failed ≡ Dialed.ok addresses = h in cc
  check_resolved-IsChecked host_allowed network host port address (some []) addresses h m =
      let bad : Dialed.failed (DialError.no_addresses host) ≡ Dialed.ok addresses = h in cc
  check_resolved-IsChecked host_allowed network host port address (some (ip ∷ ips)) addresses h m =
      check_ips-IsChecked host_allowed network host port address (ip ∷ ips) addresses
        (not_empty-eq host network _ addresses h) m

  pub check_parsed-IsChecked :
      (host_allowed : Bool) (network host port address : Text) (parsed : Option Addr)
      (addresses : List Text)
      → check_parsed net policy host_allowed network host port parsed ≡ Dialed.ok addresses
      → Elem address addresses
      → IsChecked host_allowed port address
  unfolding passes check_parsed
  check_parsed-IsChecked host_allowed network host port address none addresses h m =
      check_resolved-IsChecked host_allowed network host port address (net.lookup host) addresses h
        m
  check_parsed-IsChecked host_allowed network host port address (some addr) addresses h m =
      elim (Bool-cases (passes (check_resolved_addr_for_host net policy addr host_allowed))) [
        | inr e ↦
            let bad : Dialed.failed (
                  DialError.route_policy_error
                    (check_resolved_addr_for_host net policy addr host_allowed).rule)
                ≡ Dialed.ok addresses =
              rw e at h in
            cc
        | inl e ↦
            let given : Dialed.ok (net.join_host_port (net.addr_text addr) port ∷ [])
                ≡ Dialed.ok addresses =
              rw e at h in
            let same : net.join_host_port (net.addr_text addr) port ∷ [] ≡ addresses = cc in
            elim (subst (λ xs. Elem address xs) (sym same) m) [
              | inl here ↦ (addr, here, passes-IsPermitted addr host_allowed e)
              | inr later ↦ elim later [ ]
            ]
      ]
