-- ===== src/Auth/Binding.antt =====
-- What an agent token binds to.
use gitops_dashboard.Prelude.{
  ◌≡◌, refl, sym, subst, Bool, true, false, not, ◌||◌, List, [], ◌∷◌, ◌⊎◌, inl, inr, Bool-cases,
  Elem, All, All-Elem, All-append, All-of_Elem, All-impl, some, is_nil, or_cases,
}
use gitops_dashboard.Prelude.Text.{
  Text, is_empty, insert_new, text_elem, text_eq, text_eq→eq, trim_space, Elem-insert_new,
  Elem-insert_new_self,
}
use gitops_dashboard.Prelude.Rows.{order_by, Elem-order_by, All-order_by}
use gitops_dashboard.Config.{DockerTarget}
use gitops_dashboard.Auth.Access.{
  AgentTokenRecord, agent_names, allows, authenticate, configured_targets, insert_all, is_agent,
  match_record, match_records, new_agent_token_authenticator, own_records, shared_records, text_le,
  token_equal, binding_of,
}

-- A record whose token is the given one and whose targets hold the given one.
abbrev pub Grants : (Text → Text) → Text → Text → AgentTokenRecord → Type 0
Grants sha256 token target r = (token_equal sha256 token r.token ≡ true) × Elem target r.targets

insert_new-cases : (a s : Text) (ts : List Text) → Elem a (insert_new s ts) → (a ≡ s) ⊎ Elem a ts
unfolding insert_new
insert_new-cases a s [] (inl e) = inl e
insert_new-cases a s [] (inr m) = inr m
insert_new-cases a s (t ∷ ts) m = elim (Bool-cases (text_eq s t)) [
  | inl e ↦ inr (rw e at m)
  | inr e ↦ later (insert_new-cases a s ts) (rw e at m)
]
  where
    later :
        (Elem a (insert_new s ts) → (a ≡ s) ⊎ Elem a ts)
        → Elem a (t ∷ insert_new s ts)
        → (a ≡ s) ⊎ Elem a (t ∷ ts)
    later ih (inl here) = inr (inl here)
    later ih (inr there) = elim (ih there) [ inl e ↦ inl e | inr m ↦ inr (inr m) ]

insert_all-cases :
    (a : Text) (xs ts : List Text) → Elem a (insert_all xs ts) → Elem a xs ⊎ Elem a ts
unfolding insert_all
insert_all-cases a [] ts m = inr m
insert_all-cases a (x ∷ xs) ts m = elim (insert_all-cases a xs (insert_new x ts) m) [
  | inl among ↦ inl (inr among)
  | inr rest ↦ elim (insert_new-cases a x ts rest) [ inl here ↦ inl (inl here) | inr old ↦ inr old ]
]

match_record-cases :
    (sha256 : Text → Text) (token target : Text) (r : AgentTokenRecord) (found : Bool × List Text)
    → Elem target (match_record sha256 token r found).1
    → Grants sha256 token target r ⊎ Elem target found.1
match_record-cases sha256 token target r (matched, seen) m =
    unfold match_record in
    elim (Bool-cases (token_equal sha256 token r.token)) [
      | inl same ↦ elim (insert_all-cases target r.targets seen (rw (same, match_record) at m)) [
        | inl own ↦ inl (same, own)
        | inr old ↦ inr old
      ]
      | inr other ↦ inr (rw (other, match_record) at m)
    ]

-- Every target that the loop finds is granted by a record, or was there before.
match_records-Grants :
    (sha256 : Text → Text) (token target : Text) (records : List AgentTokenRecord)
    (found : Bool × List Text)
    → Elem target (match_records sha256 token records found).1
    → ((r : AgentTokenRecord) × Elem r records × Grants sha256 token target r) ⊎ Elem target found.1
unfolding match_records
match_records-Grants sha256 token target [] found m = inr m
match_records-Grants sha256 token target (r ∷ records) found m =
    elim (match_records-Grants sha256 token target records (match_record sha256 token r found) m) [
      | inl (x, among, grant) ↦ inl (x, inr among, grant)
      | inr seen ↦ elim (match_record-cases sha256 token target r found seen) [
        | inl grant ↦ inl (r, inl refl, grant)
        | inr old ↦ inr old
      ]
    ]

text_elem→Elem : (s : Text) (ts : List Text) → text_elem s ts ≡ true → Elem s ts
unfolding text_elem
text_elem→Elem s [] h = cc
text_elem→Elem s (t ∷ ts) h = elim (or_cases (text_eq s t) _ h) [
  | inl e ↦ inl (text_eq→eq s t e)
  | inr m ↦ inr (text_elem→Elem s ts m)
]

binding_of-some :
    (found : Bool × List Text) (targets : List Text)
    → binding_of found ≡ some targets
    → found.1 ≡ targets
unfolding binding_of
binding_of-some (matched, seen) targets e = elim (Bool-cases (not matched || is_nil seen)) [
  | inl bad ↦ absurd (cc (rw bad at e))
  | inr good ↦ cc (rw good at e)
]

authenticate-Grants :
    (sha256 : Text → Text) (records : List AgentTokenRecord) (raw target : Text)
    (targets : List Text)
    → authenticate sha256 records raw ≡ some targets
    → Elem target targets
    → (r : AgentTokenRecord) × Elem r records × Grants sha256 (trim_space raw) target r
unfolding authenticate
authenticate-Grants sha256 records raw target targets e m =
    elim (Bool-cases (is_empty (trim_space raw))) [
      | inl blank ↦ absurd (cc (rw blank at e))
      | inr given ↦
          let same =
            binding_of-some (match_records sha256 (trim_space raw) records (false, [])) targets
              (rw given at e) in
          elim (match_records-Grants sha256 (trim_space raw) target records (false, [])
            (subst (λ x. Elem target x) (sym same) m)) [
              | inl granted ↦ granted
              | inr nothing ↦ elim nothing [ ]
            ]
    ]

-- The names of the configured agents.
agent_names-keeps :
    (a : Text) (seen : List Text) (docker : List DockerTarget)
    → Elem a seen
    → Elem a (agent_names seen docker)
unfolding agent_names
agent_names-keeps a seen [] m = m
agent_names-keeps a seen (t ∷ docker) m =
    elim (Bool-cases (not (is_agent t) || is_empty (trim_space t.name))) [
      | inl skipped ↦ rw skipped (agent_names-keeps a seen docker m)
      | inr named ↦ rw named (
          agent_names-keeps a (insert_new (trim_space t.name) seen) docker
            (Elem-insert_new a (trim_space t.name) seen m))
    ]

shared_records-targets :
    (names tokens : List Text)
    → All (λ r. (x : Text) → Elem x r.targets → Elem x names) (shared_records names tokens)
unfolding shared_records
shared_records-targets names [] = tt
shared_records-targets names (raw ∷ tokens) =
    elim (Bool-cases (is_empty (trim_space raw) || is_nil names)) [
      | inl skipped ↦ rw skipped (shared_records-targets names tokens)
      | inr kept ↦ rw kept ((λ x m. m), shared_records-targets names tokens)
    ]

own_records-targets :
    (docker : List DockerTarget) (seen : List Text)
    → All
        (λ r. (x : Text) → Elem x r.targets → Elem x (agent_names seen docker))
        (own_records docker)
unfolding own_records agent_names
own_records-targets [] seen = tt
own_records-targets (t ∷ docker) seen = elim (Bool-cases (is_agent t)) [
  | inr other ↦ rw other (own_records-targets docker seen)
  | inl agent ↦ elim (Bool-cases (is_empty (trim_space t.name))) [
    | inl nameless ↦ rw (agent, nameless) (own_records-targets docker seen)
    | inr named ↦ elim (Bool-cases (is_empty (trim_space t.agent_token))) [
      | inl tokenless ↦
          rw (agent, named, tokenless)
            (own_records-targets docker (insert_new (trim_space t.name) seen))
      | inr given ↦
          rw (agent, named, given)
            (
              (λ x m.
                  agent_names-keeps x (insert_new (trim_space t.name) seen) docker
                    (own (Elem-insert_new_self (trim_space t.name) seen) m)),
              own_records-targets docker (insert_new (trim_space t.name) seen),
            )
    ]
  ]
]
  where
    own :
        {x : Text}
        → Elem (trim_space t.name) (insert_new (trim_space t.name) seen)
        → Elem x (trim_space t.name ∷ [])
        → Elem x (insert_new (trim_space t.name) seen)
    own h (inl e) = rw e h
    own h (inr m) = elim m [ ]

Elem-order_by_back : (a : Text) (xs : List Text) → Elem a (order_by text_le xs) → Elem a xs
Elem-order_by_back a xs m =
    All-Elem (λ x. Elem x xs) a (order_by text_le xs)
      (All-order_by (λ x. Elem x xs) text_le xs (All-of_Elem _ xs (λ x k. k))) m

configured_records :
    (tokens : List Text) (docker : List DockerTarget)
    → All
        (λ r. (x : Text) → Elem x r.targets → Elem x (agent_names [] docker))
        (new_agent_token_authenticator tokens docker)
unfolding new_agent_token_authenticator configured_targets
configured_records tokens docker =
    All-append _ (shared_records (order_by text_le (agent_names [] docker)) tokens)
      (own_records docker)
      (All-impl _ _ (λ r h x m. Elem-order_by_back x _ (h x m)) _
        (shared_records-targets (order_by text_le (agent_names [] docker)) tokens))
      (own_records-targets docker [])

-- If a presented token authenticates against the configuration and its binding allows a target,
-- then the target is the name of a configured agent, and a record of the configuration whose token
-- has the digest of the presented one names it.
pub authenticate-allows :
    (sha256 : Text → Text) (tokens : List Text) (docker : List DockerTarget) (raw target : Text)
    (binding : List Text)
    → authenticate sha256 (new_agent_token_authenticator tokens docker) raw ≡ some binding
    → allows binding target ≡ true
    → Elem (trim_space target) (configured_targets docker)
      × ((r : AgentTokenRecord) × Elem r (new_agent_token_authenticator tokens docker)
          × Grants sha256 (trim_space raw) (trim_space target) r)
unfolding allows configured_targets
authenticate-allows sha256 tokens docker raw target binding e h =
    let (r, among, grant) =
      authenticate-Grants sha256 (new_agent_token_authenticator tokens docker) raw
        (trim_space target) binding e (text_elem→Elem (trim_space target) binding h) in
    (
      Elem-order_by text_le (trim_space target) (agent_names [] docker)
          (All-Elem _ r _ (configured_records tokens docker) among (trim_space target) grant.1),
      (r, among, grant),
    )
