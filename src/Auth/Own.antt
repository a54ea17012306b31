-- ===== src/Auth/Own.antt =====
-- The token that the configuration gives an agent.
use gitops_dashboard.Prelude.{
  ◌≡◌, refl, subst, Bool, true, false, not, ◌||◌, List, [], ◌∷◌, ◌++◌, inl, inr, Bool-cases, Elem,
  some, is_nil, true_or, or_true,
}
use gitops_dashboard.Prelude.Text.{
  Text, is_empty, insert_new, text_elem, text_eq, text_eq_refl, trim_space, Elem-insert_new,
  Elem-insert_new_self,
}
use gitops_dashboard.Config.{DockerTarget}
use gitops_dashboard.Auth.Access.{
  AgentTokenRecord, allows, authenticate, binding_of, insert_all, is_agent, match_record,
  match_records, new_agent_token_authenticator, own_records, shared_records, configured_targets,
  token_equal,
}

insert_all-keeps : (a : Text) (xs ts : List Text) → Elem a ts → Elem a (insert_all xs ts)
unfolding insert_all
insert_all-keeps a [] ts m = m
insert_all-keeps a (x ∷ xs) ts m =
    insert_all-keeps a xs (insert_new x ts) (Elem-insert_new a x ts m)

-- What a match holds: a record matched, and a target is among the targets.
abbrev Holds : Text → Bool × List Text → Type 0
Holds a found = (found.0 ≡ true) × Elem a found.1

match_record-keeps :
    (sha256 : Text → Text) (token a : Text) (r : AgentTokenRecord) (found : Bool × List Text)
    → Holds a found
    → Holds a (match_record sha256 token r found)
match_record-keeps sha256 token a r (matched, seen) (hit, m) =
    unfold match_record in
    elim (Bool-cases (token_equal sha256 token r.token)) [
      | inl same ↦ rw (same, match_record) (refl, insert_all-keeps a r.targets seen m)
      | inr other ↦ rw (other, match_record) (hit, m)
    ]

match_records-keeps :
    (sha256 : Text → Text) (token a : Text) (records : List AgentTokenRecord)
    (found : Bool × List Text)
    → Holds a found
    → Holds a (match_records sha256 token records found)
unfolding match_records
match_records-keeps sha256 token a [] found h = h
match_records-keeps sha256 token a (r ∷ records) found h =
    match_records-keeps sha256 token a records (match_record sha256 token r found)
      (match_record-keeps sha256 token a r found h)

match_record-own :
    (sha256 : Text → Text) (token a : Text) (found : Bool × List Text)
    → Holds a (match_record sha256 token (record { token = token; targets = a ∷ [] }) found)
unfolding match_record insert_all
match_record-own sha256 token a (matched, seen) =
    rw (text_eq_refl (sha256 token)) (refl, Elem-insert_new_self a seen)

-- A record of the token finds its target, wherever it stands.
match_records-own :
    (sha256 : Text → Text) (token a : Text) (records : List AgentTokenRecord)
    (found : Bool × List Text)
    → Elem (record { token = token; targets = a ∷ [] }) records
    → Holds a (match_records sha256 token records found)
unfolding match_records
match_records-own sha256 token a [] found m = elim m [ ]
match_records-own sha256 token a (r ∷ records) found (inl e) =
    match_records-keeps sha256 token a records (match_record sha256 token r found) (
      subst (λ x. Holds a (match_record sha256 token x found)) e
        (match_record-own sha256 token a found))
match_records-own sha256 token a (r ∷ records) found (inr m) =
    match_records-own sha256 token a records (match_record sha256 token r found) m

Elem-append_right {ℓ} : {A : Type ℓ} (x : A) (xs ys : List A) → Elem x ys → Elem x (xs ++ ys)
Elem-append_right x [] ys m = m
Elem-append_right x (y ∷ xs) ys m = inr (Elem-append_right x xs ys m)

own_records-Elem :
    (t : DockerTarget) (docker : List DockerTarget)
    → Elem t docker
    → is_agent t ≡ true
    → is_empty (trim_space t.name) ≡ false
    → is_empty (trim_space t.agent_token) ≡ false
    → Elem
        (record { token = trim_space t.agent_token; targets = trim_space t.name ∷ [] })
        (own_records docker)
unfolding own_records
own_records-Elem t [] m agent named given = elim m [ ]
own_records-Elem t (x ∷ docker) (inl e) agent named given =
    subst
      (λ y.
        Elem (record { token = trim_space t.agent_token; targets = trim_space t.name ∷ [] })
          (own_records (y ∷ docker)))
      e (rw (agent, named, given) (inl refl))
own_records-Elem t (x ∷ docker) (inr m) agent named given =
    elim (Bool-cases
      (not (is_agent x) || is_empty (trim_space x.name) || is_empty (trim_space x.agent_token))) [
        | inl skipped ↦ rw skipped (own_records-Elem t docker m agent named given)
        | inr kept ↦ rw kept (inr (own_records-Elem t docker m agent named given))
      ]

not_nil_of_Elem : (a : Text) (ts : List Text) → Elem a ts → is_nil ts ≡ false
not_nil_of_Elem a [] m = elim m [ ]
not_nil_of_Elem a (t ∷ ts) m = refl

text_elem_of : (a : Text) (ts : List Text) → Elem a ts → text_elem a ts ≡ true
unfolding text_elem
text_elem_of a [] m = elim m [ ]
text_elem_of a (t ∷ ts) (inl e) = true_or (text_eq a t) _ (rw e (text_eq_refl t))
text_elem_of a (t ∷ ts) (inr m) = or_true (text_eq a t) _ (text_elem_of a ts m)

-- The token that the configuration gives an agent, if its trimmed name and token are not empty,
-- authenticates, and its binding allows the agent's name, whatever the other tokens are.
pub authenticate-own :
    (sha256 : Text → Text) (tokens : List Text) (docker : List DockerTarget) (t : DockerTarget)
    → Elem t docker
    → is_agent t ≡ true
    → is_empty (trim_space t.name) ≡ false
    → is_empty (trim_space t.agent_token) ≡ false
    → (binding : List Text) × (authenticate sha256
          (new_agent_token_authenticator tokens docker)
          t.agent_token
        ≡ some binding)
      × (allows binding t.name ≡ true)
unfolding authenticate allows new_agent_token_authenticator binding_of
authenticate-own sha256 tokens docker t m agent named given =
    let records = shared_records (configured_targets docker) tokens ++ own_records docker in
    let (hit, among) =
      match_records-own sha256 (trim_space t.agent_token) (trim_space t.name) records (false, [])
        (Elem-append_right _ (shared_records (configured_targets docker) tokens)
          (own_records docker) (own_records-Elem t docker m agent named given)) in
    (
      (match_records sha256 (trim_space t.agent_token) records (false, [])).1,
      rw given (rw (hit, not_nil_of_Elem (trim_space t.name) _ among) refl),
      text_elem_of (trim_space t.name) _ among,
    )
