-- ===== src/Auth/Access.antt =====
-- The definitions of internal/auth/auth.go. The packages crypto/sha256 and bcrypt are parameters; a
-- set of strings is a list in order of insertion.
use gitops_dashboard.Prelude.{
  Bool, true, false, not, ◌||◌, List, [], ◌∷◌, ◌++◌, Option, none, some, if◌then◌else◌, is_nil,
}
use gitops_dashboard.Prelude.Text.{
  Text, codes, is_empty, insert_new, text_elem, text_eq, text_lt, trim_space,
}
use gitops_dashboard.Prelude.Rows.{order_by}
use gitops_dashboard.Config.{DockerTarget}

-- `users` holds names with their password hashes, the last of a name first.
pub record BasicAuth : Type 0 where
  pub mode : Text
  pub users : List (Text × Text)

unfoldable pub new_users : List (Text × Text) → List (Text × Text) → List (Text × Text)
new_users seen [] = seen
new_users seen (user ∷ users) = new_users (user ∷ seen) users

-- `New`.
unfoldable pub new_basic_auth : Text → List (Text × Text) → BasicAuth
new_basic_auth mode users = record { mode = mode; users = new_users [] users }

unfoldable pub password_hash : Text → List (Text × Text) → Option Text
password_hash username [] = none
password_hash username ((name, hash) ∷ users) =
    if text_eq name username then some hash else password_hash username users

-- `valid`; `compare hash password` is whether `bcrypt.CompareHashAndPassword` gives no error.
unfoldable pub valid : (Text → Text → Bool) → BasicAuth → Text → Text → Bool
valid compare auth username password = elim (password_hash username auth.users) [
  | none ↦ false
  | some hash ↦ compare hash password
]

unfoldable pub is_public_path : Text → Bool
is_public_path path =
    text_eq path (codes "/healthz")
    || text_eq path (codes "/readyz")
    || text_eq path (codes "/api/agents/connect")

-- Whether `Middleware` hands a request on, `credentials` being those of `r.BasicAuth()`.
unfoldable pub admits : (Text → Text → Bool) → BasicAuth → Text → Option (Text × Text) → Bool
admits compare auth path credentials =
    if text_eq auth.mode (codes "dev-no-auth") || is_public_path path
    then true
    else elim credentials [
      | none ↦ false
      | some (username, password) ↦ valid compare auth username password
    ]

pub record AgentTokenRecord : Type 0 where
  pub token : Text
  pub targets : List Text

abbrev pub is_agent : DockerTarget → Bool
is_agent target = text_eq target.kind (codes "agent")

-- The loop of `configuredAgentTargets`; `seen` holds the names so far.
unfoldable pub agent_names : List Text → List DockerTarget → List Text
agent_names seen [] = seen
agent_names seen (target ∷ targets) =
    let name = trim_space target.name in
    if not (is_agent target) || is_empty name
    then agent_names seen targets
    else agent_names (insert_new name seen) targets

abbrev pub text_le : Text → Text → Bool
text_le s t = text_lt s t || text_eq s t

-- `configuredAgentTargets` of the package auth.
unfoldable pub configured_targets : List DockerTarget → List Text
configured_targets targets = order_by text_le (agent_names [] targets)

-- The records of the tokens for all targets.
unfoldable pub shared_records : List Text → List Text → List AgentTokenRecord
shared_records targets [] = []
shared_records targets (raw ∷ tokens) =
    let token = trim_space raw in
    if is_empty token || is_nil targets
    then shared_records targets tokens
    else record { token = token; targets = targets } ∷ shared_records targets tokens

-- The records of the tokens of one target.
unfoldable pub own_records : List DockerTarget → List AgentTokenRecord
own_records [] = []
own_records (target ∷ targets) =
    let name = trim_space target.name in
    let token = trim_space target.agent_token in
    if not (is_agent target) || is_empty name || is_empty token
    then own_records targets
    else record { token = token; targets = name ∷ [] } ∷ own_records targets

-- `NewAgentTokenAuthenticator`, from `cfg.Auth.Agent.Tokens` and `cfg.Runtime.Docker`.
unfoldable pub new_agent_token_authenticator : List Text → List DockerTarget → List AgentTokenRecord
new_agent_token_authenticator tokens docker =
    shared_records (configured_targets docker) tokens ++ own_records docker

-- `constantTimeStringEqual`.
abbrev pub token_equal : (Text → Text) → Text → Text → Bool
token_equal sha256 candidate configured = text_eq (sha256 candidate) (sha256 configured)

-- `targets[target] = struct{}{}` for each target.
unfoldable pub insert_all : List Text → List Text → List Text
insert_all [] seen = seen
insert_all (target ∷ targets) seen = insert_all targets (insert_new target seen)

-- A turn of the loop of `Authenticate`: whether a record matched, and the targets so far.
unfoldable pub match_record :
    (Text → Text) → Text → AgentTokenRecord → Bool × List Text → Bool × List Text
match_record sha256 token r (matched, targets) =
    if token_equal sha256 token r.token
    then (true, insert_all r.targets targets)
    else (matched, targets)

unfoldable pub match_records :
    (Text → Text) → Text → List AgentTokenRecord → Bool × List Text → Bool × List Text
match_records sha256 token [] found = found
match_records sha256 token (r ∷ records) found =
    match_records sha256 token records (match_record sha256 token r found)

unfoldable pub binding_of : Bool × List Text → Option (List Text)
binding_of (matched, targets) = if not matched || is_nil targets then none else some targets

-- `Authenticate`: the targets of the binding.
unfoldable pub authenticate : (Text → Text) → List AgentTokenRecord → Text → Option (List Text)
authenticate sha256 records raw =
    let token = trim_space raw in
    if is_empty token then none else binding_of (match_records sha256 token records (false, []))

-- `Allows`.
unfoldable pub allows : List Text → Text → Bool
allows binding target = text_elem (trim_space target) binding

-- `Targets`.
unfoldable pub binding_targets : List Text → List Text
binding_targets binding = order_by text_le binding
