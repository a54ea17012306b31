-- ===== src/Checks/Others.antt =====
-- The theorems on the other packages at concrete inputs.
use gitops_dashboard.Prelude.{
  none, ◌≡◌, ◌≢◌, refl, true, false, List, [], ◌∷◌, some, arith, Elem, All, inl,
}
use gitops_dashboard.Prelude.Text.{
  Text, codes, is_empty, contains, text_eq, trim_space, insert_new, text_elem, trim_left,
  trim_right, is_space,
}
use gitops_dashboard.Sanitizer.{redact, redacted}
use gitops_dashboard.Sanitizer.Secrets.{Avoids, redact-hides}
use gitops_dashboard.Config.{DockerTarget}
use gitops_dashboard.Evaluator.Types.{
  TimeFormat, AgentBaseline, ScanBaseline, AgentInfo, TerminalScan,
}
use gitops_dashboard.Evaluator.Handlers.{Surroundings, evaluate_agent, evaluate_scan}
use gitops_dashboard.Evaluator.Phases.{Notice, alternate, awaits_failure}
use gitops_dashboard.Evaluator.Runs.{Sends, agent_run-alternates}
use gitops_dashboard.Evaluator.Effects.{agent_phase, AgentEvaluated, ScanEvaluated}
use gitops_dashboard.Evaluator.Agents.{evaluate_agent-refines}
use gitops_dashboard.Evaluator.Scans.{evaluate_scan-refines}
use gitops_dashboard.Auth.Access.{
  is_agent, AgentTokenRecord, authenticate, allows, configured_targets,
  new_agent_token_authenticator, own_records, shared_records, agent_names, match_records,
  match_record, insert_all, binding_of,
}
use gitops_dashboard.Auth.Own.{authenticate-own}
use gitops_dashboard.Auth.Binding.{Grants, authenticate-allows}
use gitops_dashboard.Version.Parse.{
  Version, parse_version, read_number, read_dotted, after_byte, span_digits, digits_value,
}
use gitops_dashboard.Version.Allocate.{
  Tag, Bump, less, incrementable, next_version, allocate_version, scan_tags, scan_tag,
  source_tag_matches_bump, shape_matches,
}
use gitops_dashboard.Version.Newest.{allocate_version-above, allocate_version-rerun}
use gitops_dashboard.Checks.Samples.{sample_hashes, sample_env, sample_store, no_tables}

abbrev secret : Text
secret = codes "xx"

given_secret : is_empty (trim_space secret) ≡ false
unfolding trim_space
given_secret = refl

byte_avoids : All (λ d. 120 ≢ d) redacted
byte_avoids = (
  (λ e. omega arith),
  (
    (λ e. omega arith),
    (
      (λ e. omega arith),
      (
        (λ e. omega arith),
        (
          (λ e. omega arith),
          (
            (λ e. omega arith),
            (
              (λ e. omega arith),
              ((λ e. omega arith), ((λ e. omega arith), ((λ e. omega arith), tt))),
            ),
          ),
        ),
      ),
    ),
  ),
)

secret-Avoids : Avoids (trim_space secret) redacted
unfolding trim_space
secret-Avoids = (byte_avoids, (byte_avoids, tt))

redact-hides_example : contains (trim_space secret) (redact (secret ∷ []) (codes "key xx")) ≡ false
redact-hides_example =
    redact-hides (secret ∷ []) secret (codes "key xx") (inl refl) given_secret secret-Avoids

abbrev sample_times : TimeFormat
sample_times = record { parse = λ s. some 500; format = λ n. codes "now" }

abbrev around : Surroundings
around = record {
  clock = 1000;
  hashes = sample_hashes;
  times = sample_times;
  env = sample_env;
  sinks = codes "s" ∷ [];
  cooldown = 0;
}

abbrev online_agent : AgentBaseline
online_agent = record { established = true; online = true; offline_handled = false }

abbrev report : AgentInfo
report = record { target = codes "a"; stale_after = codes "x"; last_seen_at = codes "y" }

evaluate_agent-refines_example :
    AgentEvaluated around
      (codes "a")
      online_agent
      (sample_store no_tables)
      (evaluate_agent around (codes "a") (some report) online_agent (sample_store no_tables))
evaluate_agent-refines_example =
    evaluate_agent-refines around (codes "a") (some report) online_agent (sample_store no_tables)
      refl

agent_run-alternates_example :
    (ns : List Notice) × Sends
      (codes "a")
      ((around, some report) ∷ (around, none) ∷ [])
      online_agent
      (sample_store no_tables)
      ns
    × (alternate (awaits_failure (agent_phase online_agent)) ns ≡ true)
agent_run-alternates_example =
    agent_run-alternates (codes "a") ((around, some report) ∷ (around, none) ∷ []) online_agent
      (sample_store no_tables) refl

abbrev failed_scan : ScanBaseline
failed_scan = record { established = true; is_ok = false; failure_handled = true }

abbrev good_scan : TerminalScan
good_scan = record { repository = codes "r"; id = 7; status = codes "ok"; error = [] }

evaluate_scan-refines_example :
    ScanEvaluated around
      (codes "r")
      failed_scan
      (sample_store no_tables)
      (evaluate_scan around (codes "r") (some good_scan) failed_scan (sample_store no_tables))
evaluate_scan-refines_example =
    evaluate_scan-refines around (codes "r") (some good_scan) failed_scan (sample_store no_tables)
      refl

abbrev docker : List DockerTarget
docker = record { name = codes "a"; kind = codes "agent"; agent_token = codes "t" } ∷ []

authenticated :
    authenticate (λ s. s) (new_agent_token_authenticator [] docker) (codes "t")
    ≡ some (codes "a" ∷ [])
unfolding authenticate new_agent_token_authenticator own_records shared_records configured_targets
    agent_names match_records match_record insert_all insert_new binding_of text_eq trim_space
authenticated = refl

allowed : allows (codes "a" ∷ []) (codes "a") ≡ true
unfolding allows text_elem text_eq trim_space
allowed = refl

authenticate-allows_example :
    Elem (trim_space (codes "a")) (configured_targets docker)
    × ((r : AgentTokenRecord) × Elem r (new_agent_token_authenticator [] docker)
        × Grants (λ s. s) (trim_space (codes "t")) (trim_space (codes "a")) r)
authenticate-allows_example =
    authenticate-allows (λ s. s) [] docker (codes "t") (codes "a") (codes "a" ∷ []) authenticated
      allowed

abbrev own_agent : DockerTarget
own_agent = record { name = codes "a"; kind = codes "agent"; agent_token = codes "t" }

is_own_agent : is_agent own_agent ≡ true
unfolding text_eq
is_own_agent = refl

own_name : is_empty (trim_space (codes "a")) ≡ false
unfolding trim_space trim_left trim_right is_space
own_name = refl

own_token : is_empty (trim_space (codes "t")) ≡ false
unfolding trim_space trim_left trim_right is_space
own_token = refl

authenticate-own_example :
    (binding : List Text) × (authenticate
        (λ s. s)
        (new_agent_token_authenticator (codes "g" ∷ []) docker)
        (codes "t")
      ≡ some binding)
    × (allows binding (codes "a") ≡ true)
authenticate-own_example =
    authenticate-own (λ s. s) (codes "g" ∷ []) docker own_agent (inl refl) is_own_agent own_name
      own_token

abbrev old_tag : Tag
old_tag = record { name = codes "v1.2.3"; commit = codes "b" }

abbrev old_version : Version
old_version = record { major = 1; minor = 2; patch = 3 }

abbrev new_version : Version
new_version = record { major = 1; minor = 3; patch = 0 }

parsed_old : parse_version (codes "v1.2.3") ≡ some old_version
unfolding parse_version read_number read_dotted after_byte span_digits digits_value
parsed_old = refl

parsed_new : parse_version (codes "v1.3.0") ≡ some new_version
unfolding parse_version read_number read_dotted after_byte span_digits digits_value
parsed_new = refl

allocated : allocate_version (old_tag ∷ []) (codes "c") Bump.minor ≡ some (new_version, false)
unfolding allocate_version scan_tags scan_tag parse_version read_number read_dotted after_byte
    span_digits digits_value less incrementable next_version source_tag_matches_bump shape_matches
    text_eq
allocated = refl

counted : incrementable old_version Bump.minor ≡ true
unfolding incrementable
counted = refl

allocate_version-above_example : less old_version new_version ≡ true
allocate_version-above_example =
    allocate_version-above (old_tag ∷ []) (codes "c") Bump.minor new_version old_version old_tag
      allocated (inl refl) parsed_old counted

allocate_version-rerun_example :
    allocate_version
      (old_tag ∷ record { name = codes "v1.3.0"; commit = codes "c" } ∷ [])
      (codes "c")
      Bump.minor
    ≡ some (new_version, true)
allocate_version-rerun_example =
    allocate_version-rerun (old_tag ∷ []) (codes "c") Bump.minor new_version (codes "v1.3.0")
      allocated parsed_new
