-- ===== src/Config.antt =====
-- The parts of internal/config/config.go that the modelled packages read.
use gitops_dashboard.Prelude.Text.{Text}

-- `config.DockerTarget`.
pub record DockerTarget : Type 0 where
  pub name : Text
  pub kind : Text
  pub agent_token : Text
