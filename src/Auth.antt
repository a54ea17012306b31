-- ===== src/Auth.antt =====
-- internal/auth/auth.go: who may call the server, and for which targets an agent may report.
pub mod Access
pub mod Binding
pub mod Own
