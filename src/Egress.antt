-- ===== src/Egress.antt =====
-- internal/routetarget/policy.go and the dialer of internal/monitor/http_route_policy.go: which
-- addresses the probes of HTTP routes connect to.
pub mod Policy
pub mod Dial
pub mod Permits
pub mod Reached
pub mod Compile
pub mod Defaults
pub mod Redirect
