-- ===== src/Tailscale.antt =====
-- internal/tailscale/client.go: what `tailscale serve status --json` says of a port, and the commands
-- that change it.
pub mod Search
pub mod Client
pub mod Public
