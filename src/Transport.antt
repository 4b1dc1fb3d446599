-- ===== src/Transport.antt =====
-- The transport sessions of agent/: each opens the signalling channel of a backend, exchanges AVDTP
-- requests over it, and closes it.
pub mod Backend
pub mod Configuration
pub mod Discovery
mod Tests
