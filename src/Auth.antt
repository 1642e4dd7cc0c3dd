-- ===== src/Auth.antt =====
-- apps/api/internal/auth: the sessions and the credentials behind identity.
pub mod Session
pub mod Token
pub mod Recovery
pub mod Envelope
pub mod Totp
pub mod Password
mod Tests
