-- ===== src/Auth.antt =====
-- shared/auth/jwt.py: `Tokens` has the tokens over the jose package, `Session` the revocation and the
-- dependencies that admit a user, the other children the theorems.
pub mod Tokens
pub mod Session
pub mod Admission
pub mod Revoked
mod Examples
