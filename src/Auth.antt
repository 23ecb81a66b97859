-- ===== src/Auth.antt =====
-- Local credentials and sessions (packages/auth/native.py).
pub mod Throttle
pub mod Sessions
pub mod Login
mod Tests
