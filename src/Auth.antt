-- ===== src/Auth.antt =====
-- Signing in: src/services/auth, with the keys of src/services/redis/redis.service.ts that it
-- keeps.
pub mod Keys
pub mod Review
pub mod Codes
pub mod Accounts
pub mod Sessions
pub mod Tokens
