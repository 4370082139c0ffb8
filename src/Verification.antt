-- ===== src/Verification.antt =====
-- The check of accounts that sign up on their own by a parent company:
-- src/services/company/accountVerification.service.ts.
pub mod NationalId
pub mod Profile
pub mod Requests
pub mod Moves
pub mod Menus
pub mod Invites
