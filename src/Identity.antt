-- ===== src/Identity.antt =====
-- backend/src/modules/identity-access: the accounts.
pub mod Users
