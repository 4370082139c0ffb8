-- ===== src/Provisioning.antt =====
-- AccountProvisioningService (accountprovisioning.service.ts): an admin approves or rejects a
-- payment. `Buyer` finds or makes the account, `Approval` and `Rejection` are the two operations.
-- A transaction is a function of the database: when it is refused, nothing is written.
pub mod Buyer
pub mod Approval
pub mod Rejection
