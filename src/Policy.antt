-- ===== src/Policy.antt =====
-- SubscriptionPolicyService (subscriptionPolicy.service.ts): the settings read back from JSON, and
-- whether a subscription is required now.
pub mod Json
pub mod Settings
pub mod Tiers
pub mod Stored
