-- ===== src/Notices.antt =====
-- The notices of loads in the messengers: cargoDeliveryRetry.ts, cargoDeliveryQueue.service.ts and
-- the queued sends of cargoNotification.service.ts, all of src/services/notification.
pub mod Retry
pub mod Queued
pub mod Jobs
pub mod Ends
pub mod Once
