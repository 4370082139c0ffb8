-- ===== src/Trips/History.antt =====
-- All handlers of trips as steps between states of the tables, each step a whole call.
pub mod Moves
pub mod Sound
mod Handlers
mod Reports
mod Deliveries
mod Offers
mod Loads
mod Statuses
pub mod Begins
mod Begun
mod Accepting
mod Asking
mod Offering
mod Requesting
mod Ending
pub mod Steps
pub mod Runs
pub mod Outcomes
pub mod Restored
