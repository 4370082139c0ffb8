-- ===== src/Tests.antt =====
-- Runs of the definitions on sample data, and the theorems at concrete inputs.
pub mod Data
mod Payments
mod Race
mod Settings
mod Work
mod Trips
mod Loads
mod Menus
mod Pace
mod Codes
mod SignIns
mod Checks
mod Sends
mod Packages
