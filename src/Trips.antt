-- ===== src/Trips.antt =====
-- CargoTripService (src/services/notification/cargoTrip.service.ts): the requests of drivers and
-- brokers for loads, what the company answers, and the trip until its delivery.
mod Store
mod Listing
mod Requests
mod Company
mod Delivery
pub mod Earnings
pub mod History
unfoldable pub use Store.*
unfoldable pub use Listing.*
unfoldable pub use Requests.*
unfoldable pub use Company.*
unfoldable pub use Delivery.*
