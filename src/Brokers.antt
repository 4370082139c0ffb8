-- ===== src/Brokers.antt =====
-- BrokerAccessService (src/services/company/brokerAccess.service.ts): the companies whose loads a
-- broker sees, and the packages of load requests that it buys. A message that the source has in
-- Persian is given in English.
mod Policy
mod Credits
mod Companies
mod Orders
pub mod Ledger
pub mod Reviews
pub use Policy.*
unfoldable pub use Credits.*
unfoldable pub use Companies.*
unfoldable pub use Orders.*
