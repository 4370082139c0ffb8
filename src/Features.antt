-- ===== src/Features.antt =====
-- CompanyFeatureService (src/services/company/companyFeature.service.ts): the menus that a company
-- has for a time, and their purchase one by one or by tiers.
mod Tables
mod Access
mod Orders
unfoldable pub use Tables.*
unfoldable pub use Orders.*
unfoldable pub use Access.*
pub mod Chain
pub mod Granted
pub mod Approved
