-- ===== src/Entities.antt =====
-- The rows of the database that the subscription component works on, and the database itself. A
-- record has the columns of the TypeORM entity; relations are found through the tables, and
-- `updatedAt`, which the database writes and nothing here reads, is left out. The rows of trips
-- have a module of their own, since their statuses share words with those of payments.
mod Enums
mod Payment
mod Account
mod Tables
pub mod Trip
pub use Enums.*
pub use Payment.*
pub use Account.*
pub use Tables.*
