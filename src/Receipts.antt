-- ===== src/Receipts.antt =====
-- Payment receipts: how their image is matched with the order (`Matching`), the table as a queue of
-- work (`Queue`), and the service over it (`Submission`, `Analysis`), with the laws of each.
pub mod Matching
pub mod Queue
pub mod Submission
pub mod Analysis
