-- ===== src/Payments.antt =====
-- The life of a payment as a whole: every order in which submissions, analyses (which read, wait
-- for the model and only then write), sweeps, approvals and rejections can follow one another.
pub mod Codes
pub mod History
pub mod Reopened
