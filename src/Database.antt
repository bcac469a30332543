-- ===== src/Database.antt =====
-- The database behind gorm, which the repository does not hold: a parameter. A table is the list of
-- its rows; a statement is run at a moment of the database's clock, since two runs of one
-- statement may differ (a lost connection, a lock that timed out).
mod Statements
mod Transaction
mod Laws
mod Memory
pub use Statements.*
pub use Transaction.*
pub use Laws.*
pub use Memory.*
