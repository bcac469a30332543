-- ===== src/Tables.antt =====
-- util/mysql.go, util/types.go and util/api.go: the stages of a sector, the rows that the miner
-- keeps of it, and the records that travel between miner and worker. A column is a field; the
-- bookkeeping times of gorm are left out, and `[]byte` is a list of numbers.
mod Stage
mod Rows
mod Same
unfoldable pub use Stage.*
pub use Rows.*
unfoldable pub use Same.*
