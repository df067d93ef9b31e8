-- ===== src/Gorm.antt =====
-- gorm and PostgreSQL as a parameter: the calls, the laws that the proofs rely on, and an in-memory
-- value that shows that the laws can hold together.
mod Defs
pub mod Laws
pub mod Memory
pub use Defs.{Reader, Table, Db}
