-- ===== src/Db.antt =====
-- db/: array fields, and the results of queries.
mod Examples
pub mod ArrayParser
pub mod ResultImpl
pub mod Result
pub mod Exception
pub mod Connection
pub mod ConnString
