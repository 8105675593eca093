-- ===== src/Prelude/Table.antt =====
-- SQL statements on a table, which is the list of its rows: `SELECT … WHERE` (`select`, `first`),
-- `UPDATE … WHERE` (`update`), and how many rows a condition meets (`count`).
mod Rows
mod Order
mod Member
unfoldable pub use Rows.*
unfoldable pub use Order.*
pub use Member.*
