-- ===== src/Db.antt =====
-- The tables that the services share (prisma/schema.prisma), as far as they are read or written.
-- Ids, installation ids, key hashes and token hashes are numbers; a date is its milliseconds.
-- A license row carries its plan, which the queries include with it.
mod Enums
mod Tables
mod Actions
pub use Enums.*
pub use Tables.*
unfoldable pub use Actions.*
