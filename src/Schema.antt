-- ===== src/Schema.antt =====
-- backend/schema/full_schema.py: the enumerations and the rows of the tables.
-- Identifiers, public ids, keys and hashes are only compared, so they are natural numbers; times
-- are seconds. A column that no modelled code reads or writes is left out.
mod Status
mod Rows
pub use Status.*
pub use Rows.*
