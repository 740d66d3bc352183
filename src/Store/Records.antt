-- ===== src/Store/Records.antt =====
-- The durable records of internal/store/sqlite/records.go: reads, inserts, revision-checked updates,
-- memo replacement and report import. The SQL statements act on the rows of `Tables`; the unique
-- indexes and the trigger of `initialize` are tests on those rows.
pub mod Rows
pub mod Write
pub mod Effects
pub mod History
pub mod Query
pub mod Run
pub mod Guarantees
pub mod Examples
