-- ===== src/Spicedb.antt =====
-- internal/spicedb: the ids that SpiceDB takes, and the calls that are made to it.
pub mod ObjectId
pub mod Client
