-- ===== src/Db.antt =====
-- packages/db: the SQL template.
pub mod Sql
pub mod Governance
