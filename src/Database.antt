-- ===== src/Database.antt =====
-- src/db: the schema's seed data and the migrations. SQLite and the migration functions are
-- arguments.
pub mod Schema
pub mod Migrations
