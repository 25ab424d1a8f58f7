-- ===== src/Discovery.antt =====
-- src/agents/discovery.py: import of CSV records and the tables `properties` and `ownership`.
pub mod Address
pub mod Apn
pub mod Columns
pub mod Save
