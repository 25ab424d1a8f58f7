-- ===== src/Entity.antt =====
-- src/agents/entity_unmasking.py and src/scrapers/ca_sos_parser.py: who is behind a recorded owner.
pub mod Patterns
pub mod Owner
pub mod Sos
