-- ===== src/Hubspot.antt =====
-- src/utils/hubspot_client/__init__.py and errors.py: the client of HubSpot's contacts API.
pub mod Window
pub mod Mapping
pub mod Api
pub mod Contact
