-- ===== src/County.antt =====
-- src/scrapers/county_assessor.py: parcel look-ups against the counties' ArcGIS servers.
pub mod Where
pub mod Query
pub mod Search
pub mod Assessed
