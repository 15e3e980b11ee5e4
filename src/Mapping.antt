-- ===== src/Mapping.antt =====
-- data-adapters/src/adapters/api_adapter.py, and the dotted paths of
-- data-adapters/src/adapters/templating.py: a JSON response becomes the items of a reading.
pub mod Paths
pub mod Template
pub mod Fetch
