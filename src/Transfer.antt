-- ===== src/Transfer.antt =====
-- data-adapters/src/adapters/config_transfer.py: settings, policies, sources and adapters from one file.
-- A field of the file has the type that an export gives it; what is missing is none.
pub mod Catalog
pub mod Fields
pub mod Records
pub mod Import
pub mod Export
