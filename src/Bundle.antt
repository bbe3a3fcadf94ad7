-- ===== src/Bundle.antt =====
-- The files of a bundle as the analysis reads them.
pub mod Reader
pub mod Receipts
pub mod Manifest
pub mod Pairing
pub mod Lifecycle
