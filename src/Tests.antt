-- ===== src/Tests.antt =====
-- Runs of the model at concrete inputs, and the theorems at such inputs.
pub mod Sample
mod Stores
mod Listings
mod Http
mod Codecs
mod Sessions
mod Settings
mod Tables
pub mod Rows
mod Histories
