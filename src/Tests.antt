-- ===== src/Tests.antt =====
-- Tests: the data in `Tests.Data`, and the theorems at concrete inputs.
mod Data
mod Selection
mod Stores
mod Serving
mod Commands
mod Startup
mod Upkeep
