-- ===== src/Tests.antt =====
-- Runs on concrete data, and the theorems at inputs that meet their hypotheses.
pub mod Data
mod PolicyTests
mod TurfTests
pub mod AuthData
mod AuthTests
pub mod VisitData
mod VisitTests
mod SyncTests
