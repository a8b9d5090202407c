-- ===== src/Visits.antt =====
-- backend/src/visits/visits.service.ts: the visit service, which logs visits and corrects them.
pub mod Platform
pub mod Outcomes
pub mod Geofence
pub mod Conflicts
pub mod Log
pub mod Correct
pub mod Change
pub mod Facts
pub mod Corrections
pub mod History
pub mod Attempts
pub mod Fallback
pub mod Replay
