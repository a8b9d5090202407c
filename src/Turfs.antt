-- ===== src/Turfs.antt =====
-- backend/src/turfs/turfs.service.ts: the turf service, from its guards to its operations. An
-- operation maps the database to the new one and its answer; a transaction that throws changes
-- nothing. `now` is the clock's reading, one for each call.
pub mod Guards
pub mod Admin
pub mod Retire
pub mod Sessions
pub mod Apart
pub mod Invariant
pub mod Preserve
pub mod Consistent
pub mod Start
pub mod Complete
pub mod Assign
pub mod Retained
pub mod History
pub mod Reach
pub mod Effects
