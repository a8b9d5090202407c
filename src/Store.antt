-- ===== src/Store.antt =====
-- The database of the backend: the enums and models of backend/prisma/schema.prisma that the
-- modelled services read and write. A table is the list of its rows, in no meaningful order.
mod Enums
mod Field
mod Visit
pub use Enums.*
pub use Field.*
pub use Visit.*
use proactive.Base.{List}

pub record Db : Type 0 where
  pub users : List User
  pub teams : List Team
  pub turfs : List Turf
  pub assignments : List TurfAssignment
  pub sessions : List TurfSession
  pub addresses : List Address
  pub address_requests : List AddressRequest
  pub outcomes : List OutcomeDefinition
  pub visits : List VisitLog
  pub geofence_results : List VisitGeofenceResult
  pub sync_events : List SyncEvent
  pub corrections : List VisitCorrection
  pub audit_logs : List AuditLog
