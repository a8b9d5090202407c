-- ===== src/Store/Field.antt =====
-- Users, teams, turfs and what hangs on a turf. An identifier is a number: identifiers are only
-- compared. A time is in milliseconds. A coordinate is the bit pattern of the number sent.
use proactive.Base.{ℕ, Bool, Option, List, Text, String}
use proactive.Store.Enums.{UserRole, TurfStatus, AssignmentStatus, SessionStatus}

pub record User : Type 0 where
  pub id : ℕ
  pub role : UserRole
  pub organization_id : Option ℕ
  pub campaign_id : Option ℕ
  pub team_id : Option ℕ
  pub region_code : Option Text
  pub is_active : Bool
  pub status : Text
  pub deleted_at : Option ℕ

pub record Team : Type 0 where
  pub id : ℕ
  pub organization_id : ℕ
  pub campaign_id : Option ℕ
  pub region_code : Option Text
  pub is_active : Bool

pub record Turf : Type 0 where
  pub id : ℕ
  pub name : Text
  pub description : Option Text
  pub organization_id : Option ℕ
  pub campaign_id : Option ℕ
  pub team_id : Option ℕ
  pub region_code : Option Text
  pub status : TurfStatus
  pub is_shared : Bool
  pub created_by_id : Option ℕ
  pub completed_at : Option ℕ
  pub completed_by_id : Option ℕ
  pub reopened_at : Option ℕ
  pub reopened_by_id : Option ℕ
  pub reopened_reason : Option Text
  pub deleted_at : Option ℕ
  pub delete_reason : Option Text
  pub archived_at : Option ℕ
  pub purge_at : Option ℕ
  pub created_at : ℕ

pub record TurfAssignment : Type 0 where
  pub id : ℕ
  pub turf_id : ℕ
  pub canvasser_id : ℕ
  pub organization_id : Option ℕ
  pub campaign_id : Option ℕ
  pub team_id : Option ℕ
  pub region_code : Option Text
  pub assigned_by_user_id : Option ℕ
  pub assigned_at : ℕ
  pub unassigned_at : Option ℕ
  pub reassignment_reason : Option Text
  pub status : AssignmentStatus

pub record TurfSession : Type 0 where
  pub id : ℕ
  pub turf_id : ℕ
  pub canvasser_id : ℕ
  pub organization_id : Option ℕ
  pub campaign_id : Option ℕ
  pub team_id : Option ℕ
  pub region_code : Option Text
  pub start_time : ℕ
  pub end_time : Option ℕ
  pub status : SessionStatus
  pub last_activity_at : Option ℕ
  pub pause_reason : Option Text
  pub end_reason : Option Text
  pub start_lat : Option ℕ
  pub start_lng : Option ℕ
  pub end_lat : Option ℕ
  pub end_lng : Option ℕ

pub record Address : Type 0 where
  pub id : ℕ
  pub turf_id : ℕ
  pub organization_id : Option ℕ
  pub campaign_id : Option ℕ
  pub team_id : Option ℕ
  pub region_code : Option Text
  pub latitude : Option ℕ
  pub longitude : Option ℕ
  pub deleted_at : Option ℕ
  pub delete_reason : Option Text
  pub purge_at : Option ℕ

pub record AddressRequest : Type 0 where
  pub id : ℕ
  pub turf_id : ℕ
  pub team_id : Option ℕ
  pub region_code : Option Text

-- A value of the JSON that an audit entry keeps.
pub data Value : Type 0 where
  null : Value
  id_of number_of time_of : ℕ → Value
  text_of : Text → Value
  flag_of : Bool → Value
  turf_status_of : TurfStatus → Value
  word : String → Value

pub record AuditLog : Type 0 where
  pub actor_user_id : Option ℕ
  pub organization_id : Option ℕ
  pub action_type : String
  pub entity_type : String
  pub entity_id : ℕ
  pub reason_code : Option Text
  pub reason_text : Option Text
  pub old_values : List (String × Value)
  pub new_values : List (String × Value)
