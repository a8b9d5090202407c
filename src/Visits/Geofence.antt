-- ===== src/Visits/Geofence.antt =====
-- The geofence check in `logVisit` of backend/src/visits/visits.service.ts.
use proactive.Base.{ℕ, Bool, false, Option, none, some, Text, text, if◌then◌else◌}
use proactive.Store.{GpsStatus}
use proactive.Visits.Platform.{Platform, get_distance_in_meters}

pub record GpsResult : Type 0 where
  pub gps_status : GpsStatus
  pub geofence_validated : Bool
  pub geofence_distance_meters : Option ℕ
  pub distance_from_target_feet : Option ℕ
  pub failure_reason : Option Text

abbrev pub not_located : GpsStatus → Text → GpsResult
not_located status reason = record {
  gps_status = status;
  geofence_validated = false;
  geofence_distance_meters = none;
  distance_from_target_feet = none;
  failure_reason = some reason;
}

-- `accuracyMeters !== undefined && accuracyMeters > accuracyThresholdMeters`
abbrev pub is_inaccurate : Platform → ℕ → Option ℕ → Bool
is_inaccurate p threshold none = false
is_inaccurate p threshold (some accuracy) = p.above accuracy (p.whole threshold)

module _ (p : Platform) (radius_feet : ℕ) where
  unfoldable pub located : ℕ → GpsResult
  located meters =
      let inside = p.at_most meters (p.times (p.whole radius_feet) (p.literal "0.3048")) in
      record {
        gps_status = if inside then GpsStatus.verified else GpsStatus.flagged;
        geofence_validated = inside;
        geofence_distance_meters = some meters;
        distance_from_target_feet = some (p.times meters (p.literal "3.28084"));
        failure_reason = if inside then none else some (text "outside_radius");
      }

  unfoldable pub against_target : ℕ → ℕ → Option ℕ → Option ℕ → GpsResult
  unfolding located
  against_target latitude longitude (some target_latitude) (some target_longitude) = located (
      get_distance_in_meters p latitude longitude (p.decimal target_latitude)
        (p.decimal target_longitude))
  against_target latitude longitude (some _) none =
      not_located GpsStatus.missing (text "target_missing")
  against_target latitude longitude none _ = not_located GpsStatus.missing (text "target_missing")

  -- The place sent, its accuracy and the limit for it, and the place of the address.
  unfoldable pub check_geofence :
      Option ℕ → Option ℕ → Option ℕ → ℕ → Option ℕ → Option ℕ → GpsResult
  check_geofence (some latitude) (some longitude) accuracy threshold target_latitude
        target_longitude =
      if is_inaccurate p threshold accuracy
      then not_located GpsStatus.low_accuracy (text "low_accuracy")
      else against_target latitude longitude target_latitude target_longitude
  check_geofence (some _) none accuracy threshold target_latitude target_longitude =
      not_located GpsStatus.missing (text "gps_missing")
  check_geofence none _ accuracy threshold target_latitude target_longitude =
      not_located GpsStatus.missing (text "gps_missing")
