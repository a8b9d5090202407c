-- ===== src/Access.antt =====
-- backend/src/common/interfaces/access-scope.interface.ts, and the filter that the turf and visit
-- services build from a scope (`scopeWhere`, `buildScopedWhere`: one text).
use proactive.Base.{
  ℕ, Bool, true, false, Option, none, some, Text, ◌&&◌, same_id, same_text, non_empty,
}
use proactive.Store.{UserRole}

pub record AccessScope : Type 0 where
  pub organization_id : Option ℕ
  pub campaign_id : Option ℕ
  pub team_id : Option ℕ
  pub region_code : Option Text
  pub role : Option UserRole

-- The columns that a scope is compared with.
pub record ScopeKey : Type 0 where
  pub organization_id : Option ℕ
  pub campaign_id : Option ℕ
  pub team_id : Option ℕ
  pub region_code : Option Text

abbrev pub is_supervisor : Option UserRole → Bool
is_supervisor none = false
is_supervisor (some UserRole.supervisor) = true
is_supervisor (some UserRole.admin) = false
is_supervisor (some UserRole.canvasser) = false

-- A supervisor of a team sees the team, one of a region the region, any other the organization.
abbrev pub matches_supervisor : Option ℕ → Option Text → ScopeKey → Bool
matches_supervisor (some team) region row = same_id row.team_id (some team)
matches_supervisor none (some region) row = same_text row.region_code (some region)
matches_supervisor none none row = true

abbrev pub matches_campaign : Option ℕ → ScopeKey → Bool
matches_campaign none row = true
matches_campaign (some c) row = same_id row.campaign_id (some c)

abbrev pub matches_role : Bool → AccessScope → ScopeKey → Bool
matches_role true scope row = matches_supervisor scope.team_id (non_empty scope.region_code) row
matches_role false scope row = matches_campaign scope.campaign_id row

unfoldable pub in_scope : AccessScope → ScopeKey → Bool
in_scope scope row =
    same_id row.organization_id scope.organization_id
    && matches_role (is_supervisor scope.role) scope row
