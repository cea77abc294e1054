-- ===== src/App/Dtos.antt =====
-- The bodies of the answers that are not about one VPN user (backend/internal/app, the literals
-- that the handlers write).
use fast_bypass.Base.{ℕ, Text, Bool, Option, List}
use fast_bypass.Store.{RenewalRow, RenewalSummary}
use fast_bypass.Auth.{Role}
use fast_bypass.App.Service.{ProfileDto, OwnerInfo}

-- `loginResp`
pub record LoginResp : Type 0 where
  pub access_token : Text
  pub refresh_token : Text
  pub role : Role
  pub manager_id : Option ℕ
  pub slug : Option Text
  pub name_prefix : Option Text

-- `HandleMe`, to a manager
pub record MeDto : Type 0 where
  pub username : Text
  pub display_name : Text
  pub slug : Text
  pub name_prefix : Text
  pub quota : ℕ
  pub used_quota : ℕ

-- `HandleMeQuota`
pub record QuotaDto : Type 0 where
  pub quota : ℕ
  pub used : ℕ
  pub available : ℕ

-- An item of `HandleListManagers`, and the answer of `HandlePatchManager`.
pub record ManagerDto : Type 0 where
  pub id : ℕ
  pub username : Text
  pub display_name : Text
  pub slug : Text
  pub quota : ℕ
  pub used_quota : ℕ
  pub is_active : Bool
  pub cert_title : Option Text

-- `HandleAdminStats`
pub record ManagerStats : Type 0 where
  pub manager_id : ℕ
  pub display_name : Text
  pub username : Text
  pub quota : ℕ
  pub vpn_users : ℕ
  pub connections : ℕ

pub record StatsDto : Type 0 where
  pub manager_count : ℕ
  pub vpn_users : ℕ
  pub connections : ℕ
  pub orphan_vpn_users : ℕ
  pub orphan_connections : ℕ
  pub by_manager : List ManagerStats

-- An item of the lists of VPN users; `comment` and what follows it are in the admins' list only.
pub record VpnItem : Type 0 where
  pub id : Option ℕ
  pub mikrotik_name : Text
  pub shared_users : ℕ
  pub disabled : Bool
  pub profiles : List ProfileDto
  pub mikrotik_comment : Option Text
  pub owner : Option OwnerInfo
  pub owner_mismatch : Bool

pub record VpnPage : Type 0 where
  pub items : List VpnItem
  pub page : ℕ
  pub page_size : ℕ
  pub total : ℕ

-- `writeRenewals`
pub record RenewalsDto : Type 0 where
  pub orphan : Bool
  pub manager_id : Option ℕ
  pub manager_display_name : Option Text
  pub can_settle : Bool
  pub summary : RenewalSummary
  pub items : List RenewalRow
  pub page : ℕ
  pub page_size : ℕ
  pub total : ℕ
