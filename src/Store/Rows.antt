-- ===== src/Store/Rows.antt =====
-- The rows of the panel's tables (backend/internal/store/models.go). A nullable column is an
-- `Option`; a time is a text, as SQLite keeps it; ids, quotas and counts are 64-bit patterns.
use fast_bypass.Base.{ℕ, Text, Bool, Option}

pub record PanelAdmin : Type 0 where
  pub id : ℕ
  pub username : Text
  pub password_hash : Text
  pub is_active : Bool

pub record Manager : Type 0 where
  pub id : ℕ
  pub username : Text
  pub password_hash : Text
  pub display_name : Text
  pub slug : Text
  pub quota : ℕ
  pub is_active : Bool
  pub cert_title : Option Text
  pub cert_key_pass : Option Text
  pub created_at : Text
  pub updated_at : Text

pub record ManagerSlug : Type 0 where
  pub id : ℕ
  pub slug : Text

pub record VpnUserMeta : Type 0 where
  pub id : ℕ
  pub mikrotik_name : Text
  pub manager_id : Option ℕ
  pub contact_info : Option Text
  pub notes : Option Text
  pub cert_title : Option Text
  pub cert_key_pass : Option Text
  pub created_at : Text
  pub updated_at : Text

-- An amount is kept as it came, since the panel never calculates with it.
pub record ProfileActivation : Type 0 where
  pub id : ℕ
  pub vpn_user_meta_id : ℕ
  pub profile_name : Text
  pub shared_users : ℕ
  pub amount_paid : Option Text
  pub currency : Text
  pub paid_at : Option Text
  pub note : Option Text
  pub mikrotik_end_time : Option Text
  pub is_settled : Bool
  pub settled_at : Option Text
  pub settled_by_admin_id : Option ℕ
  pub created_at : Text

pub record RenewalFilter : Type 0 where
  pub manager_id : Option ℕ
  pub orphan_only : Bool
  pub settled : Text
  pub from : Text
  pub to : Text
  pub query : Text
  pub page : ℕ
  pub page_size : ℕ

pub record RenewalSummary : Type 0 where
  pub unsettled_shared_users_sum : ℕ
  pub all_shared_users_sum : ℕ

pub record RenewalRow : Type 0 where
  pub id : ℕ
  pub renewed_at : Text
  pub mikrotik_name : Text
  pub manager_id : Option ℕ
  pub manager_display_name : Option Text
  pub shared_users : ℕ
  pub profile_name : Text
  pub profile_state : Text
  pub mikrotik_end_time : Option Text
  pub is_settled : Bool
  pub amount_paid : Option Text
  pub currency : Text

pub record RenewalThrough : Type 0 where
  pub activation_id : ℕ
  pub manager_id : Option ℕ
  pub orphan_only : Bool

pub record RenewalSharedUsersRow : Type 0 where
  pub id : ℕ
  pub mikrotik_name : Text
  pub shared_users : ℕ
  pub is_settled : Bool
