-- ===== src/Mikrotik/Types.antt =====
-- The router as the panel sees it (backend/internal/mikrotik/types.go): users, profile rows and
-- the interface Client, over an unknown state.
use fast_bypass.Base.{ℕ, Text, Bool, Option, List}
use fast_bypass.Result.{Exec, ⊤}

pub record User : Type 0 where
  pub id : Text
  pub name : Text
  pub password : Text
  -- an int, as its 64-bit pattern
  pub shared_users : ℕ
  pub comment : Text
  pub disabled : Bool

pub record UserProfile : Type 0 where
  pub id : Text
  pub user : Text
  pub profile : Text
  pub state : Text
  pub end_time : Text

pub record Client : Type 1 where
  pub State : Type 0
  pub ping : Exec State ⊤
  pub list_users : Exec State (List User)
  pub get_user : Text → Exec State User
  -- name, password, comment, sharedUsers, disabled
  pub add_user : Text → Text → Text → ℕ → Bool → Exec State ⊤
  -- name, password, sharedUsers, comment, disabled
  pub set_user : Text → Option Text → Option ℕ → Text → Option Bool → Exec State ⊤
  pub remove_user : Text → Exec State ⊤
  pub list_user_profiles : Text → Exec State (List UserProfile)
  -- user, profile
  pub add_user_profile : Text → Text → Exec State ⊤
  pub remove_user_profile : Text → Exec State ⊤
  -- scriptName, title, passphrase
  pub generate_certificate : Text → Text → Text → Exec State ⊤
  pub read_file_contents : Text → Exec State Text
  pub write_file_contents : Text → Text → Exec State ⊤
  pub file_exists : Text → Exec State Bool
  pub invalidate_cache : State → State
