-- ===== src/App/Keeps/Admins.antt =====
-- The handlers of admins for VPN users keep what every statement that writes keeps.
use fast_bypass.Base.{ℕ, Text, Option, none, some}
use fast_bypass.App.State.{App}
use fast_bypass.App.Service.{CreateVpnReq, AdminPatchVpnReq, AssignProfileReq}
use fast_bypass.App.Handlers.{AdminCreateVpnReq}
use fast_bypass.App.Handlers
use fast_bypass.App.Keeps.{KeptByWrites, Keeps}
use fast_bypass.App.Keeps.Requests.{request_rules}

module _ {A : App} {Q : A.store.State → Type 0} (W : KeptByWrites A.store Q) where
  creation_for-Keeps :
      (id : Option ℕ) (req : CreateVpnReq) → Keeps A Q (Handlers.creation_for A id req)
  creation_for-Keeps none req = search request_rules depth 8
  creation_for-Keeps (some id) req = search request_rules depth 12

  pub handle_admin_get_vpn_user_by_name-Keeps :
      (n : Text) → Keeps A Q (Handlers.handle_admin_get_vpn_user_by_name A n)
  unfolding Handlers.handle_admin_get_vpn_user_by_name
  handle_admin_get_vpn_user_by_name-Keeps n = search request_rules depth 30

  pub handle_admin_patch_vpn_user_by_name-Keeps :
      (n : Text) (req : Option AdminPatchVpnReq)
      → Keeps A Q (Handlers.handle_admin_patch_vpn_user_by_name A n req)
  unfolding Handlers.handle_admin_patch_vpn_user_by_name
  handle_admin_patch_vpn_user_by_name-Keeps n req = search request_rules depth 30

  pub handle_admin_assign_profile_by_name-Keeps :
      (n : Text) (req : Option AssignProfileReq)
      → Keeps A Q (Handlers.handle_admin_assign_profile_by_name A n req)
  unfolding Handlers.handle_admin_assign_profile_by_name
  handle_admin_assign_profile_by_name-Keeps n req = search request_rules depth 30

  pub handle_admin_delete_vpn_user_by_name-Keeps :
      (n : Text) → Keeps A Q (Handlers.handle_admin_delete_vpn_user_by_name A n)
  unfolding Handlers.handle_admin_delete_vpn_user_by_name
  handle_admin_delete_vpn_user_by_name-Keeps n = search request_rules depth 30

  pub handle_admin_connection_bundle_by_name-Keeps :
      (n : Text) → Keeps A Q (Handlers.handle_admin_connection_bundle_by_name A n)
  unfolding Handlers.handle_admin_connection_bundle_by_name
  handle_admin_connection_bundle_by_name-Keeps n = search request_rules depth 30

  pub handle_admin_download_ovpn_by_name-Keeps :
      (n : Text) → Keeps A Q (Handlers.handle_admin_download_ovpn_by_name A n)
  unfolding Handlers.handle_admin_download_ovpn_by_name
  handle_admin_download_ovpn_by_name-Keeps n = search request_rules depth 30

  pub handle_admin_remove_profile_by_name-Keeps :
      (n : Text) (row : Text) → Keeps A Q (Handlers.handle_admin_remove_profile_by_name A n row)
  unfolding Handlers.handle_admin_remove_profile_by_name
  handle_admin_remove_profile_by_name-Keeps n row = search request_rules depth 30

  pub handle_admin_get_vpn_user-Keeps :
      (id : Option ℕ) → Keeps A Q (Handlers.handle_admin_get_vpn_user A id)
  unfolding Handlers.handle_admin_get_vpn_user
  handle_admin_get_vpn_user-Keeps id = search request_rules depth 30

  pub handle_admin_create_vpn_user-Keeps :
      (req : Option AdminCreateVpnReq) → Keeps A Q (Handlers.handle_admin_create_vpn_user A req)
  unfolding Handlers.handle_admin_create_vpn_user
  handle_admin_create_vpn_user-Keeps req = search (request_rules, creation_for-Keeps) depth 30

  pub handle_admin_patch_vpn_user-Keeps :
      (id : Option ℕ) (req : Option AdminPatchVpnReq)
      → Keeps A Q (Handlers.handle_admin_patch_vpn_user A id req)
  unfolding Handlers.handle_admin_patch_vpn_user
  handle_admin_patch_vpn_user-Keeps id req = search request_rules depth 30

  pub handle_admin_delete_vpn_user-Keeps :
      (id : Option ℕ) → Keeps A Q (Handlers.handle_admin_delete_vpn_user A id)
  unfolding Handlers.handle_admin_delete_vpn_user
  handle_admin_delete_vpn_user-Keeps id = search request_rules depth 30

  pub handle_admin_assign_profile-Keeps :
      (id : Option ℕ) (req : Option AssignProfileReq)
      → Keeps A Q (Handlers.handle_admin_assign_profile A id req)
  unfolding Handlers.handle_admin_assign_profile
  handle_admin_assign_profile-Keeps id req = search request_rules depth 30

  pub handle_admin_connection_bundle-Keeps :
      (id : Option ℕ) → Keeps A Q (Handlers.handle_admin_connection_bundle A id)
  unfolding Handlers.handle_admin_connection_bundle
  handle_admin_connection_bundle-Keeps id = search request_rules depth 30

  pub handle_admin_download_ovpn-Keeps :
      (id : Option ℕ) → Keeps A Q (Handlers.handle_admin_download_ovpn A id)
  unfolding Handlers.handle_admin_download_ovpn
  handle_admin_download_ovpn-Keeps id = search request_rules depth 30

  pub handle_admin_remove_profile-Keeps :
      (id : Option ℕ) (n : Text) → Keeps A Q (Handlers.handle_admin_remove_profile A id n)
  unfolding Handlers.handle_admin_remove_profile
  handle_admin_remove_profile-Keeps id n = search request_rules depth 30

pub ruleset admin_request_rules = (
  handle_admin_get_vpn_user_by_name-Keeps, handle_admin_patch_vpn_user_by_name-Keeps,
  handle_admin_assign_profile_by_name-Keeps, handle_admin_delete_vpn_user_by_name-Keeps,
  handle_admin_connection_bundle_by_name-Keeps, handle_admin_download_ovpn_by_name-Keeps,
  handle_admin_remove_profile_by_name-Keeps, handle_admin_get_vpn_user-Keeps,
  handle_admin_create_vpn_user-Keeps, handle_admin_patch_vpn_user-Keeps,
  handle_admin_delete_vpn_user-Keeps, handle_admin_assign_profile-Keeps,
  handle_admin_connection_bundle-Keeps, handle_admin_download_ovpn-Keeps,
  handle_admin_remove_profile-Keeps,
)
