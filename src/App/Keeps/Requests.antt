-- ===== src/App/Keeps/Requests.antt =====
-- The handlers for VPN users keep what every statement that writes keeps.
use fast_bypass.Base.{ℕ, Text, Option, none, some}
use fast_bypass.Store.{VpnUserMeta}
use fast_bypass.Auth.{Claims}
use fast_bypass.App.State.{App}
use fast_bypass.App.Http.{Handler}
use fast_bypass.App.Service.{CreateVpnReq, PatchVpnReq, AssignProfileReq}
use fast_bypass.App.Handlers
use fast_bypass.App.Keeps.{KeptByManagers, Keeps}
use fast_bypass.App.Keeps.Changes.{change_rules}

module _ {A : App} {Q : A.store.State → Type 0} (M : KeptByManagers A.store Q) where
  pub write_ovpn_download-Keeps : (m : VpnUserMeta) → Keeps A Q (Handlers.write_ovpn_download A m)
  unfolding Handlers.write_ovpn_download
  write_ovpn_download-Keeps m = search change_rules depth 12

  pub vpn_meta_by_id-Keeps :
      (id : Option ℕ) (rest : VpnUserMeta → Handler A)
      → ((m : VpnUserMeta) → Keeps A Q (rest m))
      → Keeps A Q (Handlers.vpn_meta_by_id A id rest)
  vpn_meta_by_id-Keeps none rest k = search change_rules
  vpn_meta_by_id-Keeps (some id) rest k = search (change_rules, k)

pub ruleset request_rules = (change_rules, write_ovpn_download-Keeps, vpn_meta_by_id-Keeps)

module _ {A : App} {Q : A.store.State → Type 0} (M : KeptByManagers A.store Q) where
  pub handle_get_vpn_user_by_name-Keeps :
      (c : Option Claims) (n : Text) → Keeps A Q (Handlers.handle_get_vpn_user_by_name A c n)
  unfolding Handlers.handle_get_vpn_user_by_name
  handle_get_vpn_user_by_name-Keeps c n = search request_rules depth 30

  pub handle_patch_vpn_user_by_name-Keeps :
      (c : Option Claims) (n : Text) (req : Option PatchVpnReq)
      → Keeps A Q (Handlers.handle_patch_vpn_user_by_name A c n req)
  unfolding Handlers.handle_patch_vpn_user_by_name
  handle_patch_vpn_user_by_name-Keeps c n req = search request_rules depth 30

  pub handle_assign_profile_by_name-Keeps :
      (c : Option Claims) (n : Text) (req : Option AssignProfileReq)
      → Keeps A Q (Handlers.handle_assign_profile_by_name A c n req)
  unfolding Handlers.handle_assign_profile_by_name
  handle_assign_profile_by_name-Keeps c n req = search request_rules depth 30

  pub handle_delete_vpn_user_by_name-Keeps :
      (c : Option Claims) (n : Text) → Keeps A Q (Handlers.handle_delete_vpn_user_by_name A c n)
  unfolding Handlers.handle_delete_vpn_user_by_name
  handle_delete_vpn_user_by_name-Keeps c n = search request_rules depth 30

  pub handle_connection_bundle_by_name-Keeps :
      (c : Option Claims) (n : Text) → Keeps A Q (Handlers.handle_connection_bundle_by_name A c n)
  unfolding Handlers.handle_connection_bundle_by_name
  handle_connection_bundle_by_name-Keeps c n = search request_rules depth 30

  pub handle_download_ovpn_by_name-Keeps :
      (c : Option Claims) (n : Text) → Keeps A Q (Handlers.handle_download_ovpn_by_name A c n)
  unfolding Handlers.handle_download_ovpn_by_name
  handle_download_ovpn_by_name-Keeps c n = search request_rules depth 30

  pub handle_remove_profile_by_name-Keeps :
      (c : Option Claims) (n : Text) (row : Text)
      → Keeps A Q (Handlers.handle_remove_profile_by_name A c n row)
  unfolding Handlers.handle_remove_profile_by_name
  handle_remove_profile_by_name-Keeps c n row = search request_rules depth 30

  pub handle_get_vpn_user-Keeps :
      (c : Option Claims) (id : Option ℕ) → Keeps A Q (Handlers.handle_get_vpn_user A c id)
  unfolding Handlers.handle_get_vpn_user
  handle_get_vpn_user-Keeps c id = search request_rules depth 30

  pub handle_create_vpn_user-Keeps :
      (c : Option Claims) (req : Option CreateVpnReq)
      → Keeps A Q (Handlers.handle_create_vpn_user A c req)
  unfolding Handlers.handle_create_vpn_user
  handle_create_vpn_user-Keeps c req = search request_rules depth 30

  pub handle_patch_vpn_user-Keeps :
      (c : Option Claims) (id : Option ℕ) (req : Option PatchVpnReq)
      → Keeps A Q (Handlers.handle_patch_vpn_user A c id req)
  unfolding Handlers.handle_patch_vpn_user
  handle_patch_vpn_user-Keeps c id req = search request_rules depth 30

  pub handle_assign_profile-Keeps :
      (c : Option Claims) (id : Option ℕ) (req : Option AssignProfileReq)
      → Keeps A Q (Handlers.handle_assign_profile A c id req)
  unfolding Handlers.handle_assign_profile
  handle_assign_profile-Keeps c id req = search request_rules depth 30

  pub handle_delete_vpn_user-Keeps :
      (c : Option Claims) (id : Option ℕ) → Keeps A Q (Handlers.handle_delete_vpn_user A c id)
  unfolding Handlers.handle_delete_vpn_user
  handle_delete_vpn_user-Keeps c id = search request_rules depth 30

  pub handle_connection_bundle-Keeps :
      (c : Option Claims) (id : Option ℕ) → Keeps A Q (Handlers.handle_connection_bundle A c id)
  unfolding Handlers.handle_connection_bundle
  handle_connection_bundle-Keeps c id = search request_rules depth 30

  pub handle_download_ovpn-Keeps :
      (c : Option Claims) (id : Option ℕ) → Keeps A Q (Handlers.handle_download_ovpn A c id)
  unfolding Handlers.handle_download_ovpn
  handle_download_ovpn-Keeps c id = search request_rules depth 30

  pub handle_remove_profile-Keeps :
      (c : Option Claims) (id : Option ℕ) (n : Text)
      → Keeps A Q (Handlers.handle_remove_profile A c id n)
  unfolding Handlers.handle_remove_profile
  handle_remove_profile-Keeps c id n = search request_rules depth 30

pub ruleset manager_request_rules = (
  handle_get_vpn_user_by_name-Keeps, handle_patch_vpn_user_by_name-Keeps,
  handle_assign_profile_by_name-Keeps, handle_delete_vpn_user_by_name-Keeps,
  handle_connection_bundle_by_name-Keeps, handle_download_ovpn_by_name-Keeps,
  handle_remove_profile_by_name-Keeps, handle_get_vpn_user-Keeps, handle_create_vpn_user-Keeps,
  handle_patch_vpn_user-Keeps, handle_assign_profile-Keeps, handle_delete_vpn_user-Keeps,
  handle_connection_bundle-Keeps, handle_download_ovpn-Keeps, handle_remove_profile-Keeps,
)
