-- ===== src/App/Keeps/Changes.antt =====
-- The services that change a VPN user, or start from his name, keep what every statement that
-- writes keeps.
use fast_bypass.Base.{ℕ, Text, Bool, Option, none, some}
use fast_bypass.Result.{Result, Error, ok, err, no_rows}
use fast_bypass.Mikrotik.{User}
use fast_bypass.Owner.{Registry}
use fast_bypass.Store.{VpnUserMeta}
use fast_bypass.Auth.{Claims}
use fast_bypass.App.State.{App}
use fast_bypass.App.Service
use fast_bypass.App.Service.{
  PatchVpnReq, AdminPatchVpnReq, AssignProfileReq, patch_vpn_user, admin_patch_vpn_user,
  delete_vpn_user, assign_vpn_profile, remove_vpn_profile,
}
use fast_bypass.App.ByName
use fast_bypass.App.ByName.{
  assert_manager_owner, build_vpn_detail_by_name, ensure_vpn_meta, delete_vpn_by_name,
}
use fast_bypass.App.Keeps.{KeptByManagers, Keeps}
use fast_bypass.App.Keeps.Users.{user_rules}

module _ {A : App} {Q : A.store.State → Type 0} (M : KeptByManagers A.store Q) where
  new_password-Keeps : (p : Option Text) → Keeps A Q (Service.new_password A p)
  new_password-Keeps none = search user_rules
  new_password-Keeps (some p) = search user_rules

  check_shared-Keeps :
      (u : User) (id : ℕ) (n : Option ℕ) → Keeps A Q (Service.check_shared A u id n)
  check_shared-Keeps u id none = search user_rules
  check_shared-Keeps u id (some n) = search user_rules depth 16

  check_manager-Keeps : (m : Option ℕ) (id : ℕ) → Keeps A Q (Service.check_manager A m id)
  check_manager-Keeps none id = search user_rules
  check_manager-Keeps (some m) id = search user_rules depth 8

  sync_shared-Keeps : (id : ℕ) (n : Option ℕ) → Keeps A Q (Service.sync_shared A id n)
  sync_shared-Keeps id none = search user_rules
  sync_shared-Keeps id (some n) = search user_rules

  pub patch_vpn_user-Keeps :
      (reg : Registry) (m : VpnUserMeta) (req : PatchVpnReq) (id : Option ℕ) (b : Bool)
      → Keeps A Q (patch_vpn_user A reg m req id b)
  unfolding patch_vpn_user
  patch_vpn_user-Keeps reg m req id b =
      search
        (user_rules, new_password-Keeps, check_shared-Keeps, check_manager-Keeps, sync_shared-Keeps)
        depth 24

  retitled-Keeps : (m : VpnUserMeta) (t : Option Text) → Keeps A Q (Service.retitled A m t)
  retitled-Keeps m none = search user_rules
  retitled-Keeps m (some t) = search user_rules depth 8

  pub admin_patch_vpn_user-Keeps :
      (reg : Registry) (m : VpnUserMeta) (req : AdminPatchVpnReq)
      → Keeps A Q (admin_patch_vpn_user A reg m req)
  unfolding admin_patch_vpn_user
  admin_patch_vpn_user-Keeps reg m req =
      search (user_rules, retitled-Keeps, patch_vpn_user-Keeps) depth 8

  pub delete_vpn_user-Keeps : (m : VpnUserMeta) → Keeps A Q (delete_vpn_user A m)
  unfolding delete_vpn_user
  delete_vpn_user-Keeps m = search user_rules depth 8

  pub assign_vpn_profile-Keeps :
      (reg : Registry) (m : VpnUserMeta) (req : AssignProfileReq) (b : Bool)
      → Keeps A Q (assign_vpn_profile A reg m req b)
  unfolding assign_vpn_profile
  assign_vpn_profile-Keeps reg m req b = search user_rules depth 16

  pub remove_vpn_profile-Keeps : (id : Text) → Keeps A Q (remove_vpn_profile A id)
  unfolding remove_vpn_profile
  remove_vpn_profile-Keeps id = search user_rules

  pub assert_manager_owner-Keeps :
      (reg : Registry) (c : Claims) (n k : Text) → Keeps A Q (assert_manager_owner A reg c n k)
  unfolding assert_manager_owner
  assert_manager_owner-Keeps reg c n k = search user_rules

  assert_if-Keeps :
      (c : Option Claims) (reg : Registry) (u : User) → Keeps A Q (ByName.assert_if A c reg u)
  assert_if-Keeps none reg u = search user_rules
  assert_if-Keeps (some c) reg u = assert_manager_owner-Keeps reg c u.name u.comment

  detail_of-Keeps :
      (r : Result VpnUserMeta) (reg : Registry) (n : Text) (b : Bool)
      → Keeps A Q (ByName.detail_of A r reg n b)
  detail_of-Keeps (ok m) reg n b = search user_rules
  detail_of-Keeps (err no_rows) reg n b = search user_rules depth 16
  detail_of-Keeps (err e) reg n b = search user_rules

  pub build_vpn_detail_by_name-Keeps :
      (reg : Registry) (n : Text) (b : Bool) → Keeps A Q (build_vpn_detail_by_name A reg n b)
  unfolding build_vpn_detail_by_name
  build_vpn_detail_by_name-Keeps reg n b = search (user_rules, detail_of-Keeps) depth 8

  found_again-Keeps : (r : Result VpnUserMeta) (e : Error) → Keeps A Q (ByName.found_again A r e)
  found_again-Keeps (ok m) e = search user_rules
  found_again-Keeps (err x) e = search user_rules

  inserted-Keeps : (r : Result ℕ) (m : VpnUserMeta) → Keeps A Q (ByName.inserted A r m)
  inserted-Keeps (ok id) m = search user_rules
  inserted-Keeps (err e) m = search (user_rules, found_again-Keeps) depth 8

  ensured-Keeps :
      (r : Result VpnUserMeta) (reg : Registry) (n : Text) (c : Option Claims)
      → Keeps A Q (ByName.ensured A r reg n c)
  ensured-Keeps (ok m) reg n c = search user_rules
  ensured-Keeps (err no_rows) reg n c =
      search (user_rules, assert_if-Keeps, inserted-Keeps) depth 16
  ensured-Keeps (err e) reg n c = search user_rules

  pub ensure_vpn_meta-Keeps :
      (reg : Registry) (n : Text) (c : Option Claims) → Keeps A Q (ensure_vpn_meta A reg n c)
  unfolding ensure_vpn_meta
  ensure_vpn_meta-Keeps reg n c = search (user_rules, ensured-Keeps) depth 8

  deleted-Keeps : (r : Result VpnUserMeta) (n : Text) → Keeps A Q (ByName.deleted A r n)
  deleted-Keeps (ok m) n = delete_vpn_user-Keeps m
  deleted-Keeps (err no_rows) n = search user_rules
  deleted-Keeps (err e) n = search user_rules

  pub delete_vpn_by_name-Keeps : (n : Text) → Keeps A Q (delete_vpn_by_name A n)
  unfolding delete_vpn_by_name
  delete_vpn_by_name-Keeps n = search (user_rules, deleted-Keeps) depth 8

pub ruleset change_rules = (
  user_rules, patch_vpn_user-Keeps, admin_patch_vpn_user-Keeps, delete_vpn_user-Keeps,
  assign_vpn_profile-Keeps, remove_vpn_profile-Keeps, assert_manager_owner-Keeps,
  build_vpn_detail_by_name-Keeps, ensure_vpn_meta-Keeps, delete_vpn_by_name-Keeps,
)
