-- ===== src/Tests/Creations.antt =====
-- Runs of the creation of a user.
use fast_bypass.Base.{
  ◌++◌, lt_int, le_int, add_int, trim_space, ℕ, ◌≡◌, refl, codes, true, false, none, [], ◌∷◌,
  text_key,
}
use fast_bypass.Result.{ok}
use fast_bypass.Owner.{panel_comment, build_registry, resolve, find_by_name}
use fast_bypass.Mikrotik.Cache
use fast_bypass.Mikrotik.Fake
use fast_bypass.Store.{list_managers, create_vpn_meta, create_activation}
use fast_bypass.App.{
  add_vpn_user, setup_vpn_certificates, resolve_vpn_password, record_activation, profile_dtos,
  active_end, create_vpn_user, CreateVpnReq, CreatedVpn, manager_used_quota, bad_shared_users,
  World, registry,
}
use fast_bypass.App.Service.Quota.{Undisturbed, create_vpn_user_within_quota}
use fast_bypass.Quota.{
  check_add, used_for_manager, used_from, user_has_active_profile, profile_active,
}
use fast_bypass.Password.{valid_vpn}
use fast_bypass.Tests.Tables.{some_manager}
use fast_bypass.Tests.Requests.{one_byte, panel, with_row}

abbrev creation : CreateVpnReq
creation = record {
  local_name = codes "y";
  password = codes "secret12";
  shared_users = 3;
  disabled = none;
  contact_info = none;
  notes = none;
  assign_profile = none;
  profile_name = none;
  amount_paid = none;
  currency = none;
  note = none;
  cert_title = none;
}

abbrev created_user : CreatedVpn
created_user = record {
  id = 2;
  mikrotik_name = codes "ali-y";
  shared_users = 3;
  disabled = false;
  profiles =
      record {
        id = codes "*p" ++ one_byte 3;
        profile = codes "profile-open-2M-30d";
        state = codes "active";
        end_time = one_byte 3;
      }
      ∷ [];
}

abbrev after_creation : World panel
after_creation = (create_vpn_user panel some_manager creation with_row).1

create_vpn_user_run :
    create_vpn_user panel some_manager creation with_row ≡ (ok created_user, after_creation)
unfolding create_vpn_user list_managers lt_int trim_space valid_vpn Cache.list_users Fake.list_users
    used_for_manager used_from resolve find_by_name build_registry Cache.list_user_profiles
    Fake.list_user_profiles user_has_active_profile profile_active check_add le_int add_int
    Cache.add_user Fake.add_user Cache.add_user_profile Fake.add_user_profile Cache.invalidate_cache
    add_vpn_user manager_used_quota registry setup_vpn_certificates resolve_vpn_password
    record_activation profile_dtos active_end create_vpn_meta create_activation panel_comment
create_vpn_user_run = refl

create_vpn_user_within_quota_example :
    (v : World panel) × (used : ℕ) × Undisturbed panel with_row v
    × ((manager_used_quota panel 1 v).0 ≡ ok used)
    × (check_add used 5 3 ≡ true)
    × (bad_shared_users panel 3 ≡ false)
create_vpn_user_within_quota_example =
    create_vpn_user_within_quota panel some_manager creation with_row after_creation
      create_vpn_user_run refl
