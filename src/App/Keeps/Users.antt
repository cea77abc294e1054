-- ===== src/App/Keeps/Users.antt =====
-- The services for VPN users keep what every statement that writes keeps.
use fast_bypass.Base.{ℕ, Text, Bool, false, Option, List, [], ◌∷◌, Dict}
use fast_bypass.Result.{Exec, Result, Error, ok, err}
use fast_bypass.Mikrotik.{User, UserProfile}
use fast_bypass.Owner.{Registry}
use fast_bypass.Quota.{TimeFormats, aggregate_from, Aggregate}
use fast_bypass.Store.{Manager, VpnUserMeta, ProfileActivation}
use fast_bypass.App.State.{App, World, on_router}
use fast_bypass.App.Sync
use fast_bypass.App.Sync.{
  mikrotik_shared_users_by_name, sync_shared_users_to_unsettled_activation, live_dtos,
  activation_dtos_with_live_shared,
}
use fast_bypass.App.Service
use fast_bypass.App.Service.{
  CreateVpnReq, PatchVpnReq, AdminPatchVpnReq, AssignProfileReq, manager_used_quota, enrich_owner,
  build_vpn_detail, resolve_vpn_password, record_activation, add_vpn_user, create_vpn_user,
  create_orphan_vpn_user, patch_vpn_user, admin_patch_vpn_user, delete_vpn_user, assign_vpn_profile,
  remove_vpn_profile,
}
use fast_bypass.App.Keeps.{KeptByManagers, Keeps}
use fast_bypass.App.Keeps.Reads.{manager_used_quota-Keeps}
use fast_bypass.App.Keeps.Services.{cert_rules}

module _ {A : App} {Q : A.store.State → Type 0} (M : KeptByManagers A.store Q) where
  pub aggregate_from-Keeps :
      (t : TimeFormats) (reg : Registry) (now : ℕ) (a : Aggregate) (us : List User)
      → Keeps A Q
          (aggregate_from t reg (λ name. on_router A (A.mt.list_user_profiles name)) now a us)
  unfolding aggregate_from
  aggregate_from-Keeps t reg now a [] = search cert_rules
  aggregate_from-Keeps t reg now a (u ∷ us) =
      let ih = λ (b : Aggregate). aggregate_from-Keeps t reg now b us in
      search (cert_rules, ih) depth 8

  pub enrich_owner-Keeps : (reg : Registry) (n c : Text) → Keeps A Q (enrich_owner A reg n c)
  unfolding enrich_owner
  enrich_owner-Keeps reg n c = search cert_rules depth 8

  pub mikrotik_shared_users_by_name-Keeps : Keeps A Q (mikrotik_shared_users_by_name A)
  unfolding mikrotik_shared_users_by_name
  mikrotik_shared_users_by_name-Keeps = search cert_rules depth 8

  pub sync_shared_users-Keeps :
      (id n : ℕ) → Keeps A Q (sync_shared_users_to_unsettled_activation A id n)
  unfolding sync_shared_users_to_unsettled_activation
  sync_shared_users-Keeps id n = search cert_rules depth 8

  pub write_back-Keeps : (id old new : ℕ) → Keeps A Q (Sync.write_back A id old new)
  write_back-Keeps id old new = search cert_rules depth 8

  live_dtos-Keeps :
      (m : Dict Text ℕ) (n : Text) (b : Bool) (acts : List ProfileActivation)
      → Keeps A Q (live_dtos A m n b acts)
  unfolding live_dtos
  live_dtos-Keeps m n b [] = search cert_rules
  live_dtos-Keeps m n b (a ∷ acts) =
      let ih = λ (b : Bool). live_dtos-Keeps m n b acts in
      search (cert_rules, write_back-Keeps, ih) depth 8

  dtos_of-Keeps :
      (r : Result (Dict Text ℕ)) (acts : List ProfileActivation) (n : Text)
      → Keeps A Q (Sync.dtos_of A r acts n)
  dtos_of-Keeps (ok m) acts n = live_dtos-Keeps m n false acts
  dtos_of-Keeps (err e) acts n = search cert_rules

  activation_dtos-Keeps :
      (acts : List ProfileActivation) (n : Text)
      → Keeps A Q (activation_dtos_with_live_shared A acts n)
  unfolding activation_dtos_with_live_shared
  activation_dtos-Keeps acts n =
      search (cert_rules, mikrotik_shared_users_by_name-Keeps, dtos_of-Keeps) depth 8

  pub build_vpn_detail-Keeps :
      (reg : Registry) (m : VpnUserMeta) (b : Bool) → Keeps A Q (build_vpn_detail A reg m b)
  unfolding build_vpn_detail
  build_vpn_detail-Keeps reg m b =
      search (cert_rules, activation_dtos-Keeps, enrich_owner-Keeps) depth 12

  pub resolve_vpn_password-Keeps : (p : Text) → Keeps A Q (resolve_vpn_password A p)
  unfolding resolve_vpn_password
  resolve_vpn_password-Keeps p = search cert_rules depth 8

  pub record_activation-Keeps :
      (id : ℕ) (p : Text) (n : ℕ) (a c o : Option Text) (ps : List UserProfile)
      → Keeps A Q (record_activation A id p n a c o ps)
  unfolding record_activation
  record_activation-Keeps id p n a c o ps = search cert_rules depth 8

  map_error-Keeps :
      {X : Type 0} (f : Error → Error) (m : Exec (World A) X)
      → Keeps A Q m
      → Keeps A Q (Service.map_error f m)
  map_error-Keeps {X} f m k = record { at = λ w h. go (m w).0 (m w).1 (k.at w h) }
    where
      go :
          (r : Result X) (v : World A)
          → Q v.db
          → Q (Service.map_error f (λ (x : World A). (r, v)) v).1.db
      go (ok x) v h = h
      go (err e) v h = h

  assign_new-Keeps :
      (n : Text) (id : ℕ) (req : CreateVpnReq) → Keeps A Q (Service.assign_new A n id req)
  assign_new-Keeps n id req = search (cert_rules, record_activation-Keeps) depth 16

  add_vpn_user-Keeps :
      (n p c : Text) (m : Option Manager) (id : Option ℕ) (req : CreateVpnReq)
      → Keeps A Q (add_vpn_user A n p c m id req)
  unfolding add_vpn_user
  add_vpn_user-Keeps n p c m id req =
      search (cert_rules, map_error-Keeps, assign_new-Keeps) depth 16

  pub create_vpn_user-Keeps :
      (m : Manager) (req : CreateVpnReq) → Keeps A Q (create_vpn_user A m req)
  unfolding create_vpn_user
  create_vpn_user-Keeps m req =
      search (cert_rules, resolve_vpn_password-Keeps, manager_used_quota-Keeps, add_vpn_user-Keeps)
        depth 20

  pub create_orphan_vpn_user-Keeps : (req : CreateVpnReq) → Keeps A Q (create_orphan_vpn_user A req)
  unfolding create_orphan_vpn_user
  create_orphan_vpn_user-Keeps req =
      search (cert_rules, resolve_vpn_password-Keeps, add_vpn_user-Keeps) depth 16

pub ruleset user_rules = (
  cert_rules, manager_used_quota-Keeps, aggregate_from-Keeps, enrich_owner-Keeps,
  mikrotik_shared_users_by_name-Keeps, sync_shared_users-Keeps, write_back-Keeps,
  build_vpn_detail-Keeps, resolve_vpn_password-Keeps, record_activation-Keeps,
  create_vpn_user-Keeps, create_orphan_vpn_user-Keeps,
)
