-- ===== src/Store/Interface.antt =====
-- The methods of `Store` that the application calls, over an unknown state: a statement may also
-- fail for reasons of its own. The tables are one such store.
use fast_bypass.Base.{ℕ, Text, Bool, Option, List, Dict}
use fast_bypass.Result.{Exec, Result, ⊤}
use fast_bypass.Store.Rows.{
  RenewalFilter, RenewalSummary, RenewalRow, RenewalSharedUsersRow, PanelAdmin, Manager,
  ManagerSlug, VpnUserMeta, ProfileActivation, RenewalThrough,
}
use fast_bypass.Store.Tables.{Db}
use fast_bypass.Store.Managers
use fast_bypass.Store.Metas
use fast_bypass.Store.Activations
use fast_bypass.Store.Renewals

pub record Store : Type 1 where
  pub State : Type 0
  pub admin_count : State → Result ℕ
  pub create_admin : Text → Text → Exec State ⊤
  pub find_admin_by_username : Text → State → Result PanelAdmin
  pub update_admin_password : ℕ → Text → Exec State ⊤
  pub find_manager_by_username : Text → State → Result Manager
  pub find_manager_by_id : ℕ → State → Result Manager
  pub list_managers : State → Result (List Manager)
  pub list_manager_slugs : State → Result (List ManagerSlug)
  pub create_manager : Manager → Exec State ℕ
  pub update_manager_cert : ℕ → Text → Text → Exec State ⊤
  pub clear_manager_cert : ℕ → Exec State ⊤
  pub update_manager :
      ℕ → Option Text → Option Text → Option ℕ → Option Bool → Option Text → Exec State ⊤
  pub find_vpn_meta_by_id : ℕ → State → Result VpnUserMeta
  pub find_vpn_meta_by_name : Text → State → Result VpnUserMeta
  pub find_vpn_metas_by_names : List Text → State → Dict Text VpnUserMeta
  pub create_vpn_meta : VpnUserMeta → Exec State ℕ
  pub update_vpn_meta_cert : ℕ → Text → Text → Exec State ⊤
  pub clear_vpn_meta_cert : ℕ → Exec State ⊤
  pub update_vpn_meta : ℕ → Option Text → Option Text → Option ℕ → Exec State ⊤
  pub delete_vpn_meta : ℕ → Exec State ⊤
  pub create_activation : ProfileActivation → Exec State ℕ
  pub list_activations_by_meta_id : ℕ → State → Result (List ProfileActivation)
  pub update_latest_unsettled_activation_shared_users : ℕ → ℕ → Exec State ⊤
  pub update_activation_shared_users : ℕ → ℕ → Exec State ⊤
  pub list_renewals : RenewalFilter → State → Result (List RenewalRow × ℕ × RenewalSummary)
  pub list_renewal_shared_users_in_scope :
      RenewalFilter → State → Result (List RenewalSharedUsersRow)
  pub settle_through : ℕ → RenewalThrough → Exec State ℕ

abbrev pub sql_store : Store
sql_store = record {
  State = Db;
  admin_count = Managers.admin_count;
  create_admin = Managers.create_admin;
  find_admin_by_username = Managers.find_admin_by_username;
  update_admin_password = Managers.update_admin_password;
  find_manager_by_username = Managers.find_manager_by_username;
  find_manager_by_id = Managers.find_manager_by_id;
  list_managers = Managers.list_managers;
  list_manager_slugs = Managers.list_manager_slugs;
  create_manager = Managers.create_manager;
  update_manager_cert = Managers.update_manager_cert;
  clear_manager_cert = Managers.clear_manager_cert;
  update_manager = Managers.update_manager;
  find_vpn_meta_by_id = Metas.find_vpn_meta_by_id;
  find_vpn_meta_by_name = Metas.find_vpn_meta_by_name;
  find_vpn_metas_by_names = Metas.find_vpn_metas_by_names;
  create_vpn_meta = Metas.create_vpn_meta;
  update_vpn_meta_cert = Metas.update_vpn_meta_cert;
  clear_vpn_meta_cert = Metas.clear_vpn_meta_cert;
  update_vpn_meta = Metas.update_vpn_meta;
  delete_vpn_meta = Metas.delete_vpn_meta;
  create_activation = Activations.create_activation;
  list_activations_by_meta_id = Activations.list_activations_by_meta_id;
  update_latest_unsettled_activation_shared_users =
      Activations.update_latest_unsettled_activation_shared_users;
  update_activation_shared_users = Activations.update_activation_shared_users;
  list_renewals = Renewals.list_renewals;
  list_renewal_shared_users_in_scope = Renewals.list_renewal_shared_users_in_scope;
  settle_through = Activations.settle_through;
}
