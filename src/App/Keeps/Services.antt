-- ===== src/App/Keeps/Services.antt =====
-- The services keep what every statement that writes keeps.
use fast_bypass.Base.{ℕ, Text, Bool, Option, none, some}
use fast_bypass.Result.{Result, ok, err, no_rows}
use fast_bypass.Mikrotik.{User}
use fast_bypass.Store.{Manager, VpnUserMeta, ProfileActivation, RenewalThrough}
use fast_bypass.App.State.{App, on_db, registry}
use fast_bypass.App.Cert
use fast_bypass.App.Cert.{
  OpenVpnResolved, resolve_open_vpn, ensure_user_ovpn_file, provision_certificate,
  setup_vpn_certificates, provision_user_certificate, apply_vpn_user_cert_title_change,
  setup_manager_certificate, apply_manager_cert_title_change, render_ovpn, ovpn_body_for_meta,
  connection_bundle_for, connection_bundle_for_owner, title_of,
}
use fast_bypass.App.Keeps.{KeptByWrites, KeptByManagers, Keeps, keeps_rules}

module _ {A : App} {Q : A.store.State → Type 0} (W : KeptByWrites A.store Q) where
  pub create_admin-Keeps : (name hash : Text) → Keeps A Q (on_db A (A.store.create_admin name hash))
  create_admin-Keeps name hash = record { at = λ w. W.create_admin name hash w.db }

  pub update_manager_cert-Keeps :
      (id : ℕ) (t p : Text) → Keeps A Q (on_db A (A.store.update_manager_cert id t p))
  update_manager_cert-Keeps id t p = record { at = λ w. W.update_manager_cert id t p w.db }

  pub clear_manager_cert-Keeps : (id : ℕ) → Keeps A Q (on_db A (A.store.clear_manager_cert id))
  clear_manager_cert-Keeps id = record { at = λ w. W.clear_manager_cert id w.db }

  pub update_manager-Keeps :
      (id : ℕ) (u n : Option Text) (q : Option ℕ) (a : Option Bool) (h : Option Text)
      → Keeps A Q (on_db A (A.store.update_manager id u n q a h))
  update_manager-Keeps id u n q a h = record { at = λ w. W.update_manager id u n q a h w.db }

  pub settle_through-Keeps :
      (id : ℕ) (t : RenewalThrough) → Keeps A Q (on_db A (A.store.settle_through id t))
  settle_through-Keeps id t = record { at = λ w. W.settle_through id t w.db }

module _ {A : App} {Q : A.store.State → Type 0} (M : KeptByManagers A.store Q) where
  pub update_admin_password-Keeps :
      (id : ℕ) (hash : Text) → Keeps A Q (on_db A (A.store.update_admin_password id hash))
  update_admin_password-Keeps id hash = record { at = λ w. M.update_admin_password id hash w.db }

  pub update_own-Keeps :
      (id : ℕ) (n h : Option Text)
      → Keeps A Q (on_db A (A.store.update_manager id none n none none h))
  update_own-Keeps id n h = record { at = λ w. M.update_own id n h w.db }

  pub create_vpn_meta-Keeps : (m : VpnUserMeta) → Keeps A Q (on_db A (A.store.create_vpn_meta m))
  create_vpn_meta-Keeps m = record { at = λ w. M.create_vpn_meta m w.db }

  pub update_vpn_meta_cert-Keeps :
      (id : ℕ) (t p : Text) → Keeps A Q (on_db A (A.store.update_vpn_meta_cert id t p))
  update_vpn_meta_cert-Keeps id t p = record { at = λ w. M.update_vpn_meta_cert id t p w.db }

  pub clear_vpn_meta_cert-Keeps : (id : ℕ) → Keeps A Q (on_db A (A.store.clear_vpn_meta_cert id))
  clear_vpn_meta_cert-Keeps id = record { at = λ w. M.clear_vpn_meta_cert id w.db }

  pub update_vpn_meta-Keeps :
      (id : ℕ) (c n : Option Text) (m : Option ℕ)
      → Keeps A Q (on_db A (A.store.update_vpn_meta id c n m))
  update_vpn_meta-Keeps id c n m = record { at = λ w. M.update_vpn_meta id c n m w.db }

  pub delete_vpn_meta-Keeps : (id : ℕ) → Keeps A Q (on_db A (A.store.delete_vpn_meta id))
  delete_vpn_meta-Keeps id = record { at = λ w. M.delete_vpn_meta id w.db }

  pub create_activation-Keeps :
      (a : ProfileActivation) → Keeps A Q (on_db A (A.store.create_activation a))
  create_activation-Keeps a = record { at = λ w. M.create_activation a w.db }

  pub update_latest-Keeps :
      (id n : ℕ)
      → Keeps A Q (on_db A (A.store.update_latest_unsettled_activation_shared_users id n))
  update_latest-Keeps id n = record {
    at = λ w. M.update_latest_unsettled_activation_shared_users id n w.db;
  }

  pub update_activation-Keeps :
      (id n : ℕ) → Keeps A Q (on_db A (A.store.update_activation_shared_users id n))
  update_activation-Keeps id n = record { at = λ w. M.update_activation_shared_users id n w.db }

pub ruleset write_rules = (
  keeps_rules, create_admin-Keeps, update_admin_password-Keeps, update_own-Keeps,
  update_manager_cert-Keeps, clear_manager_cert-Keeps, update_manager-Keeps, create_vpn_meta-Keeps,
  update_vpn_meta_cert-Keeps, clear_vpn_meta_cert-Keeps, update_vpn_meta-Keeps,
  delete_vpn_meta-Keeps, create_activation-Keeps, update_latest-Keeps, update_activation-Keeps,
  settle_through-Keeps,
)

module _ {A : App} {Q : A.store.State → Type 0} (M : KeptByManagers A.store Q) where
  pub registry-Keeps : Keeps A Q (registry A)
  unfolding registry
  registry-Keeps = search write_rules

  resolve_manager-Keeps : (t k : Option Text) → Keeps A Q (Cert.resolve_manager A t k)
  resolve_manager-Keeps none k = search write_rules
  resolve_manager-Keeps (some t) k = search write_rules

  resolve_owner-Keeps : (id : Option ℕ) → Keeps A Q (Cert.resolve_owner A id)
  resolve_owner-Keeps none = search write_rules
  resolve_owner-Keeps (some id) = search (write_rules, resolve_manager-Keeps)

  resolve_title-Keeps : (t : Option Text) (m : VpnUserMeta) → Keeps A Q (Cert.resolve_title A t m)
  resolve_title-Keeps none m = resolve_owner-Keeps m.manager_id
  resolve_title-Keeps (some t) m = search write_rules

  pub resolve_open_vpn-Keeps : (m : VpnUserMeta) → Keeps A Q (resolve_open_vpn A m)
  unfolding resolve_open_vpn
  resolve_open_vpn-Keeps m = resolve_title-Keeps (title_of m.cert_title) m

  pub ensure_user_ovpn_file-Keeps : (n t : Text) → Keeps A Q (ensure_user_ovpn_file A n t)
  unfolding ensure_user_ovpn_file
  ensure_user_ovpn_file-Keeps n t = search write_rules

  manager_file-Keeps : (n : Text) (t : Option Text) → Keeps A Q (Cert.manager_file A n t)
  manager_file-Keeps n none = search write_rules
  manager_file-Keeps n (some t) = search (write_rules, ensure_user_ovpn_file-Keeps)

  pub setup_vpn_certificates-Keeps :
      (n : Text) (m : Option Manager) (t : Option Text) → Keeps A Q (setup_vpn_certificates A n m t)
  unfolding setup_vpn_certificates
  setup_vpn_certificates-Keeps n m t =
      search (write_rules, manager_file-Keeps, ensure_user_ovpn_file-Keeps) depth 12

  pub provision_user_certificate-Keeps :
      (m : VpnUserMeta) (t : Text) → Keeps A Q (provision_user_certificate A m t)
  unfolding provision_user_certificate
  provision_user_certificate-Keeps m t = search (write_rules, ensure_user_ovpn_file-Keeps)

  pub apply_vpn_user_cert_title_change-Keeps :
      (m : VpnUserMeta) (t : Text) → Keeps A Q (apply_vpn_user_cert_title_change A m t)
  unfolding apply_vpn_user_cert_title_change
  apply_vpn_user_cert_title_change-Keeps m t =
      search (write_rules, provision_user_certificate-Keeps) depth 8

  pub render_ovpn-Keeps : (u p k : Text) → Keeps A Q (render_ovpn A u p k)
  unfolding render_ovpn
  render_ovpn-Keeps u p k = search write_rules

  pub ovpn_body_for_meta-Keeps : (m : VpnUserMeta) (u : User) → Keeps A Q (ovpn_body_for_meta A m u)
  unfolding ovpn_body_for_meta
  ovpn_body_for_meta-Keeps m u =
      search (write_rules, resolve_open_vpn-Keeps, render_ovpn-Keeps) depth 8

  pub connection_bundle_for-Keeps :
      (m : VpnUserMeta) (u : User) → Keeps A Q (connection_bundle_for A m u)
  unfolding connection_bundle_for
  connection_bundle_for-Keeps m u = search (write_rules, resolve_open_vpn-Keeps) depth 8

  bundle_of-Keeps :
      (r : Result VpnUserMeta) (n : Text) (id : ℕ) (u : User)
      → Keeps A Q (Cert.bundle_of A r n id u)
  bundle_of-Keeps (ok m) n id u = connection_bundle_for-Keeps m u
  bundle_of-Keeps (err no_rows) n id u = search (write_rules, connection_bundle_for-Keeps)
  bundle_of-Keeps (err e) n id u = search write_rules

  pub connection_bundle_for_owner-Keeps :
      (n : Text) (id : ℕ) (u : User) → Keeps A Q (connection_bundle_for_owner A n id u)
  unfolding connection_bundle_for_owner
  connection_bundle_for_owner-Keeps n id u = search (write_rules, bundle_of-Keeps) depth 8

module _ {A : App} {Q : A.store.State → Type 0} (W : KeptByWrites A.store Q) where
  pub setup_manager_certificate-Keeps :
      (id : ℕ) (t : Text) → Keeps A Q (setup_manager_certificate A id t)
  unfolding setup_manager_certificate
  setup_manager_certificate-Keeps id t = search write_rules depth 10

  pub apply_manager_cert_title_change-Keeps :
      (m : Manager) (t : Text) → Keeps A Q (apply_manager_cert_title_change A m t)
  unfolding apply_manager_cert_title_change
  apply_manager_cert_title_change-Keeps m t =
      search (write_rules, setup_manager_certificate-Keeps) depth 8

pub ruleset cert_rules = (
  write_rules, registry-Keeps, resolve_open_vpn-Keeps, setup_vpn_certificates-Keeps,
  provision_user_certificate-Keeps, apply_vpn_user_cert_title_change-Keeps,
  setup_manager_certificate-Keeps, apply_manager_cert_title_change-Keeps, ovpn_body_for_meta-Keeps,
  connection_bundle_for-Keeps, connection_bundle_for_owner-Keeps,
)
