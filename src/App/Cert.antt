-- ===== src/App/Cert.antt =====
-- Certificates and connection data (backend/internal/app/cert.go).
use fast_bypass.Base.{
  ℕ, [], Text, codes, text_eq, trim_space, is_empty, Bool, true, false, not, Option, none, some,
  ◌==◌, if◌then◌else◌,
}
use fast_bypass.Result.{
  Exec, Result, ⊤, Error, ok, err, no_rows, invalid_cert_title, failure, pure, raise, lift,
  raise_if, attempt, ◌>>=◌, ◌>>◌,
}
use fast_bypass.Password.{valid_cert_title, generate_cert_key_pass}
use fast_bypass.Mikrotik.{User}
use fast_bypass.Store.{Manager, VpnUserMeta}
use fast_bypass.App.State.{App, World, query, on_db, on_router, on_random}
use fast_bypass.App.Ovpn.{
  user_ovpn_file_name, patch_ovpn_friendly_name, patch_ovpn_server_address, fill_template,
}

pub record OpenVpnResolved : Type 0 where
  pub use_cert : Bool
  pub key_password : Text
  pub cert_title : Text

-- The map of `connectionBundleFor`.
pub record Bundle : Type 0 where
  pub username : Text
  pub password : Option Text
  pub openvpn_key_password : Text
  pub l2tp_ipsec_secret : Text
  pub l2tp_server : Text
  pub openvpn_download_url : Text

-- A title column that is not NULL and not blank.
abbrev pub title_of : Option Text → Option Text
title_of none = none
title_of (some t) = if is_empty (trim_space t) then none else some t

-- `NullString{String: t, Valid: true}` trimmed, or "".
abbrev pub trimmed_title : Option Text → Text
trimmed_title none = []
trimmed_title (some t) = trim_space t

-- The passphrase that goes with a title: NULL and "" are an error.
abbrev pub with_key : Option Text → Text → Error → Result OpenVpnResolved
with_key none title e = err e
with_key (some key) title e =
    if is_empty key
    then err e
    else ok (record { use_cert = true; key_password = key; cert_title = title })

-- A row that is not in the table, for a user that has none.
abbrev pub new_meta : Text → Option ℕ → VpnUserMeta
new_meta name manager_id = record {
  id = 0;
  mikrotik_name = name;
  manager_id = manager_id;
  contact_info = none;
  notes = none;
  cert_title = none;
  cert_key_pass = none;
  created_at = [];
  updated_at = [];
}

-- An id of 0 stands for no owner.
abbrev pub owner_column : ℕ → Option ℕ
owner_column id = if id == 0 then none else some id

module _ (A : App) where
  abbrev pub no_cert : OpenVpnResolved
  no_cert = record { use_cert = false; key_password = A.cfg.openvpn_key_password; cert_title = [] }

  abbrev pub resolve_manager : Option Text → Option Text → Exec (World A) OpenVpnResolved
  resolve_manager none key = pure no_cert
  resolve_manager (some title) key =
      lift (with_key key title (failure (codes "manager cert_key_pass missing")))

  abbrev pub resolve_owner : Option ℕ → Exec (World A) OpenVpnResolved
  resolve_owner none = pure no_cert
  resolve_owner (some id) = do
    m ← query A (A.store.find_manager_by_id id)
    resolve_manager (title_of m.cert_title) m.cert_key_pass

  abbrev pub resolve_title : Option Text → VpnUserMeta → Exec (World A) OpenVpnResolved
  resolve_title none meta = resolve_owner meta.manager_id
  resolve_title (some title) meta =
      lift (with_key meta.cert_key_pass title (failure (codes "user cert_key_pass missing")))

  -- The user's own certificate comes first, then the manager's, then the common key password.
  unfoldable pub resolve_open_vpn : VpnUserMeta → Exec (World A) OpenVpnResolved
  resolve_open_vpn meta = resolve_title (title_of meta.cert_title) meta

  unfoldable pub ensure_user_ovpn_file : Text → Text → Exec (World A) ⊤
  ensure_user_ovpn_file name cert_title = do
    body ← on_router A (A.mt.read_file_contents (user_ovpn_file_name cert_title))
    let body' = patch_ovpn_server_address (patch_ovpn_friendly_name body name) A.cfg.l2tp_server
    on_router A (A.mt.write_file_contents (user_ovpn_file_name name) body')

  unfoldable pub provision_certificate : Text → Text → Exec (World A) ⊤
  provision_certificate title passphrase =
      on_router A (A.mt.generate_certificate A.cfg.mikrotik_cert_script title passphrase)

  -- The columns cert_title and cert_key_pass.
  abbrev pub CertColumns : Type 0
  CertColumns = Option Text × Option Text

  abbrev pub manager_file : Text → Option Text → Exec (World A) CertColumns
  manager_file name none = pure (none, none)
  manager_file name (some title) = do ensure_user_ovpn_file name title; pure (none, none)

  abbrev pub manager_title : Option Manager → Option Text
  manager_title none = none
  manager_title (some m) = title_of m.cert_title

  -- The title of the user's own, trimmed; "" where the request has none.
  abbrev pub own_certificate : Text → Text → Exec (World A) CertColumns
  own_certificate name title = do
    raise_if (not (valid_cert_title title)) invalid_cert_title
    pass ← on_random A generate_cert_key_pass
    provision_certificate title pass
    ensure_user_ovpn_file name title
    pure (some title, some pass)

  unfoldable pub setup_vpn_certificates :
      Text → Option Manager → Option Text → Exec (World A) CertColumns
  unfolding ensure_user_ovpn_file provision_certificate
  setup_vpn_certificates name mgr admin_cert_title =
      let title = trimmed_title admin_cert_title in
      if is_empty title then manager_file name (manager_title mgr) else own_certificate name title

  unfoldable pub provision_user_certificate : VpnUserMeta → Text → Exec (World A) ⊤
  unfolding ensure_user_ovpn_file provision_certificate
  provision_user_certificate meta raw_title = do
    let title = trim_space raw_title
    raise_if (not (valid_cert_title title)) invalid_cert_title
    pass ← on_random A generate_cert_key_pass
    provision_certificate title pass
    ensure_user_ovpn_file meta.mikrotik_name title
    on_db A (A.store.update_vpn_meta_cert meta.id title pass)

  unfoldable pub apply_vpn_user_cert_title_change : VpnUserMeta → Text → Exec (World A) ⊤
  unfolding provision_user_certificate
  apply_vpn_user_cert_title_change meta raw_title =
      let new_title = trim_space raw_title in
      if text_eq new_title (trimmed_title meta.cert_title)
      then pure tt
      else (if is_empty new_title
          then on_db A (A.store.clear_vpn_meta_cert meta.id)
          else provision_user_certificate meta new_title)

  unfoldable pub setup_manager_certificate : ℕ → Text → Exec (World A) ⊤
  unfolding provision_certificate
  setup_manager_certificate manager_id cert_title =
      let title = trim_space cert_title in
      if is_empty title then pure tt else (do
        raise_if (not (valid_cert_title title)) invalid_cert_title
        pass ← on_random A generate_cert_key_pass
        provision_certificate title pass
        on_db A (A.store.update_manager_cert manager_id title pass))

  unfoldable pub apply_manager_cert_title_change : Manager → Text → Exec (World A) ⊤
  unfolding setup_manager_certificate
  apply_manager_cert_title_change mgr raw_title =
      let new_title = trim_space raw_title in
      if text_eq new_title (trimmed_title mgr.cert_title)
      then pure tt
      else (if is_empty new_title
          then on_db A (A.store.clear_manager_cert mgr.id)
          else setup_manager_certificate mgr.id new_title)

  -- `renderOvpn`
  unfoldable pub render_ovpn : Text → Text → Text → Exec (World A) Text
  render_ovpn username pass key_pass = do
    template ← lift A.ovpn_template
    pure (fill_template template username pass key_pass)

  -- Its caller has always fetched the user.
  unfoldable pub ovpn_body_for_meta : VpnUserMeta → User → Exec (World A) Text
  unfolding resolve_open_vpn render_ovpn
  ovpn_body_for_meta meta u = do
    r ← resolve_open_vpn meta
    if r.use_cert
        then on_router A (A.mt.read_file_contents (user_ovpn_file_name meta.mikrotik_name))
        else render_ovpn u.name u.password r.key_password

  unfoldable pub connection_bundle_for : VpnUserMeta → User → Exec (World A) Bundle
  unfolding resolve_open_vpn
  connection_bundle_for meta u = do
    r ← resolve_open_vpn meta
    pure (record {
      username = if is_empty u.name then meta.mikrotik_name else u.name;
      password = if is_empty u.password then none else some u.password;
      openvpn_key_password = r.key_password;
      l2tp_ipsec_secret = A.cfg.l2tp_ipsec_secret;
      l2tp_server = A.cfg.l2tp_server;
      openvpn_download_url = A.cfg.openvpn_download_url;
    })

  abbrev pub bundle_of : Result VpnUserMeta → Text → ℕ → User → Exec (World A) Bundle
  bundle_of (ok meta) name owner_id u = connection_bundle_for meta u
  bundle_of (err no_rows) name owner_id u =
      connection_bundle_for (new_meta name (owner_column owner_id)) u
  bundle_of (err e) name owner_id u = raise e

  unfoldable pub connection_bundle_for_owner : Text → ℕ → User → Exec (World A) Bundle
  unfolding connection_bundle_for
  connection_bundle_for_owner name owner_id u = do
    found ← attempt (query A (A.store.find_vpn_meta_by_name name))
    bundle_of found name owner_id u
