-- ===== src/App/Service/Create.antt =====
-- The creation of a VPN user, with its rollbacks (backend/internal/app/vpn_service.go).
use fast_bypass.Base.{
  ℕ, Text, codes, length, trim_space, is_empty, Bool, true, ◌&&◌, ◌||◌, not, Option, none, some,
  List, [], ◌++◌, if◌then◌else◌, lt_int,
}
use fast_bypass.Result.{
  Exec, ⊤, quota_exceeded, failure, pure, raise_if, attempt, ignore, ◌>>=◌, ◌>>◌,
}
use fast_bypass.Mikrotik.{UserProfile}
use fast_bypass.Store.{Manager}
use fast_bypass.Owner.{panel_comment}
use fast_bypass.Quota.{check_add}
use fast_bypass.App.State.{App, World, on_db, on_router, or_rollback, registry}
use fast_bypass.App.Cert.{new_meta, setup_vpn_certificates}
use fast_bypass.App.Service.Requests.{
  CreateVpnReq, profile_dtos, CreatedVpn, or_else, or_nil, non_empty, vpn_user_disabled, name_error,
  map_error,
}
use fast_bypass.App.Service.Detail.{manager_used_quota, resolve_vpn_password, record_activation}

module _ (A : App) where
  abbrev pub assigned : CreateVpnReq → Bool
  assigned req = or_else req.assign_profile true

  abbrev pub profile_of : CreateVpnReq → Text
  profile_of req = or_else (non_empty req.profile_name) A.cfg.default_profile

  abbrev pub drop_user : Text → Exec (World A) ⊤
  drop_user name = ignore (on_router A (A.mt.remove_user name))

  -- The part of both creations after the row is there.
  abbrev pub assign_new : Text → ℕ → CreateVpnReq → Exec (World A) (List UserProfile)
  assign_new name meta_id req =
      if assigned req
      then (do
        or_rollback A (on_router A (A.mt.add_user_profile name (profile_of req)))
            (do drop_user name; ignore (on_db A (A.store.delete_vpn_meta meta_id)))
        profs ← attempt (on_router A (A.mt.list_user_profiles name))
        let rows = or_nil profs
        ignore (
            record_activation A meta_id (profile_of req) req.shared_users req.amount_paid
              req.currency none rows)
        pure rows)
      else pure []

  abbrev created : ℕ → Text → CreateVpnReq → List UserProfile → CreatedVpn
  created id name req profs = record {
    id = id;
    mikrotik_name = name;
    shared_users = req.shared_users;
    disabled = vpn_user_disabled req.disabled;
    profiles = profile_dtos profs;
  }

  abbrev pub bad_shared_users : ℕ → Bool
  bad_shared_users n = lt_int n 1 || lt_int A.cfg.shared_users_max n

  -- Both creations from the call of the router on.
  unfoldable pub add_vpn_user :
      Text → Text → Text → Option Manager → Option ℕ → CreateVpnReq → Exec (World A) CreatedVpn
  unfolding setup_vpn_certificates record_activation profile_dtos
  add_vpn_user name pass comment mgr manager_id req = do
    map_error name_error (
        on_router A
          (A.mt.add_user name pass comment req.shared_users (vpn_user_disabled req.disabled)))
    certs ← or_rollback A (setup_vpn_certificates A name mgr req.cert_title) (drop_user name)
    meta_id ←
        or_rollback A
          (on_db A (
            A.store.create_vpn_meta (record (new_meta name manager_id) {
              cert_title = certs.0;
              cert_key_pass = certs.1;
              contact_info = req.contact_info;
              notes = req.notes;
            })))
          (drop_user name)
    profs ← assign_new name meta_id req
    pure (created meta_id name req profs)

  unfoldable pub create_vpn_user : Manager → CreateVpnReq → Exec (World A) CreatedVpn
  unfolding add_vpn_user resolve_vpn_password manager_used_quota registry
  create_vpn_user mgr req = do
    reg ← registry A
    let prefix = mgr.slug ++ A.cfg.username_prefix_sep
    raise_if (lt_int A.cfg.username_local_max_len (length req.local_name))
        (failure (codes "local name too long"))
    pass ← resolve_vpn_password A req.password
    raise_if (bad_shared_users req.shared_users) (failure (codes "invalid shared_users"))
    let name = prefix ++ req.local_name
    let comment = panel_comment reg (record { id = mgr.id; slug = mgr.slug })
    used ← manager_used_quota A mgr.id
    raise_if (assigned req && not (check_add used mgr.quota req.shared_users)) quota_exceeded
    add_vpn_user name pass comment (some mgr) (some mgr.id) req

  unfoldable pub create_orphan_vpn_user : CreateVpnReq → Exec (World A) CreatedVpn
  unfolding add_vpn_user resolve_vpn_password
  create_orphan_vpn_user req = do
    let name = trim_space req.local_name
    raise_if (is_empty name || lt_int 32 (length name)) (failure (codes "invalid name"))
    pass ← resolve_vpn_password A req.password
    raise_if (bad_shared_users req.shared_users) (failure (codes "invalid shared_users"))
    add_vpn_user name pass [] none none req
