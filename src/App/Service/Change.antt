-- ===== src/App/Service/Change.antt =====
-- The patch of a VPN user, his profiles and his removal (backend/internal/app/vpn_service.go).
use fast_bypass.Base.{
  ℕ, Text, Bool, true, false, ◌&&◌, not, Option, none, some, ◌==◌, if◌then◌else◌,
}
use fast_bypass.Result.{
  Exec, ⊤, quota_exceeded, orphan_no_owner, owner_db_mismatch, pure, raise, raise_if, attempt,
  ignore, ◌>>=◌, ◌>>◌,
}
use fast_bypass.Mikrotik.{User}
use fast_bypass.Store.{VpnUserMeta}
use fast_bypass.Owner.{Registry, resolve, panel_comment}
use fast_bypass.Quota.{user_has_active_profile, check_increase}
use fast_bypass.App.State.{App, World, query, on_db, on_router}
use fast_bypass.App.Cert.{apply_vpn_user_cert_title_change}
use fast_bypass.App.Sync.{sync_shared_users_to_unsettled_activation}
use fast_bypass.App.Service.Requests.{
  PatchVpnReq, AdminPatchVpnReq, AssignProfileReq, VpnDetail, or_nil,
}
use fast_bypass.App.Service.Detail.{
  manager_used_quota, build_vpn_detail, resolve_vpn_password, record_activation,
}
use fast_bypass.App.Service.Create.{drop_user}

module _ (A : App) where
  abbrev pub new_password : Option Text → Exec (World A) (Option Text)
  new_password none = pure none
  new_password (some pw) = do pass ← resolve_vpn_password A pw; pure (some pass)

  -- The comment that `SetUser` writes: the owner's token, or what is there for an orphan.
  abbrev pub new_comment : Registry → User → ℕ → Exec (World A) Text
  new_comment reg u owner_id = if owner_id == 0 then pure u.comment else (do
    mgr ← query A (A.store.find_manager_by_id owner_id)
    pure (panel_comment reg (record { id = mgr.id; slug = mgr.slug })))

  -- The quota of the owner and his used connections; none for an orphan.
  abbrev pub owner_quota : ℕ → Exec (World A) (Option (ℕ × ℕ))
  owner_quota owner_id = if owner_id == 0 then pure none else (do
    mgr ← query A (A.store.find_manager_by_id owner_id)
    used ← manager_used_quota A owner_id
    pure (some (used, mgr.quota)))

  abbrev pub exceeds : Option (ℕ × ℕ) → Bool → ℕ → ℕ → Bool
  exceeds none active old new = false
  exceeds (some (used, quota)) active old new = active && not (check_increase used quota old new)

  abbrev pub check_shared : User → ℕ → Option ℕ → Exec (World A) ⊤
  check_shared u owner_id none = pure tt
  check_shared u owner_id (some new) = do
    q ← owner_quota owner_id
    profs ← attempt (on_router A (A.mt.list_user_profiles u.name))
    raise_if (exceeds q (user_has_active_profile A.times (or_nil profs) A.now) u.shared_users new)
        quota_exceeded

  abbrev pub check_manager : Option ℕ → ℕ → Exec (World A) ⊤
  check_manager none owner_id = pure tt
  check_manager (some id) owner_id =
      if owner_id == 0
      then raise orphan_no_owner
      else (if id == owner_id then pure tt else raise owner_db_mismatch)

  abbrev pub sync_shared : ℕ → Option ℕ → Exec (World A) ⊤
  sync_shared meta_id none = pure tt
  sync_shared meta_id (some n) = sync_shared_users_to_unsettled_activation A meta_id n

  unfoldable pub patch_vpn_user :
      Registry → VpnUserMeta → PatchVpnReq → Option ℕ → Bool → Exec (World A) VpnDetail
  unfolding resolve_vpn_password manager_used_quota sync_shared_users_to_unsettled_activation
      build_vpn_detail
  patch_vpn_user reg meta req sync_manager_id include_comment = do
    u ← on_router A (A.mt.get_user meta.mikrotik_name)
    let owner_id = resolve reg u.name u.comment
    pass ← new_password req.password
    comment ← new_comment reg u owner_id
    check_shared u owner_id req.shared_users
    check_manager sync_manager_id owner_id
    on_router A (A.mt.set_user u.name pass req.shared_users comment req.disabled)
    sync_shared meta.id req.shared_users
    on_db A (A.store.update_vpn_meta meta.id req.contact_info req.notes sync_manager_id)
    meta' ← query A (A.store.find_vpn_meta_by_id meta.id)
    build_vpn_detail A reg meta' include_comment

  abbrev pub retitled : VpnUserMeta → Option Text → Exec (World A) VpnUserMeta
  retitled meta none = pure meta
  retitled meta (some title) = do
    apply_vpn_user_cert_title_change A meta title
    query A (A.store.find_vpn_meta_by_id meta.id)

  unfoldable pub admin_patch_vpn_user :
      Registry → VpnUserMeta → AdminPatchVpnReq → Exec (World A) VpnDetail
  unfolding patch_vpn_user apply_vpn_user_cert_title_change
  admin_patch_vpn_user reg meta req = do
    meta' ← retitled meta req.cert_title
    patch_vpn_user reg meta' req.patch req.manager_id true

  unfoldable pub delete_vpn_user : VpnUserMeta → Exec (World A) ⊤
  delete_vpn_user meta = do
    drop_user A meta.mikrotik_name
    on_db A (A.store.delete_vpn_meta meta.id)

  unfoldable pub assign_vpn_profile :
      Registry → VpnUserMeta → AssignProfileReq → Bool → Exec (World A) VpnDetail
  unfolding record_activation build_vpn_detail
  assign_vpn_profile reg meta req include_comment = do
    u ← on_router A (A.mt.get_user meta.mikrotik_name)
    raise_if (resolve reg u.name u.comment == 0) orphan_no_owner
    on_router A (A.mt.add_user_profile u.name req.profile_name)
    profs ← attempt (on_router A (A.mt.list_user_profiles u.name))
    ignore (
        record_activation A meta.id req.profile_name u.shared_users req.amount_paid req.currency
          req.note (or_nil profs))
    build_vpn_detail A reg meta include_comment

  unfoldable pub remove_vpn_profile : Text → Exec (World A) ⊤
  remove_vpn_profile profile_row_id = on_router A (A.mt.remove_user_profile profile_row_id)
