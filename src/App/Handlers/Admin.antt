-- ===== src/App/Handlers/Admin.antt =====
-- The handlers of admins for VPN users, by name (backend/internal/app/vpn_by_name.go) and by id
-- (admin_handlers.go). The middleware has let only an admin through.
use fast_bypass.Base.{
  ℕ, Text, true, Option, none, some, is_empty, trim_space, lt_int, if◌then◌else◌,
}
use fast_bypass.Result.{Error, no_rows, quota_exceeded, name_taken, mt_unavailable, mt_not_found}
use fast_bypass.Owner.{Registry}
use fast_bypass.Store.{VpnUserMeta}
use fast_bypass.App.State.{App, query, on_router, registry}
use fast_bypass.App.Cert.{connection_bundle_for}
use fast_bypass.App.Service.{
  CreateVpnReq, AdminPatchVpnReq, AssignProfileReq, build_vpn_detail, create_vpn_user,
  create_orphan_vpn_user, admin_patch_vpn_user, delete_vpn_user, assign_vpn_profile,
  remove_vpn_profile,
}
use fast_bypass.App.ByName.{build_vpn_detail_by_name, ensure_vpn_meta, delete_vpn_by_name}
use fast_bypass.App.Http.{
  Response, Handler, error, detail, connection, created, no_content, answer, catch, decoded,
  patch_error, assign_error, internal, not_found, validation, mikrotik_unavailable,
  quota_exceeded_code, name_taken_code,
}
use fast_bypass.App.Handlers.ByName.{some_registry, with_profile}
use fast_bypass.App.Handlers.ById.{vpn_meta_by_id}
use fast_bypass.App.Handlers.Download.{write_ovpn_download}

-- `adminCreateVPNReq`
pub record AdminCreateVpnReq : Type 0 where
  pub manager_id : Option ℕ
  pub request : CreateVpnReq

-- The body, where it could be decoded and has a name.
abbrev pub with_local_name : Option AdminCreateVpnReq → Option AdminCreateVpnReq
with_local_name none = none
with_local_name (some req) = if is_empty (trim_space req.request.local_name) then none else some req

abbrev pub admin_create_error : Error → Response
admin_create_error quota_exceeded = error 409 quota_exceeded_code
admin_create_error name_taken = error 409 name_taken_code
admin_create_error mt_unavailable = error 503 mikrotik_unavailable
admin_create_error mt_not_found = error 503 mikrotik_unavailable
admin_create_error e = error 400 validation

abbrev pub manager_error : Error → Response
manager_error no_rows = error 400 validation
manager_error e = error 500 internal

module _ (A : App) where
  -- The row of a user by name, without a test of the owner.
  abbrev pub any_row : Registry → Text → (VpnUserMeta → Handler A) → Handler A
  any_row reg name rest = catch A (ensure_vpn_meta A reg name none) (λ _. error 404 not_found) rest

  unfoldable pub handle_admin_get_vpn_user_by_name : Text → Handler A
  handle_admin_get_vpn_user_by_name name =
      catch A (registry A) (λ _. error 500 internal)
        λ reg.
          catch A (on_router A (A.mt.get_user name)) (λ _. error 404 not_found)
            λ u.
              catch A (build_vpn_detail_by_name A reg name true)
                (λ _. error 503 mikrotik_unavailable) λ out. answer A (detail out)

  unfoldable pub handle_admin_patch_vpn_user_by_name : Text → Option AdminPatchVpnReq → Handler A
  handle_admin_patch_vpn_user_by_name name body =
      catch A (registry A) (λ _. error 500 internal)
        λ reg. any_row reg name λ meta. decoded A body λ req.
          catch A (admin_patch_vpn_user A reg meta req) patch_error λ out. answer A (detail out)

  unfoldable pub handle_admin_assign_profile_by_name : Text → Option AssignProfileReq → Handler A
  handle_admin_assign_profile_by_name name body =
      catch A (registry A) (λ _. error 500 internal)
        λ reg. any_row reg name λ meta. decoded A (with_profile body) λ req.
          catch A (assign_vpn_profile A reg meta req true) assign_error λ out. answer A (detail out)

  unfoldable pub handle_admin_delete_vpn_user_by_name : Text → Handler A
  handle_admin_delete_vpn_user_by_name name =
      catch A (on_router A (A.mt.get_user name)) (λ _. error 404 not_found)
        λ u. catch A (delete_vpn_by_name A name) (λ _. error 500 internal) λ _. answer A no_content

  unfoldable pub handle_admin_connection_bundle_by_name : Text → Handler A
  handle_admin_connection_bundle_by_name name =
      catch A (on_router A (A.mt.get_user name)) (λ _. error 404 not_found)
        λ u. some_registry A λ reg. any_row reg name λ meta.
          catch A (connection_bundle_for A meta u) (λ _. error 500 internal)
            λ b. answer A (connection b)

  unfoldable pub handle_admin_download_ovpn_by_name : Text → Handler A
  handle_admin_download_ovpn_by_name name =
      some_registry A λ reg. any_row reg name λ meta. write_ovpn_download A meta

  unfoldable pub handle_admin_remove_profile_by_name : Text → Text → Handler A
  handle_admin_remove_profile_by_name name profile_row_id =
      catch A (registry A) (λ _. error 500 internal)
        λ reg. any_row reg name λ meta.
          catch A (remove_vpn_profile A profile_row_id) (λ _. error 400 validation)
            λ _. answer A no_content

  unfoldable pub handle_admin_get_vpn_user : Option ℕ → Handler A
  handle_admin_get_vpn_user id = vpn_meta_by_id A id λ meta. some_registry A λ reg.
      catch A (build_vpn_detail A reg meta true) (λ _. error 503 mikrotik_unavailable)
        λ out. answer A (detail out)

  abbrev pub orphan_creation : CreateVpnReq → Handler A
  orphan_creation req =
      catch A (create_orphan_vpn_user A req) admin_create_error λ out. answer A (created out)

  abbrev pub creation_for : Option ℕ → CreateVpnReq → Handler A
  creation_for none req = orphan_creation req
  creation_for (some id) req =
      if lt_int id 1
      then orphan_creation req
      else catch A (query A (A.store.find_manager_by_id id)) manager_error λ mgr.
        catch A (create_vpn_user A mgr req) admin_create_error λ out. answer A (created out)

  unfoldable pub handle_admin_create_vpn_user : Option AdminCreateVpnReq → Handler A
  handle_admin_create_vpn_user body =
      decoded A (with_local_name body) λ req. creation_for req.manager_id req.request

  unfoldable pub handle_admin_patch_vpn_user : Option ℕ → Option AdminPatchVpnReq → Handler A
  handle_admin_patch_vpn_user id body = vpn_meta_by_id A id λ meta. decoded A body λ req.
      some_registry A λ reg.
        catch A (admin_patch_vpn_user A reg meta req) patch_error λ out. answer A (detail out)

  unfoldable pub handle_admin_delete_vpn_user : Option ℕ → Handler A
  handle_admin_delete_vpn_user id =
      vpn_meta_by_id A id
        λ meta. catch A (delete_vpn_user A meta) (λ _. error 500 internal) λ _. answer A no_content

  unfoldable pub handle_admin_assign_profile : Option ℕ → Option AssignProfileReq → Handler A
  handle_admin_assign_profile id body = vpn_meta_by_id A id λ meta.
      decoded A (with_profile body) λ req. some_registry A λ reg.
        catch A (assign_vpn_profile A reg meta req true) assign_error λ out. answer A (detail out)

  unfoldable pub handle_admin_connection_bundle : Option ℕ → Handler A
  handle_admin_connection_bundle id = vpn_meta_by_id A id λ meta.
      catch A (on_router A (A.mt.get_user meta.mikrotik_name)) (λ _. error 404 not_found)
        λ u.
          catch A (connection_bundle_for A meta u) (λ _. error 500 internal)
            λ b. answer A (connection b)

  unfoldable pub handle_admin_download_ovpn : Option ℕ → Handler A
  handle_admin_download_ovpn id = vpn_meta_by_id A id λ meta. write_ovpn_download A meta

  unfoldable pub handle_admin_remove_profile : Option ℕ → Text → Handler A
  handle_admin_remove_profile id profile_row_id = vpn_meta_by_id A id λ meta.
      catch A (remove_vpn_profile A profile_row_id) (λ _. error 400 validation)
        λ _. answer A no_content
