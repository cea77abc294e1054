-- ===== src/App/Handlers/ById.antt =====
-- The handlers of managers for a user by the id of his row, and their creation of a user
-- (backend/internal/app/vpn_handlers.go and vpn_more_handlers.go).
use fast_bypass.Base.{ℕ, Text, false, Option, none, some}
use fast_bypass.Result.{Error, no_rows, quota_exceeded, name_taken}
use fast_bypass.Owner.{Registry}
use fast_bypass.Mikrotik.{User}
use fast_bypass.Store.{VpnUserMeta}
use fast_bypass.App.State.{App, query, on_router}
use fast_bypass.App.Cert.{connection_bundle_for}
use fast_bypass.App.Service.{
  CreateVpnReq, PatchVpnReq, AssignProfileReq, build_vpn_detail, create_vpn_user, patch_vpn_user,
  delete_vpn_user, assign_vpn_profile, remove_vpn_profile,
}
use fast_bypass.Auth.{Claims}
use fast_bypass.App.ByName.{assert_manager_owner}
use fast_bypass.App.Http.{
  Response, Handler, error, detail, connection, created, no_content, answer, catch, for_manager,
  decoded, patch_error, assign_error, internal, not_found, not_owner_code, validation,
  mikrotik_unavailable, quota_exceeded_code, name_taken_code,
}
use fast_bypass.App.Handlers.ByName.{some_registry, with_profile}
use fast_bypass.App.Handlers.Download.{write_ovpn_download}

-- The errors of a row that was looked for by its id.
abbrev pub row_error : Error → Response
row_error no_rows = error 404 not_found
row_error e = error 500 internal

-- The errors of `createVPNUser` in `HandleCreateVPNUser`.
abbrev pub create_error : Error → Response
create_error quota_exceeded = error 409 quota_exceeded_code
create_error name_taken = error 409 name_taken_code
create_error e = error 400 validation

module _ (A : App) where
  -- `vpnMetaByID`; the id is `none` where the path has no number.
  abbrev pub vpn_meta_by_id : Option ℕ → (VpnUserMeta → Handler A) → Handler A
  vpn_meta_by_id none rest = answer A (error 400 validation)
  vpn_meta_by_id (some id) rest = catch A (query A (A.store.find_vpn_meta_by_id id)) row_error rest

  -- The test of `err != nil || a.assertManagerOwner(...) != nil`: one answer to both.
  abbrev pub own_row : Claims → Option ℕ → (Registry → VpnUserMeta → User → Handler A) → Handler A
  own_row c id rest = vpn_meta_by_id id λ meta. some_registry A λ reg.
      catch A (on_router A (A.mt.get_user meta.mikrotik_name)) (λ _. error 403 not_owner_code)
        λ u.
          catch A (assert_manager_owner A reg c u.name u.comment) (λ _. error 403 not_owner_code)
            λ _. rest reg meta u

  unfoldable pub handle_get_vpn_user : Option Claims → Option ℕ → Handler A
  handle_get_vpn_user claims id = for_manager A claims λ c. vpn_meta_by_id id λ meta.
      some_registry A λ reg.
        catch A (on_router A (A.mt.get_user meta.mikrotik_name)) (λ _. error 404 not_found)
          λ u.
            catch A (assert_manager_owner A reg c u.name u.comment) (λ _. error 403 not_owner_code)
              λ _.
                catch A (build_vpn_detail A reg meta false) (λ _. error 503 mikrotik_unavailable)
                  λ out. answer A (detail out)

  unfoldable pub handle_create_vpn_user : Option Claims → Option CreateVpnReq → Handler A
  handle_create_vpn_user claims body = for_manager A claims λ c. decoded A body λ req.
      catch A (query A (A.store.find_manager_by_id c.manager_id)) (λ _. error 500 internal)
        λ mgr. catch A (create_vpn_user A mgr req) create_error λ out. answer A (created out)

  unfoldable pub handle_patch_vpn_user : Option Claims → Option ℕ → Option PatchVpnReq → Handler A
  handle_patch_vpn_user claims id body = for_manager A claims λ c. own_row c id λ reg meta u.
      decoded A body λ req.
        catch A (patch_vpn_user A reg meta req none false) patch_error λ out. answer A (detail out)

  unfoldable pub handle_assign_profile :
      Option Claims → Option ℕ → Option AssignProfileReq → Handler A
  handle_assign_profile claims id body = for_manager A claims λ c. own_row c id λ reg meta u.
      decoded A (with_profile body) λ req.
        catch A (assign_vpn_profile A reg meta req false) assign_error λ out. answer A (detail out)

  unfoldable pub handle_delete_vpn_user : Option Claims → Option ℕ → Handler A
  handle_delete_vpn_user claims id = for_manager A claims λ c. own_row c id λ reg meta u.
      catch A (delete_vpn_user A meta) (λ _. error 500 internal) λ _. answer A no_content

  unfoldable pub handle_connection_bundle : Option Claims → Option ℕ → Handler A
  handle_connection_bundle claims id = for_manager A claims λ c. own_row c id λ reg meta u.
      catch A (connection_bundle_for A meta u) (λ _. error 500 internal)
        λ b. answer A (connection b)

  unfoldable pub handle_download_ovpn : Option Claims → Option ℕ → Handler A
  handle_download_ovpn claims id =
      for_manager A claims λ c. own_row c id λ reg meta u. write_ovpn_download A meta

  unfoldable pub handle_remove_profile : Option Claims → Option ℕ → Text → Handler A
  handle_remove_profile claims id profile_row_id = for_manager A claims λ c.
      own_row c id λ reg meta u.
        catch A (remove_vpn_profile A profile_row_id) (λ _. error 400 validation)
          λ _. answer A no_content
