-- ===== src/App/Handlers/ByName.antt =====
-- The handlers of managers for a user by name (backend/internal/app/vpn_by_name.go).
use fast_bypass.Base.{Text, false, Option, none, some, is_empty, [], if◌then◌else◌}
use fast_bypass.Result.{Result, ok, err, attempt}
use fast_bypass.Owner.{Registry}
use fast_bypass.Mikrotik.{User}
use fast_bypass.App.State.{App, on_router, registry}
use fast_bypass.App.Cert.{connection_bundle_for}
use fast_bypass.App.Service.{
  PatchVpnReq, AssignProfileReq, patch_vpn_user, assign_vpn_profile, remove_vpn_profile,
}
use fast_bypass.Auth.{Claims}
use fast_bypass.App.ByName.{
  assert_manager_owner, build_vpn_detail_by_name, ensure_vpn_meta, delete_vpn_by_name,
}
use fast_bypass.App.Http.{
  Handler, error, detail, connection, no_content, answer, catch, for_manager, decoded, patch_error,
  assign_error, ensure_error, internal, not_found, not_owner_code, validation, mikrotik_unavailable,
}
use fast_bypass.App.Handlers.Download.{write_ovpn_download}

-- The body of an assignment, where it could be decoded and names a profile.
abbrev pub with_profile : Option AssignProfileReq → Option AssignProfileReq
with_profile none = none
with_profile (some req) = if is_empty req.profile_name then none else some req

module _ (A : App) where
  -- The user on the router, where he is the manager's.
  abbrev pub owned_user : Registry → Claims → Text → (User → Handler A) → Handler A
  owned_user reg c name rest =
      catch A (on_router A (A.mt.get_user name)) (λ _. error 404 not_found)
        λ u.
          catch A (assert_manager_owner A reg c u.name u.comment) (λ _. error 403 not_owner_code)
            λ _. rest u

  -- `reg, _ := a.Registry(ctx)`: an error leaves a registry without managers.
  abbrev pub no_registry : Registry
  no_registry = record { separator = []; managers = [] }

  abbrev pub or_no_registry : Result Registry → Registry
  or_no_registry (ok reg) = reg
  or_no_registry (err e) = no_registry

  abbrev pub some_registry : (Registry → Handler A) → Handler A
  some_registry rest =
      catch A (attempt (registry A)) (λ _. error 500 internal) λ r. rest (or_no_registry r)

  unfoldable pub handle_get_vpn_user_by_name : Option Claims → Text → Handler A
  handle_get_vpn_user_by_name claims name = for_manager A claims λ c.
      catch A (registry A) (λ _. error 500 internal)
        λ reg. owned_user reg c name λ u.
          catch A (build_vpn_detail_by_name A reg name false) (λ _. error 503 mikrotik_unavailable)
            λ out. answer A (detail out)

  unfoldable pub handle_patch_vpn_user_by_name :
      Option Claims → Text → Option PatchVpnReq → Handler A
  handle_patch_vpn_user_by_name claims name body = for_manager A claims λ c.
      catch A (registry A) (λ _. error 500 internal)
        λ reg.
          catch A (ensure_vpn_meta A reg name (some c)) (ensure_error (error 404 not_found)) λ meta.
            decoded A body λ req.
              catch A (patch_vpn_user A reg meta req none false) patch_error
                λ out. answer A (detail out)

  unfoldable pub handle_assign_profile_by_name :
      Option Claims → Text → Option AssignProfileReq → Handler A
  handle_assign_profile_by_name claims name body = for_manager A claims λ c.
      catch A (registry A) (λ _. error 500 internal)
        λ reg.
          catch A (ensure_vpn_meta A reg name (some c)) (ensure_error (error 404 not_found)) λ meta.
            decoded A (with_profile body) λ req.
              catch A (assign_vpn_profile A reg meta req false) assign_error
                λ out. answer A (detail out)

  unfoldable pub handle_delete_vpn_user_by_name : Option Claims → Text → Handler A
  handle_delete_vpn_user_by_name claims name = for_manager A claims λ c.
      catch A (registry A) (λ _. error 500 internal)
        λ reg. owned_user reg c name λ u.
          catch A (delete_vpn_by_name A name) (λ _. error 500 internal) λ _. answer A no_content

  unfoldable pub handle_connection_bundle_by_name : Option Claims → Text → Handler A
  handle_connection_bundle_by_name claims name = for_manager A claims λ c. some_registry λ reg.
      owned_user reg c name λ u.
        catch A (ensure_vpn_meta A reg name (some c)) (ensure_error (error 500 internal)) λ meta.
          catch A (connection_bundle_for A meta u) (λ _. error 500 internal)
            λ b. answer A (connection b)

  unfoldable pub handle_download_ovpn_by_name : Option Claims → Text → Handler A
  handle_download_ovpn_by_name claims name = for_manager A claims λ c. some_registry λ reg.
      owned_user reg c name λ u.
        catch A (ensure_vpn_meta A reg name (some c)) (ensure_error (error 500 internal))
          λ meta. write_ovpn_download A meta

  unfoldable pub handle_remove_profile_by_name : Option Claims → Text → Text → Handler A
  handle_remove_profile_by_name claims name profile_row_id = for_manager A claims λ c.
      catch A (registry A) (λ _. error 500 internal)
        λ reg. owned_user reg c name λ u.
          catch A (ensure_vpn_meta A reg name (some c)) (ensure_error (error 500 internal)) λ meta.
            catch A (remove_vpn_profile A profile_row_id) (λ _. error 400 validation)
              λ _. answer A no_content
