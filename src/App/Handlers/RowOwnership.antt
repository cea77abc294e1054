-- ===== src/App/Handlers/RowOwnership.antt =====
-- Who may do what to a user by the id of his row.
use fast_bypass.Base.{ℕ, ◌≡◌, refl, Text, false, Option, none, some, ◌==◌, ◌∙◌, ap}
use fast_bypass.Result.{ok, attempt}
use fast_bypass.Owner.{Registry, resolve}
use fast_bypass.Mikrotik.{User}
use fast_bypass.Store.{VpnUserMeta}
use fast_bypass.Auth.{Claims, manager}
use fast_bypass.App.{
  App, World, registry, on_router, PatchVpnReq, AssignProfileReq, Response, Handler, error,
  not_owner_code, internal, assert_manager_owner, catch, catch-ok, for_manager, for_manager-manager,
  decoded, answer, detail, connection, no_content, validation, patch_error, assign_error,
  patch_vpn_user, assign_vpn_profile, delete_vpn_user, remove_vpn_profile, connection_bundle_for,
}
use fast_bypass.App.Handlers.ByName.{or_no_registry, with_profile}
use fast_bypass.App.Handlers.Download.{write_ovpn_download}
use fast_bypass.App.Handlers.ById.{
  own_row, handle_patch_vpn_user, handle_assign_profile, handle_delete_vpn_user,
  handle_connection_bundle, handle_download_ovpn, handle_remove_profile,
}

module _ (A : App) (c : Claims) (w : World A) {reg : Registry} (role : c.role ≡ manager)
    (known : registry A w ≡ (ok reg, w)) (id : ℕ) {meta : VpnUserMeta}
    (row : A.store.find_vpn_meta_by_id id w.db ≡ ok meta) {u : User} {s : A.mt.State}
    (fetched : A.mt.get_user meta.mikrotik_name w.router ≡ (ok u, s))
    (foreign : (resolve reg u.name u.comment == c.manager_id) ≡ false) where
  -- The answer that a manager gets for a row whose user is not his.
  abbrev RowRefused : Response × World A → Type 0
  RowRefused r = r ≡ (error 403 not_owner_code, record w { router = s })

  own_row-RowRefused :
      (rest : Registry → VpnUserMeta → User → Handler A) → RowRefused (own_row A c (some id) rest w)
  unfolding assert_manager_owner
  own_row-RowRefused rest =
      let checked = λ (reg : Registry). λ (v : User).
        catch A (assert_manager_owner A reg c v.name v.comment) (λ _. error 403 not_owner_code)
          (λ _. rest reg meta v) in
      rw row (
        catch-ok A (attempt (registry A)) (λ _. error 500 internal)
          (λ r.
            catch A (on_router A (A.mt.get_user meta.mikrotik_name)) (λ _. error 403 not_owner_code)
              (checked (or_no_registry A r)))
          w w (ok reg) (rw known refl)
        ∙ catch-ok A (on_router A (A.mt.get_user meta.mikrotik_name))
            (λ _. error 403 not_owner_code) (checked reg) w (record w { router = s }) u
            (rw fetched refl)
        ∙ rw foreign refl)

  guarded-RowRefused :
      (rest : Registry → VpnUserMeta → User → Handler A)
      → RowRefused (for_manager A (some c) (λ c. own_row A c (some id) rest) w)
  guarded-RowRefused rest = ap (λ h. h w) (for_manager-manager A c _ role) ∙ own_row-RowRefused rest

  -- A manager who asks to patch, delete, connect, download, or assign or drop a profile of, a user
  -- by the id of a row whose user on the router is not his by the registry, is answered 403
  -- NOT_OWNER by each of the six handlers by id, and nothing but the router's state after the read
  -- has changed.
  pub foreign_row-RowRefused :
      (body : Option PatchVpnReq) (assignment : Option AssignProfileReq) (profile_row_id : Text)
      → RowRefused (handle_patch_vpn_user A (some c) (some id) body w)
        × RowRefused (handle_assign_profile A (some c) (some id) assignment w)
        × RowRefused (handle_delete_vpn_user A (some c) (some id) w)
        × RowRefused (handle_connection_bundle A (some c) (some id) w)
        × RowRefused (handle_download_ovpn A (some c) (some id) w)
        × RowRefused (handle_remove_profile A (some c) (some id) profile_row_id w)
  unfolding handle_patch_vpn_user handle_assign_profile handle_delete_vpn_user
      handle_connection_bundle handle_download_ovpn handle_remove_profile
  foreign_row-RowRefused body assignment profile_row_id = (
    guarded-RowRefused λ reg meta u. decoded A body λ req.
        catch A (patch_vpn_user A reg meta req none false) patch_error λ out. answer A (detail out),
    guarded-RowRefused λ reg meta u. decoded A (with_profile assignment) λ req.
        catch A (assign_vpn_profile A reg meta req false) assign_error λ out. answer A (detail out),
    guarded-RowRefused λ reg meta u.
        catch A (delete_vpn_user A meta) (λ _. error 500 internal) λ _. answer A no_content,
    guarded-RowRefused λ reg meta u.
        catch A (connection_bundle_for A meta u) (λ _. error 500 internal)
          λ b. answer A (connection b),
    guarded-RowRefused λ reg meta u. write_ovpn_download A meta,
    guarded-RowRefused λ reg meta u.
        catch A (remove_vpn_profile A profile_row_id) (λ _. error 400 validation)
          λ _. answer A no_content,
  )
