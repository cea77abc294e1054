-- ===== src/App/Handlers/Ownership.antt =====
-- Who may do what to a user by name.
use fast_bypass.Base.{◌≡◌, refl, Text, false, Option, none, some, ◌==◌, ◌∙◌, ap, sym}
use fast_bypass.Result.{ok, err, no_rows, not_owner, attempt}
use fast_bypass.Owner.{Registry, resolve}
use fast_bypass.Mikrotik.{User}
use fast_bypass.Store.{VpnUserMeta}
use fast_bypass.Auth.{Claims, manager}
use fast_bypass.App.{
  App, World, registry, PatchVpnReq, AssignProfileReq, Response, Handler, error, not_owner_code,
  not_found, assert_manager_owner, ensure_vpn_meta, catch, catch-ok, catch-err, for_manager,
  for_manager-manager, internal, answer, detail, connection, connection_bundle_for, patch_error,
  assign_error, patch_vpn_user, assign_vpn_profile, on_router, ensure_error, decoded,
}
use fast_bypass.App.Handlers.Download.{write_ovpn_download}
use fast_bypass.App.Handlers.ByName.{
  handle_get_vpn_user_by_name, handle_patch_vpn_user_by_name, handle_assign_profile_by_name,
  handle_delete_vpn_user_by_name, handle_connection_bundle_by_name, handle_download_ovpn_by_name,
  handle_remove_profile_by_name, owned_user, some_registry, or_no_registry, with_profile,
}

module _ (A : App) (c : Claims) (w : World A) {reg : Registry} (role : c.role ≡ manager)
    (known : registry A w ≡ (ok reg, w)) where
  -- The answer that a manager gets for a user who is not his; the request has read the user.
  abbrev Refused : A.mt.State → Response × World A → Type 0
  Refused s r = r ≡ (error 403 not_owner_code, record w { router = s })

  module _ (name : Text) {u : User} {s : A.mt.State}
      (fetched : A.mt.get_user name w.router ≡ (ok u, s))
      (foreign : (resolve reg u.name u.comment == c.manager_id) ≡ false) where
    owned_user-Refused : (rest : User → Handler A) → Refused s (owned_user A reg c name rest w)
    unfolding assert_manager_owner
    owned_user-Refused rest =
        catch-ok A (on_router A (A.mt.get_user name)) (λ _. error 404 not_found)
          (λ v.
            catch A (assert_manager_owner A reg c v.name v.comment) (λ _. error 403 not_owner_code)
              (λ _. rest v))
          w (record w { router = s }) u (rw fetched refl)
        ∙ rw foreign refl

    ensure_refused :
        (A.store.find_vpn_meta_by_name name w.db ≡ err no_rows)
        → ensure_vpn_meta A reg name (some c) w ≡ (err not_owner, record w { router = s })
    unfolding ensure_vpn_meta assert_manager_owner
    ensure_refused missing = rw missing (rw fetched (rw foreign refl))

    checked-Refused :
        (rest : Claims → Registry → User → Handler A)
        → Refused s (
            for_manager A
              (some c)
              (λ c.
                catch A
                  (registry A)
                  (λ _. error 500 internal)
                  (λ reg. owned_user A reg c name (rest c reg)))
              w)
    checked-Refused rest =
        ap (λ h. h w) (for_manager-manager A c _ role)
        ∙ catch-ok A (registry A) _ _ w w reg known
        ∙ owned_user-Refused (rest c reg)

    lenient-Refused :
        (rest : Claims → Registry → User → Handler A)
        → Refused s (
            for_manager A
              (some c)
              (λ c. some_registry A (λ reg. owned_user A reg c name (rest c reg)))
              w)
    lenient-Refused rest =
        ap (λ h. h w) (for_manager-manager A c _ role)
        ∙ catch-ok A (attempt (registry A)) (λ _. error 500 internal)
            (λ r. owned_user A (or_no_registry A r) c name (rest c (or_no_registry A r))) w w
            (ok reg) (rw known refl)
        ∙ owned_user-Refused (rest c reg)

    -- A manager who asks to see, delete, connect, download, or drop a profile of, a user that the
    -- router has and that is not his by the registry, is answered 403 NOT_OWNER by each of the
    -- five handlers by name, and nothing but the router's state after the read has changed.
    pub foreign_user-Refused :
        (profile_row_id : Text)
        → Refused s (handle_get_vpn_user_by_name A (some c) name w)
          × Refused s (handle_delete_vpn_user_by_name A (some c) name w)
          × Refused s (handle_connection_bundle_by_name A (some c) name w)
          × Refused s (handle_download_ovpn_by_name A (some c) name w)
          × Refused s (handle_remove_profile_by_name A (some c) name profile_row_id w)
    unfolding handle_get_vpn_user_by_name handle_delete_vpn_user_by_name
        handle_connection_bundle_by_name handle_download_ovpn_by_name handle_remove_profile_by_name
    foreign_user-Refused profile_row_id =
        let ensured = λ (c : Claims) (reg : Registry). λ (rest : VpnUserMeta → Handler A).
          catch A (ensure_vpn_meta A reg name (some c)) (ensure_error (error 500 internal)) rest in
        (
          checked-Refused _,
          checked-Refused _,
          lenient-Refused (λ c reg u. ensured c reg λ meta.
              catch A (connection_bundle_for A meta u) (λ _. error 500 internal)
                λ b. answer A (connection b)),
          lenient-Refused (λ c reg u. ensured c reg (write_ovpn_download A)),
          checked-Refused _,
        )

    -- The same manager is refused by the patch and by the assignment as long as the user has no
    -- row of his own in the panel, whatever the body is.
    pub foreign_patch-Refused :
        (A.store.find_vpn_meta_by_name name w.db ≡ err no_rows)
        → (body : Option PatchVpnReq) (assignment : Option AssignProfileReq)
        → Refused s (handle_patch_vpn_user_by_name A (some c) name body w)
          × Refused s (handle_assign_profile_by_name A (some c) name assignment w)
    unfolding handle_patch_vpn_user_by_name handle_assign_profile_by_name
    foreign_patch-Refused missing body assignment =
        let refused : ensure_vpn_meta A reg name (some c) w
            ≡ (err not_owner, record w { router = s }) =
          ensure_refused missing in
        (
          ap (λ h. h w) (for_manager-manager A c _ role)
              ∙ catch-ok A (registry A) _ _ w w reg known
              ∙ catch-err A (ensure_vpn_meta A reg name (some c)) _ _ w (record w { router = s })
                  not_owner refused,
          ap (λ h. h w) (for_manager-manager A c _ role)
              ∙ catch-ok A (registry A) _ _ w w reg known
              ∙ catch-err A (ensure_vpn_meta A reg name (some c)) _ _ w (record w { router = s })
                  not_owner refused,
        )

module _ (A : App) (c c' : Claims) (w : World A) {reg : Registry} (role : c.role ≡ manager)
    (role' : c'.role ≡ manager) (known : registry A w ≡ (ok reg, w)) (name : Text)
    {meta : VpnUserMeta} (row : A.store.find_vpn_meta_by_name name w.db ≡ ok meta) where
  ensure_row : (m : Option Claims) → ensure_vpn_meta A reg name m w ≡ (ok meta, w)
  unfolding ensure_vpn_meta
  ensure_row m = rw row refl

  patched_as :
      (e : Claims)
      → e.role ≡ manager
      → (body : Option PatchVpnReq)
      → handle_patch_vpn_user_by_name A (some e) name body w
        ≡ decoded A body
            (λ req.
              catch A
                (patch_vpn_user A reg meta req none false)
                patch_error
                (λ out. answer A (detail out)))
            w
  unfolding handle_patch_vpn_user_by_name
  patched_as e r body =
      ap (λ h. h w) (for_manager-manager A e _ r)
      ∙ catch-ok A (registry A) _ _ w w reg known
      ∙ catch-ok A (ensure_vpn_meta A reg name (some e)) _ _ w w meta (ensure_row (some e))

  assigned_as :
      (e : Claims)
      → e.role ≡ manager
      → (body : Option AssignProfileReq)
      → handle_assign_profile_by_name A (some e) name body w
        ≡ decoded A
            (with_profile body)
            (λ req.
              catch A
                (assign_vpn_profile A reg meta req false)
                assign_error
                (λ out. answer A (detail out)))
            w
  unfolding handle_assign_profile_by_name
  assigned_as e r body =
      ap (λ h. h w) (for_manager-manager A e _ r)
      ∙ catch-ok A (registry A) _ _ w w reg known
      ∙ catch-ok A (ensure_vpn_meta A reg name (some e)) _ _ w w meta (ensure_row (some e))

  -- Once a user has a row in the panel, the patch and the assignment by name do not ask who owns
  -- him: they answer any two managers alike and have the same effect for both.
  pub patch_by_name_ignores_owner :
      (body : Option PatchVpnReq) (assignment : Option AssignProfileReq)
      → (handle_patch_vpn_user_by_name A (some c) name body w
          ≡ handle_patch_vpn_user_by_name A (some c') name body w)
        × (handle_assign_profile_by_name A (some c) name assignment w
            ≡ handle_assign_profile_by_name A (some c') name assignment w)
  patch_by_name_ignores_owner body assignment = (
    patched_as c role body ∙ sym (patched_as c' role' body),
    assigned_as c role assignment ∙ sym (assigned_as c' role' assignment),
  )
