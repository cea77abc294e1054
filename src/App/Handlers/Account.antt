-- ===== src/App/Handlers/Account.antt =====
-- The signed-in user's own account (backend/internal/app/auth_handlers.go).
use fast_bypass.Base.{
  Text, codes, text_eq, Bool, true, ◌&&◌, not, Option, none, some, List, [], ◌∷◌, ◌++◌, sub_int,
  if◌then◌else◌,
}
use fast_bypass.Result.{Exec, Result, ⊤, Error, ok, err}
use fast_bypass.Password.{valid_panel, hash, check}
use fast_bypass.Store.{PanelAdmin, Manager}
use fast_bypass.Auth.{Role, Claims, admin, manager}
use fast_bypass.App.State.{App, World, query, on_db, on_random}
use fast_bypass.App.Service.{manager_used_quota}
use fast_bypass.App.Http.{
  Response, Handler, error, me_admin, me_manager, me_quota, no_content, answer, catch, tried,
  decoded, signed_in, for_manager, invalid_current_password, internal, validation,
  mikrotik_unavailable,
}

pub record ChangePwReq : Type 0 where
  pub current_password : Text
  pub new_password : Text

-- The keys of the body, and what `patchMeReq` takes of it.
pub record PatchMeReq : Type 0 where
  pub keys : List Text
  pub display_name : Option Text

abbrev pub only_display_name : List Text → Bool
only_display_name [] = true
only_display_name (k ∷ keys) = text_eq k (codes "display_name") && only_display_name keys

module _ (A : App) where
  abbrev pub server_error : Error → Response
  server_error _ = error 500 internal

  abbrev pub me_of : Role → Claims → Handler A
  me_of admin c =
      catch A (query A (A.store.find_admin_by_username c.username)) server_error
        λ adm. answer A (me_admin adm.username)
  me_of manager c = catch A (query A (A.store.find_manager_by_id c.manager_id)) server_error λ mgr.
      catch A (manager_used_quota A mgr.id) (λ _. error 503 mikrotik_unavailable)
        λ used. answer A (
          me_manager (record {
            username = mgr.username;
            display_name = mgr.display_name;
            slug = mgr.slug;
            name_prefix = mgr.slug ++ A.cfg.username_prefix_sep;
            quota = mgr.quota;
            used_quota = used;
          }))

  unfoldable pub handle_me : Option Claims → Handler A
  handle_me c = signed_in A c λ c. me_of c.role c

  abbrev pub renamed : Claims → Option Text → Handler A
  renamed c none = answer A (error 400 validation)
  renamed c (some name) =
      catch A (on_db A (A.store.update_manager c.manager_id none (some name) none none none))
        server_error λ _. me_of c.role c

  abbrev pub patch_me_of : Role → Claims → Option Text → Handler A
  patch_me_of admin c display_name = me_of c.role c
  patch_me_of manager c display_name = renamed c display_name

  unfoldable pub handle_patch_me : Option Claims → Option PatchMeReq → Handler A
  handle_patch_me c body = signed_in A c λ c. decoded A body λ req.
      if only_display_name req.keys
      then patch_me_of c.role c req.display_name
      else answer A (error 400 validation)

  -- The hash of the new password, and its write.
  abbrev pub write_password : Text → (Text → Exec (World A) ⊤) → Handler A
  write_password new write =
      catch A (on_random A (hash A.bcrypt new)) server_error
        λ h. catch A (write h) server_error λ _. answer A no_content

  abbrev pub admin_password_change : ChangePwReq → Result PanelAdmin → Handler A
  admin_password_change req (err e) = answer A (error 401 invalid_current_password)
  admin_password_change req (ok adm) =
      if not (check A.bcrypt adm.password_hash req.current_password)
      then answer A (error 401 invalid_current_password)
      else write_password req.new_password λ h. on_db A (A.store.update_admin_password adm.id h)

  abbrev pub manager_password_change : Claims → ChangePwReq → Result Manager → Handler A
  manager_password_change c req (err e) = answer A (error 401 invalid_current_password)
  manager_password_change c req (ok mgr) =
      if not (check A.bcrypt mgr.password_hash req.current_password)
      then answer A (error 401 invalid_current_password)
      else write_password req.new_password
          λ h. on_db A (A.store.update_manager c.manager_id none none none none (some h))

  abbrev pub password_change : Role → Claims → ChangePwReq → Handler A
  password_change admin c req =
      tried A (query A (A.store.find_admin_by_username c.username)) (admin_password_change req)
  password_change manager c req =
      tried A (query A (A.store.find_manager_by_id c.manager_id)) (manager_password_change c req)

  unfoldable pub handle_change_password : Option Claims → Option ChangePwReq → Handler A
  unfolding valid_panel hash check
  handle_change_password c body = signed_in A c λ c. decoded A body λ req.
      if valid_panel A.unicode req.new_password
      then password_change c.role c req
      else answer A (error 400 validation)

  unfoldable pub handle_me_quota : Option Claims → Handler A
  handle_me_quota c = for_manager A c λ c.
      catch A (query A (A.store.find_manager_by_id c.manager_id)) server_error λ mgr.
        catch A (manager_used_quota A c.manager_id) (λ _. error 503 mikrotik_unavailable)
          λ used. answer A (
            me_quota
              (record { quota = mgr.quota; used = used; available = sub_int mgr.quota used }))
