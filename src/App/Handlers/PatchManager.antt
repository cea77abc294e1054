-- ===== src/App/Handlers/PatchManager.antt =====
-- The admins' change of a manager (`HandlePatchManager` of
-- backend/internal/app/admin_handlers.go), step by step.
use fast_bypass.Base.{
  ℕ, Text, trim_space, is_empty, not, Option, none, some, ◌==◌, lt_int, if◌then◌else◌,
}
use fast_bypass.Result.{Exec, Result, ⊤, Error, ok, err, no_rows, pure}
use fast_bypass.Password.{valid_panel, hash}
use fast_bypass.Store.{Manager}
use fast_bypass.App.State.{App, World, query, on_db, on_random}
use fast_bypass.App.Cert.{apply_manager_cert_title_change}
use fast_bypass.App.Service.{manager_used_quota}
use fast_bypass.App.Handlers.Managers.{PatchManagerReq, manager_dto, cert_error, or_zero}
use fast_bypass.App.Http.{
  Response, Handler, error, panicked, manager_detail, answer, catch, tried, decoded, internal,
  not_found, validation, mikrotik_unavailable, username_in_use, quota_below_usage,
}

abbrev pub find_error : Error → Response
find_error no_rows = error 404 not_found
find_error e = error 500 internal

module _ (A : App) where
  abbrev pub title_change : Manager → Option Text → Exec (World A) ⊤
  title_change cur none = pure tt
  title_change cur (some title) = apply_manager_cert_title_change A cur title

  abbrev pub taken_by : ℕ → Text → (Option Text → Handler A) → Result Manager → Handler A
  taken_by id u rest (ok existing) =
      if not (existing.id == id) then answer A (error 409 username_in_use) else rest (some u)
  taken_by id u rest (err no_rows) = rest (some u)
  taken_by id u rest (err e) = answer A (error 500 internal)

  -- The new username, without white space around it.
  abbrev pub username_step : ℕ → Option Text → (Option Text → Handler A) → Handler A
  username_step id none rest = rest none
  username_step id (some name) rest =
      if is_empty (trim_space name)
      then answer A (error 400 validation)
      else tried A (query A (A.store.find_manager_by_username (trim_space name)))
          (taken_by id (trim_space name) rest)

  abbrev pub quota_step : ℕ → Option ℕ → Handler A → Handler A
  quota_step id none rest = rest
  quota_step id (some quota) rest =
      catch A (manager_used_quota A id) (λ _. error 503 mikrotik_unavailable)
        λ used. if lt_int quota used then answer A (error 409 quota_below_usage) else rest

  abbrev pub password_step : Option Text → (Option Text → Handler A) → Handler A
  password_step none rest = rest none
  password_step (some raw) rest =
      let pw = trim_space raw in
      if is_empty pw
      then rest none
      else (if not (valid_panel A.unicode pw)
          then answer A (error 400 validation)
          else catch A (on_random A (hash A.bcrypt pw)) (λ _. error 500 internal)
              λ h. rest (some h))

  -- `m, _ :=`: a manager who is gone by now is a nil pointer, and the handler panics.
  abbrev pub shown : Result Manager → Handler A
  shown (err e) = answer A panicked
  shown (ok m) =
      tried A (manager_used_quota A m.id)
        λ used. answer A (manager_detail (manager_dto m (or_zero used)))

  abbrev pub update_step : ℕ → PatchManagerReq → Option Text → Option Text → Handler A
  update_step id req username h =
      catch A
        (on_db A (A.store.update_manager id username req.display_name req.quota req.is_active h))
        find_error λ _. tried A (query A (A.store.find_manager_by_id id)) shown

  abbrev pub patch_found : ℕ → PatchManagerReq → Manager → Handler A
  patch_found id req cur = catch A (title_change cur req.cert_title) cert_error λ _.
      username_step id req.username λ username.
        quota_step id req.quota (password_step req.password (update_step id req username))

  -- `id` is what `strconv` leaves of the URL's text.
  unfoldable pub handle_patch_manager : ℕ → Option PatchManagerReq → Handler A
  unfolding valid_panel hash
  handle_patch_manager id body =
      decoded A body
        λ req. catch A (query A (A.store.find_manager_by_id id)) find_error (patch_found id req)
