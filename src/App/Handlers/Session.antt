-- ===== src/App/Handlers/Session.antt =====
-- Signing in and out, and the admin of a new database (backend/internal/app/auth_handlers.go and
-- bootstrap.go).
use fast_bypass.Base.{
  ℕ, Text, codes, text_eq, is_empty, ◌||◌, not, Option, none, some, [], ◌++◌, lt_int, if◌then◌else◌,
}
use fast_bypass.Result.{Exec, Result, ⊤, ok, err, no_rows, lift, pure, ◌>>=◌}
use fast_bypass.Password.{hash, check}
use fast_bypass.Store.{PanelAdmin, Manager}
use fast_bypass.Auth.{Role, Claims, TokenPair, admin, manager, new_pair, refresh_claims}
use fast_bypass.App.State.{App, World, query, on_db, on_random}
use fast_bypass.App.Dtos.{LoginResp}
use fast_bypass.App.Http.{
  Handler, error, logged_in, tokens, no_content, answer, catch, tried, decoded, unauthorized,
  manager_disabled, internal,
}

pub record LoginReq : Type 0 where
  pub username : Text
  pub password : Text

-- `auth.Claims{…}`: what is not named is zero.
abbrev pub claims_of : Role → ℕ → Text → Text → Claims
claims_of role manager_id slug username = record {
  role = role;
  manager_id = manager_id;
  slug = slug;
  username = username;
  token_type = [];
  subject = [];
  expires_at = none;
  issued_at = none;
}

abbrev pub admin_resp : TokenPair → LoginResp
admin_resp pair = record {
  access_token = pair.access_token;
  refresh_token = pair.refresh_token;
  role = admin;
  manager_id = none;
  slug = none;
  name_prefix = none;
}

abbrev pub manager_resp : Text → Manager → TokenPair → LoginResp
manager_resp separator mgr pair = record {
  access_token = pair.access_token;
  refresh_token = pair.refresh_token;
  role = manager;
  manager_id = some mgr.id;
  slug = some mgr.slug;
  name_prefix = some (mgr.slug ++ separator);
}

module _ (A : App) where
  -- `a.Auth.NewPair`, where an error is answered with 500.
  abbrev pub with_pair : Claims → (TokenPair → Handler A) → Handler A
  with_pair c rest =
      catch A (lift (new_pair A.jwt A.auth c A.now A.now)) (λ _. error 500 internal) rest

  unfoldable pub admin_login : LoginReq → PanelAdmin → Handler A
  unfolding check
  admin_login req adm =
      if not adm.is_active || not (check A.bcrypt adm.password_hash req.password)
      then answer A (error 401 unauthorized)
      else with_pair (claims_of admin 0 [] adm.username)
          λ pair. answer A (logged_in (admin_resp pair))

  abbrev pub manager_tokens : Manager → Handler A
  manager_tokens mgr =
      with_pair (claims_of manager mgr.id mgr.slug mgr.username)
        λ pair. answer A (logged_in (manager_resp A.cfg.username_prefix_sep mgr pair))

  unfoldable pub manager_login : LoginReq → Result Manager → Handler A
  unfolding check
  manager_login req (err no_rows) = answer A (error 401 unauthorized)
  manager_login req (err e) = answer A (error 500 internal)
  manager_login req (ok mgr) =
      if not mgr.is_active
      then answer A (error 403 manager_disabled)
      else (if not (check A.bcrypt mgr.password_hash req.password)
          then answer A (error 401 unauthorized)
          else manager_tokens mgr)

  -- After the look for an admin of the name.
  abbrev pub login_as : LoginReq → Result PanelAdmin → Handler A
  login_as req (ok adm) = admin_login req adm
  login_as req (err e) =
      tried A (query A (A.store.find_manager_by_username req.username)) (manager_login req)

  unfoldable pub handle_login : Option LoginReq → Handler A
  unfolding admin_login manager_login
  handle_login body =
      decoded A body
        λ req. tried A (query A (A.store.find_admin_by_username req.username)) (login_as req)

  abbrev pub refreshed : Option Claims → Handler A
  refreshed none = answer A (error 401 unauthorized)
  refreshed (some c) = with_pair c λ pair. answer A (tokens pair)

  -- The body is the refresh token.
  unfoldable pub handle_refresh : Option Text → Handler A
  handle_refresh body = decoded A body λ token. refreshed (refresh_claims A.jwt A.auth token A.now)

  unfoldable pub handle_logout : Handler A
  handle_logout = answer A no_content

  abbrev pub created_admin : Exec (World A) ⊤
  created_admin = do
    h ← on_random A (hash A.bcrypt A.cfg.admin_password)
    on_db A (A.store.create_admin A.cfg.admin_username h)

  unfoldable pub bootstrap_admin : Exec (World A) ⊤
  unfolding hash
  bootstrap_admin = do
    n ← query A A.store.admin_count
    if lt_int 0 n
        then pure tt
        else (if is_empty A.cfg.admin_password || text_eq A.cfg.admin_password (codes "change-me")
            then pure tt
            else created_admin)
