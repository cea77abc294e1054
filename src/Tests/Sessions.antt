-- ===== src/Tests/Sessions.antt =====
-- Runs of the session's handlers and of the routes.
use fast_bypass.Base.{
  ℕ, ◌≡◌, refl, Text, codes, ◌++◌, true, false, some, none, [], ◌∷◌, Bool, ◌⊎◌, arith, lt_int, ap,
  subst, text_eq, text_eq_refl,
}
use fast_bypass.Result.{ok, err, no_rows}
use fast_bypass.Password.{check, valid_panel}
use fast_bypass.Store.{
  Manager, find_admin_by_username, find_manager_by_username, find_manager_by_id, update_manager,
  admin_count, create_admin,
}
use fast_bypass.Auth.{Claims, TokenPair, manager, stamped, new_pair, bearer_claims, refresh_claims}
use fast_bypass.Auth.Tokens.{new_pair_lem}
use fast_bypass.App.{World, error, forbidden, logged_in, tokens, no_content}
use fast_bypass.App.Handlers.{
  LoginReq, ChangePwReq, claims_of, manager_resp, handle_login, manager_login, handle_refresh,
  handle_change_password, bootstrap_admin,
}
use fast_bypass.App.Handlers.Passwords.{BcryptLaws, handle_change_password-no_content}
use fast_bypass.App.Handlers.Bootstrap.{bootstrap_admin_twice}
use fast_bypass.Server.{
  Private, Restricted, private, restricted, private_handler, restricted_handler, require_admin,
  serve,
}
use fast_bypass.Server.Guards.{serve-IsGuarded, IsGuarded, IsAdminGuarded}
use fast_bypass.App.Handlers.Logins.{ForAdmin, ForManager, handle_login-logged_in}
use fast_bypass.Server.Session.{at_time, with_token, login_then_request, refresh_then_request}
use fast_bypass.Tests.Tables.{some_db, some_manager}
use fast_bypass.Tests.Tokens.{plain_bcrypt, list_jwt, list_jwt_laws, issuer}
use fast_bypass.Tests.Requests.{panel, with_row}

abbrev ali : Manager
ali = record some_manager { password_hash = codes "#secret12" }

abbrev with_login : World panel
with_login = record with_row { db = record some_db { managers = ali ∷ [] }; random = 7 ∷ [] }

abbrev ali_claims : Claims
ali_claims = claims_of manager 1 (codes "ali") (codes "ali")

abbrev ali_login : LoginReq
ali_login = record { username = codes "ali"; password = codes "secret12" }

-- The token that the library for the runs makes of claims.
abbrev token_of : Claims → Text
token_of c = elim (list_jwt.signed_string c (codes "s")) [ ok t ↦ t | err e ↦ [] ]

abbrev pub pair_at : Claims → ℕ → TokenPair
pair_at c now = record {
  access_token = token_of (stamped list_jwt c 900 (codes "access") now);
  refresh_token = token_of (stamped list_jwt c 2000 (codes "refresh") now);
}

new_pair_run : new_pair list_jwt issuer ali_claims 0 0 ≡ ok (pair_at ali_claims 0)
unfolding new_pair
new_pair_run = refl

new_pair_lem_example :
    (bearer_claims list_jwt issuer (codes "Bearer " ++ (pair_at ali_claims 0).access_token) 899
      ≡ some (stamped list_jwt ali_claims 900 (codes "access") 0))
    × (refresh_claims list_jwt issuer (pair_at ali_claims 0).access_token 899 ≡ none)
    × (refresh_claims list_jwt issuer (pair_at ali_claims 0).refresh_token 899
        ≡ some (stamped list_jwt ali_claims 2000 (codes "refresh") 0))
    × (bearer_claims list_jwt issuer (codes "Bearer " ++ (pair_at ali_claims 0).refresh_token) 899
        ≡ none)
new_pair_lem_example =
    new_pair_lem list_jwt list_jwt_laws issuer ali_claims (refl, refl, refl) 0 0
      (pair_at ali_claims 0) new_pair_run 899

login_run :
    handle_login panel (some ali_login) with_login
    ≡ (logged_in (manager_resp (codes "-") ali (pair_at ali_claims 0)), with_login)
unfolding handle_login manager_login find_admin_by_username find_manager_by_username new_pair
login_run = refl

handle_login-logged_in_example :
    (with_login ≡ with_login)
    × (ForAdmin panel ali_login with_login (manager_resp (codes "-") ali (pair_at ali_claims 0))
        ⊎ ForManager panel ali_login with_login
            (manager_resp (codes "-") ali (pair_at ali_claims 0)))
handle_login-logged_in_example =
    handle_login-logged_in panel ali_login with_login with_login
      (manager_resp (codes "-") ali (pair_at ali_claims 0)) login_run

no_admin_run : find_admin_by_username (codes "ali") with_login.db ≡ err no_rows
unfolding find_admin_by_username
no_admin_run = refl

manager_run : find_manager_by_username (codes "ali") with_login.db ≡ ok ali
unfolding find_manager_by_username
manager_run = refl

check_run : check plain_bcrypt (codes "#secret12") (codes "secret12") ≡ true
unfolding check
check_run = refl

login_then_request_example :
    (handle_login panel (some ali_login) with_login
      ≡ (logged_in (manager_resp (codes "-") ali (pair_at ali_claims 0)), with_login))
    × ((b : Bool) (r : Private) (s : Restricted) (v : World (at_time panel 800))
        → (c : Claims) × (c.role ≡ manager)
          × (c.manager_id ≡ 1)
          × (serve (at_time panel 800) b (with_token (pair_at ali_claims 0) (private r)) v
              ≡ private_handler (at_time panel 800) r (some c) v)
          × (serve (at_time panel 800) b (with_token (pair_at ali_claims 0) (restricted s)) v
              ≡ (error 403 forbidden, v)))
login_then_request_example =
    login_then_request panel list_jwt_laws ali_login with_login no_rows ali (pair_at ali_claims 0)
      800 no_admin_run manager_run refl check_run new_pair_run (refl, refl, refl) (omega arith)

-- The account of the tokens is disabled here.
abbrev disabled : World panel
disabled = record with_login {
  db = record some_db { managers = record ali { is_active = false } ∷ [] };
}

abbrev refreshed_claims : Claims
refreshed_claims = stamped list_jwt ali_claims 2000 (codes "refresh") 0

again_run : new_pair list_jwt issuer refreshed_claims 0 0 ≡ ok (pair_at refreshed_claims 0)
unfolding new_pair
again_run = refl

abbrev disabled_later : World (at_time panel 800)
disabled_later = record { db = disabled.db; router = disabled.router; random = [] }

refresh_then_request_example :
    (handle_refresh panel (some (pair_at ali_claims 0).refresh_token) disabled
      ≡ (tokens (pair_at refreshed_claims 0), disabled))
    × (serve
          (at_time panel 800)
          true
          (with_token (pair_at refreshed_claims 0) (private Private.get_me))
          disabled_later
        ≡ private_handler
            (at_time panel 800)
            Private.get_me
            (some (stamped list_jwt ali_claims 900 (codes "access") 0))
            disabled_later)
    × (serve
          (at_time panel 800)
          true
          (with_token (pair_at refreshed_claims 0) (restricted Restricted.list_managers))
          disabled_later
        ≡ require_admin
            (at_time panel 800)
            (some (stamped list_jwt ali_claims 900 (codes "access") 0))
            (restricted_handler (at_time panel 800) Restricted.list_managers)
            disabled_later)
refresh_then_request_example =
    refresh_then_request panel list_jwt_laws ali_claims 0 0 800 (pair_at ali_claims 0)
      (pair_at refreshed_claims 0) (refl, refl, refl) new_pair_run (omega arith) again_run
      (omega arith) disabled true Private.get_me Restricted.list_managers disabled_later

abbrev header : Text
header = codes "Bearer " ++ (pair_at ali_claims 0).access_token

serve-IsGuarded_example :
    IsGuarded panel header
      (private_handler panel Private.get_me)
      (serve panel true
        (record { authorization = header; route = private Private.get_me })
        with_login)
      with_login
    × IsAdminGuarded panel header
        (restricted_handler panel Restricted.list_managers)
        (serve panel true
          (record { authorization = header; route = restricted Restricted.list_managers })
          with_login)
        with_login
serve-IsGuarded_example =
    serve-IsGuarded panel true header Private.get_me Restricted.list_managers with_login

fits : (plain h : Text) → ok (b'#' ∷ plain) ≡ ok h → text_eq h (b'#' ∷ plain) ≡ true
fits plain h e =
    let same : b'#' ∷ plain ≡ h = cc in
    subst (λ x. text_eq x (b'#' ∷ plain) ≡ true) same (text_eq_refl (b'#' ∷ plain))

plain_laws : BcryptLaws plain_bcrypt
plain_laws = record { compare_generated = λ plain h s t e. fits plain h (ap (λ r. r.0) e) }

abbrev change : ChangePwReq
change = record { current_password = codes "secret12"; new_password = codes "another34" }

abbrev after_change : World panel
after_change = (handle_change_password panel (some ali_claims) (some change) with_login).1

change_run :
    handle_change_password panel (some ali_claims) (some change) with_login
    ≡ (no_content, after_change)
unfolding handle_change_password find_manager_by_id update_manager lt_int
change_run = refl

handle_change_password-no_content_example :
    (mgr : Manager) × (h : Text) × (find_manager_by_id 1 with_login.db ≡ ok mgr)
    × (check plain_bcrypt mgr.password_hash (codes "secret12") ≡ true)
    × (valid_panel panel.unicode (codes "another34") ≡ true)
    × (check plain_bcrypt h (codes "another34") ≡ true)
    × (update_manager 1 none none none none (some h) with_login.db ≡ (ok tt, after_change.db))
    × (after_change.router ≡ with_login.router)
handle_change_password-no_content_example =
    handle_change_password-no_content panel plain_laws ali_claims change with_login after_change
      refl change_run

abbrev empty_panel : World panel
empty_panel = record with_login { db = record some_db { panel_admins = [] } }

abbrev started : World panel
started = (bootstrap_admin panel empty_panel).1

bootstrap_run : bootstrap_admin panel empty_panel ≡ (ok tt, started)
unfolding bootstrap_admin admin_count create_admin lt_int
bootstrap_run = refl

bootstrap_admin_twice_example : bootstrap_admin panel started ≡ (ok tt, started)
bootstrap_admin_twice_example =
    bootstrap_admin_twice panel empty_panel started (omega arith) bootstrap_run
