-- ===== src/App/Keeps/Accounts.antt =====
-- The handlers of the session, the account and the lists keep what every statement that writes
-- keeps.
use fast_bypass.Base.{Text, Option, none, some}
use fast_bypass.Result.{Result, ok, err, no_rows}
use fast_bypass.Store.{PanelAdmin, Manager}
use fast_bypass.Auth.{Role, Claims, admin, manager}
use fast_bypass.App.State.{App}
use fast_bypass.App.Handlers
use fast_bypass.App.Handlers.{LoginReq, ChangePwReq, PatchMeReq, RenewalsQuery, SettleReq}
use fast_bypass.App.Keeps.{KeptByWrites, KeptByManagers, Keeps}
use fast_bypass.App.Keeps.Users.{user_rules}

module _ {A : App} {Q : A.store.State → Type 0} (M : KeptByManagers A.store Q) where
  admin_login-Keeps : (req : LoginReq) (a : PanelAdmin) → Keeps A Q (Handlers.admin_login A req a)
  unfolding Handlers.admin_login
  admin_login-Keeps req a = search user_rules depth 10

  manager_login-Keeps :
      (req : LoginReq) (r : Result Manager) → Keeps A Q (Handlers.manager_login A req r)
  unfolding Handlers.manager_login
  manager_login-Keeps req (ok m) = search user_rules depth 10
  manager_login-Keeps req (err no_rows) = search user_rules
  manager_login-Keeps req (err e) = search user_rules

  login_as-Keeps : (req : LoginReq) (r : Result PanelAdmin) → Keeps A Q (Handlers.login_as A req r)
  login_as-Keeps req (ok a) = admin_login-Keeps req a
  login_as-Keeps req (err e) = search (user_rules, manager_login-Keeps) depth 8

  pub handle_login-Keeps : (body : Option LoginReq) → Keeps A Q (Handlers.handle_login A body)
  unfolding Handlers.handle_login
  handle_login-Keeps body = search (user_rules, login_as-Keeps) depth 8

  refreshed-Keeps : (c : Option Claims) → Keeps A Q (Handlers.refreshed A c)
  refreshed-Keeps none = search user_rules
  refreshed-Keeps (some c) = search user_rules depth 8

  pub handle_refresh-Keeps : (body : Option Text) → Keeps A Q (Handlers.handle_refresh A body)
  unfolding Handlers.handle_refresh
  handle_refresh-Keeps body = search (user_rules, refreshed-Keeps) depth 8

  pub handle_logout-Keeps : Keeps A Q (Handlers.handle_logout A)
  unfolding Handlers.handle_logout
  handle_logout-Keeps = search user_rules

  me_of-Keeps : (r : Role) (c : Claims) → Keeps A Q (Handlers.me_of A r c)
  me_of-Keeps admin c = search user_rules depth 8
  me_of-Keeps manager c = search user_rules depth 8

  pub handle_me-Keeps : (c : Option Claims) → Keeps A Q (Handlers.handle_me A c)
  unfolding Handlers.handle_me
  handle_me-Keeps c = search (user_rules, me_of-Keeps) depth 8

  renamed-Keeps : (c : Claims) (n : Option Text) → Keeps A Q (Handlers.renamed A c n)
  renamed-Keeps c none = search user_rules
  renamed-Keeps c (some n) = search (user_rules, me_of-Keeps) depth 8

  patch_me_of-Keeps :
      (r : Role) (c : Claims) (n : Option Text) → Keeps A Q (Handlers.patch_me_of A r c n)
  patch_me_of-Keeps admin c n = me_of-Keeps c.role c
  patch_me_of-Keeps manager c n = renamed-Keeps c n

  pub handle_patch_me-Keeps :
      (c : Option Claims) (body : Option PatchMeReq) → Keeps A Q (Handlers.handle_patch_me A c body)
  unfolding Handlers.handle_patch_me
  handle_patch_me-Keeps c body = search (user_rules, patch_me_of-Keeps) depth 10

  admin_password_change-Keeps :
      (req : ChangePwReq) (r : Result PanelAdmin)
      → Keeps A Q (Handlers.admin_password_change A req r)
  admin_password_change-Keeps req (ok a) = search user_rules depth 12
  admin_password_change-Keeps req (err e) = search user_rules

  manager_password_change-Keeps :
      (c : Claims) (req : ChangePwReq) (r : Result Manager)
      → Keeps A Q (Handlers.manager_password_change A c req r)
  manager_password_change-Keeps c req (ok m) = search user_rules depth 12
  manager_password_change-Keeps c req (err e) = search user_rules

  password_change-Keeps :
      (r : Role) (c : Claims) (req : ChangePwReq) → Keeps A Q (Handlers.password_change A r c req)
  password_change-Keeps admin c req = search (user_rules, admin_password_change-Keeps) depth 8
  password_change-Keeps manager c req = search (user_rules, manager_password_change-Keeps) depth 8

  pub handle_change_password-Keeps :
      (c : Option Claims) (body : Option ChangePwReq)
      → Keeps A Q (Handlers.handle_change_password A c body)
  unfolding Handlers.handle_change_password
  handle_change_password-Keeps c body = search (user_rules, password_change-Keeps) depth 10

  pub handle_me_quota-Keeps : (c : Option Claims) → Keeps A Q (Handlers.handle_me_quota A c)
  unfolding Handlers.handle_me_quota
  handle_me_quota-Keeps c = search user_rules depth 12

module _ {A : App} {Q : A.store.State → Type 0} (W : KeptByWrites A.store Q) where
  pub bootstrap_admin-Keeps : Keeps A Q (Handlers.bootstrap_admin A)
  unfolding Handlers.bootstrap_admin
  bootstrap_admin-Keeps = search user_rules depth 16

pub ruleset account_rules = (
  handle_login-Keeps, handle_refresh-Keeps, handle_logout-Keeps, handle_me-Keeps,
  handle_patch_me-Keeps, handle_change_password-Keeps, handle_me_quota-Keeps,
)
