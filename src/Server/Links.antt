-- ===== src/Server/Links.antt =====
-- Every request keeps what every statement that writes keeps: slugs of which none begins another.
use fast_bypass.Base.{Text, Bool, Option, none, some, List, [], ◌∷◌}
use fast_bypass.Auth.{Role, Claims, admin, manager, bearer_claims}
use fast_bypass.App.Keeps.Slugs.{slugs-Kept, IsSlugSeparated}
use fast_bypass.App.{App, on_tables, World, Handler}
use fast_bypass.App.Keeps.{KeptByWrites, KeptByManagers, Keeps}
use fast_bypass.App.Keeps.Requests.{manager_request_rules}
use fast_bypass.App.Keeps.Admins.{admin_request_rules}
use fast_bypass.App.Keeps.Accounts.{account_rules}
use fast_bypass.App.Keeps.Lists.{list_rules}
use fast_bypass.App.Keeps.Managers.{manager_rules}
use fast_bypass.App.Keeps.Services.{cert_rules}
use fast_bypass.Server.{
  Public, Private, Restricted, Route, public, private, restricted, Request, public_handler,
  private_handler, restricted_handler, let_through, role_passes, middleware, require_admin, routed,
  serve,
}

ruleset handler_rules =
    (manager_request_rules, admin_request_rules, account_rules, list_rules, manager_rules)

module _ {A : App} {Q : A.store.State → Type 0} (M : KeptByManagers A.store Q) where
  pub public_handler-Keeps : (b : Bool) (r : Public) → Keeps A Q (public_handler A b r)
  public_handler-Keeps b Public.get_health = search cert_rules
  public_handler-Keeps b (Public.login body) = search account_rules
  public_handler-Keeps b (Public.refresh body) = search account_rules

  pub private_handler-Keeps : (r : Private) (c : Option Claims) → Keeps A Q (private_handler A r c)
  private_handler-Keeps Private.logout c = search handler_rules
  private_handler-Keeps Private.get_me c = search handler_rules
  private_handler-Keeps Private.get_me_quota c = search handler_rules
  private_handler-Keeps (Private.patch_me body) c = search handler_rules
  private_handler-Keeps (Private.change_password body) c = search handler_rules
  private_handler-Keeps (Private.list_vpn_users lq) c = search handler_rules
  private_handler-Keeps (Private.create_vpn_user body) c = search handler_rules
  private_handler-Keeps (Private.get_by_name name) c = search handler_rules
  private_handler-Keeps (Private.delete_by_name name) c = search handler_rules
  private_handler-Keeps (Private.connection_by_name name) c = search handler_rules
  private_handler-Keeps (Private.ovpn_by_name name) c = search handler_rules
  private_handler-Keeps (Private.patch_by_name name body) c = search handler_rules
  private_handler-Keeps (Private.assign_by_name name body) c = search handler_rules
  private_handler-Keeps (Private.remove_profile_by_name name row) c = search handler_rules
  private_handler-Keeps (Private.get_by_id id) c = search handler_rules
  private_handler-Keeps (Private.delete_by_id id) c = search handler_rules
  private_handler-Keeps (Private.connection_by_id id) c = search handler_rules
  private_handler-Keeps (Private.ovpn_by_id id) c = search handler_rules
  private_handler-Keeps (Private.patch_by_id id body) c = search handler_rules
  private_handler-Keeps (Private.assign_by_id id body) c = search handler_rules
  private_handler-Keeps (Private.remove_profile_by_id id row) c = search handler_rules
  private_handler-Keeps (Private.get_renewals q) c = search handler_rules

module _ {A : App} {Q : A.store.State → Type 0} (W : KeptByWrites A.store Q) where
  restricted_handler-Keeps :
      (r : Restricted) (c : Option Claims) → Keeps A Q (restricted_handler A r c)
  restricted_handler-Keeps (Restricted.get_stats fresh) c = search handler_rules
  restricted_handler-Keeps Restricted.list_managers c = search handler_rules
  restricted_handler-Keeps (Restricted.create_manager body) c = search handler_rules
  restricted_handler-Keeps (Restricted.patch_manager id body) c = search handler_rules
  restricted_handler-Keeps (Restricted.admin_list_vpn_users lq) c = search handler_rules
  restricted_handler-Keeps (Restricted.admin_create_vpn_user body) c = search handler_rules
  restricted_handler-Keeps (Restricted.admin_get_by_name name) c = search handler_rules
  restricted_handler-Keeps (Restricted.admin_delete_by_name name) c = search handler_rules
  restricted_handler-Keeps (Restricted.admin_connection_by_name name) c = search handler_rules
  restricted_handler-Keeps (Restricted.admin_ovpn_by_name name) c = search handler_rules
  restricted_handler-Keeps (Restricted.admin_patch_by_name name body) c = search handler_rules
  restricted_handler-Keeps (Restricted.admin_assign_by_name name body) c = search handler_rules
  restricted_handler-Keeps (Restricted.admin_remove_profile_by_name name row) c =
      search handler_rules
  restricted_handler-Keeps (Restricted.admin_get_by_id id) c = search handler_rules
  restricted_handler-Keeps (Restricted.admin_delete_by_id id) c = search handler_rules
  restricted_handler-Keeps (Restricted.admin_connection_by_id id) c = search handler_rules
  restricted_handler-Keeps (Restricted.admin_ovpn_by_id id) c = search handler_rules
  restricted_handler-Keeps (Restricted.admin_patch_by_id id body) c = search handler_rules
  restricted_handler-Keeps (Restricted.admin_assign_by_id id body) c = search handler_rules
  restricted_handler-Keeps (Restricted.admin_remove_profile_by_id id row) c = search handler_rules
  restricted_handler-Keeps (Restricted.admin_renewals q) c = search handler_rules
  restricted_handler-Keeps (Restricted.settle_through body) c = search handler_rules

  let_through-Keeps :
      (o : Option Claims) (next : Option Claims → Handler A)
      → ((c : Option Claims) → Keeps A Q (next c))
      → Keeps A Q (let_through A o next)
  let_through-Keeps none next k = search cert_rules
  let_through-Keeps (some c) next k = k (some c)

  role_passes-Keeps :
      (r : Role) (c : Claims) (next : Option Claims → Handler A)
      → ((c : Option Claims) → Keeps A Q (next c))
      → Keeps A Q (role_passes A r c next)
  role_passes-Keeps admin c next k = k (some c)
  role_passes-Keeps manager c next k = search cert_rules

  require_admin-Keeps :
      (o : Option Claims) (next : Option Claims → Handler A)
      → ((c : Option Claims) → Keeps A Q (next c))
      → Keeps A Q (require_admin A o next)
  unfolding require_admin
  require_admin-Keeps none next k = search cert_rules
  require_admin-Keeps (some c) next k = role_passes-Keeps c.role c next k

  routed-Keeps : (b : Bool) (h : Text) (r : Route) → Keeps A Q (routed A b h r)
  unfolding middleware
  routed-Keeps b h (public r) = public_handler-Keeps W.by_managers b r
  routed-Keeps b h (private r) =
      let_through-Keeps (bearer_claims A.jwt A.auth h A.now) (private_handler A r)
        (private_handler-Keeps W.by_managers r)
  routed-Keeps b h (restricted r) =
      let_through-Keeps (bearer_claims A.jwt A.auth h A.now)
        (λ c. require_admin A c (restricted_handler A r))
        λ c. require_admin-Keeps c (restricted_handler A r) (restricted_handler-Keeps r)

  pub serve-Keeps : (b : Bool) (req : Request) → Keeps A Q (serve A b req)
  unfolding serve
  serve-Keeps b req = routed-Keeps b req.authorization req.route

-- The state after requests in this order, each with the answer of the database to `Ping`.
abbrev pub serve_all : (A : App) → List (Bool × Request) → World A → World A
serve_all A [] w = w
serve_all A ((b, req) ∷ reqs) w = serve_all A reqs (serve A b req w).1

-- Where no manager's slug begins another's, it is so after any requests.
pub serve_all-IsSlugSeparated :
    (A : App) (reqs : List (Bool × Request)) (w : World (on_tables A))
    → IsSlugSeparated w.db
    → IsSlugSeparated (serve_all (on_tables A) reqs w).db
serve_all-IsSlugSeparated A [] w h = h
serve_all-IsSlugSeparated A ((b, req) ∷ reqs) w h =
    serve_all-IsSlugSeparated A reqs (serve (on_tables A) b req w).1
      ((serve-Keeps {A = on_tables A} {Q = IsSlugSeparated} slugs-Kept b req).at w h)
