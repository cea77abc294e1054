-- ===== src/Server.antt =====
-- The routes of the API (backend/internal/server/server.go), the test of the header
-- (backend/internal/auth/middleware.go) before all but three of them, and `RequireAdmin` before
-- those of admins. A route stands for a method and a path, with what the handler reads of the
-- URL and of the body; a body that cannot be decoded is `none`. How the router chi finds the route
-- of a path is not modelled.
pub mod Accounts
pub mod Guards
pub mod Links
pub mod Session
use fast_bypass.Base.{ℕ, Text, Bool, Option, none, some}
use fast_bypass.Result.{Result, ok, err}
use fast_bypass.Auth.{Role, Claims, admin, manager, bearer_claims}
use fast_bypass.App.{
  App, World, on_router, CreateVpnReq, PatchVpnReq, AdminPatchVpnReq, AssignProfileReq, Response,
  Handler, error, health, answer, tried, unauthorized, forbidden, ListQuery,
}
use fast_bypass.App.Handlers

pub data Public : Type 0 where
  get_health : Public
  login : Option Handlers.LoginReq → Public
  refresh : Option Text → Public

-- The routes behind `Middleware`.
pub data Private : Type 0 where
  logout get_me get_me_quota : Private
  patch_me : Option Handlers.PatchMeReq → Private
  change_password : Option Handlers.ChangePwReq → Private
  list_vpn_users : ListQuery → Private
  create_vpn_user : Option CreateVpnReq → Private
  get_by_name delete_by_name connection_by_name ovpn_by_name : Text → Private
  patch_by_name : Text → Option PatchVpnReq → Private
  assign_by_name : Text → Option AssignProfileReq → Private
  remove_profile_by_name : Text → Text → Private
  get_by_id delete_by_id connection_by_id ovpn_by_id : Option ℕ → Private
  patch_by_id : Option ℕ → Option PatchVpnReq → Private
  assign_by_id : Option ℕ → Option AssignProfileReq → Private
  remove_profile_by_id : Option ℕ → Text → Private
  get_renewals : Handlers.RenewalsQuery → Private

-- The routes below /admin.
pub data Restricted : Type 0 where
  get_stats : Bool → Restricted
  list_managers : Restricted
  create_manager : Option Handlers.CreateManagerReq → Restricted
  patch_manager : ℕ → Option Handlers.PatchManagerReq → Restricted
  admin_list_vpn_users : ListQuery → Restricted
  admin_create_vpn_user : Option Handlers.AdminCreateVpnReq → Restricted
  admin_get_by_name admin_delete_by_name : Text → Restricted
  admin_connection_by_name admin_ovpn_by_name : Text → Restricted
  admin_patch_by_name : Text → Option AdminPatchVpnReq → Restricted
  admin_assign_by_name : Text → Option AssignProfileReq → Restricted
  admin_remove_profile_by_name : Text → Text → Restricted
  admin_get_by_id admin_delete_by_id : Option ℕ → Restricted
  admin_connection_by_id admin_ovpn_by_id : Option ℕ → Restricted
  admin_patch_by_id : Option ℕ → Option AdminPatchVpnReq → Restricted
  admin_assign_by_id : Option ℕ → Option AssignProfileReq → Restricted
  admin_remove_profile_by_id : Option ℕ → Text → Restricted
  admin_renewals : Handlers.RenewalsQuery → Restricted
  settle_through : Option Handlers.SettleReq → Restricted

pub data Route : Type 0 where
  public : Public → Route
  private : Private → Route
  restricted : Restricted → Route

-- `strings.HasPrefix(h, "Bearer ")` and so on: the text of the header "Authorization".
pub record Request : Type 0 where
  pub authorization : Text
  pub route : Route

abbrev pub is_ok {ℓ} : {A : Type ℓ} → Result A → Bool
is_ok (ok a) = Bool.true
is_ok (err e) = Bool.false

module _ (A : App) where
  -- `ping_db` is the answer of the database to `Ping`.
  abbrev pub public_handler : Bool → Public → Handler A
  public_handler ping_db get_health =
      tried A (on_router A A.mt.ping) λ r. answer A (health ping_db (is_ok r))
  public_handler ping_db (login body) = Handlers.handle_login A body
  public_handler ping_db (refresh body) = Handlers.handle_refresh A body

  abbrev pub private_handler : Private → Option Claims → Handler A
  private_handler logout c = Handlers.handle_logout A
  private_handler get_me c = Handlers.handle_me A c
  private_handler get_me_quota c = Handlers.handle_me_quota A c
  private_handler (patch_me body) c = Handlers.handle_patch_me A c body
  private_handler (change_password body) c = Handlers.handle_change_password A c body
  private_handler (list_vpn_users lq) c = Handlers.handle_list_vpn_users A c lq
  private_handler (create_vpn_user body) c = Handlers.handle_create_vpn_user A c body
  private_handler (get_by_name name) c = Handlers.handle_get_vpn_user_by_name A c name
  private_handler (delete_by_name name) c = Handlers.handle_delete_vpn_user_by_name A c name
  private_handler (connection_by_name name) c = Handlers.handle_connection_bundle_by_name A c name
  private_handler (ovpn_by_name name) c = Handlers.handle_download_ovpn_by_name A c name
  private_handler (patch_by_name name body) c = Handlers.handle_patch_vpn_user_by_name A c name body
  private_handler (assign_by_name name body) c =
      Handlers.handle_assign_profile_by_name A c name body
  private_handler (remove_profile_by_name name row) c =
      Handlers.handle_remove_profile_by_name A c name row
  private_handler (get_by_id id) c = Handlers.handle_get_vpn_user A c id
  private_handler (delete_by_id id) c = Handlers.handle_delete_vpn_user A c id
  private_handler (connection_by_id id) c = Handlers.handle_connection_bundle A c id
  private_handler (ovpn_by_id id) c = Handlers.handle_download_ovpn A c id
  private_handler (patch_by_id id body) c = Handlers.handle_patch_vpn_user A c id body
  private_handler (assign_by_id id body) c = Handlers.handle_assign_profile A c id body
  private_handler (remove_profile_by_id id row) c = Handlers.handle_remove_profile A c id row
  private_handler (get_renewals q) c = Handlers.handle_manager_renewals A c q

  abbrev pub restricted_handler : Restricted → Option Claims → Handler A
  restricted_handler (get_stats fresh) c = Handlers.handle_admin_stats A fresh
  restricted_handler list_managers c = Handlers.handle_list_managers A
  restricted_handler (create_manager body) c = Handlers.handle_create_manager A body
  restricted_handler (patch_manager id body) c = Handlers.handle_patch_manager A id body
  restricted_handler (admin_list_vpn_users lq) c = Handlers.handle_admin_list_vpn_users A lq
  restricted_handler (admin_create_vpn_user body) c = Handlers.handle_admin_create_vpn_user A body
  restricted_handler (admin_get_by_name name) c = Handlers.handle_admin_get_vpn_user_by_name A name
  restricted_handler (admin_delete_by_name name) c =
      Handlers.handle_admin_delete_vpn_user_by_name A name
  restricted_handler (admin_connection_by_name name) c =
      Handlers.handle_admin_connection_bundle_by_name A name
  restricted_handler (admin_ovpn_by_name name) c =
      Handlers.handle_admin_download_ovpn_by_name A name
  restricted_handler (admin_patch_by_name name body) c =
      Handlers.handle_admin_patch_vpn_user_by_name A name body
  restricted_handler (admin_assign_by_name name body) c =
      Handlers.handle_admin_assign_profile_by_name A name body
  restricted_handler (admin_remove_profile_by_name name row) c =
      Handlers.handle_admin_remove_profile_by_name A name row
  restricted_handler (admin_get_by_id id) c = Handlers.handle_admin_get_vpn_user A id
  restricted_handler (admin_delete_by_id id) c = Handlers.handle_admin_delete_vpn_user A id
  restricted_handler (admin_connection_by_id id) c = Handlers.handle_admin_connection_bundle A id
  restricted_handler (admin_ovpn_by_id id) c = Handlers.handle_admin_download_ovpn A id
  restricted_handler (admin_patch_by_id id body) c = Handlers.handle_admin_patch_vpn_user A id body
  restricted_handler (admin_assign_by_id id body) c = Handlers.handle_admin_assign_profile A id body
  restricted_handler (admin_remove_profile_by_id id row) c =
      Handlers.handle_admin_remove_profile A id row
  restricted_handler (admin_renewals q) c = Handlers.handle_admin_renewals A q
  restricted_handler (settle_through body) c = Handlers.handle_settle_through A c body

  abbrev pub let_through : Option Claims → (Option Claims → Handler A) → Handler A
  let_through none next = answer A (error 401 unauthorized)
  let_through (some c) next = next (some c)

  -- `Middleware`: the handler behind it gets the claims of the token.
  unfoldable pub middleware : Text → (Option Claims → Handler A) → Handler A
  middleware h next = let_through (bearer_claims A.jwt A.auth h A.now) next

  abbrev pub role_passes : Role → Claims → (Option Claims → Handler A) → Handler A
  role_passes admin c next = next (some c)
  role_passes manager c next = answer A (error 403 forbidden)

  unfoldable pub require_admin : Option Claims → (Option Claims → Handler A) → Handler A
  require_admin none next = answer A (error 403 forbidden)
  require_admin (some c) next = role_passes c.role c next

  abbrev pub routed : Bool → Text → Route → Handler A
  routed ping_db h (public r) = public_handler ping_db r
  routed ping_db h (private r) = middleware h (private_handler r)
  routed ping_db h (restricted r) = middleware h λ c. require_admin c (restricted_handler r)

  unfoldable pub serve : Bool → Request → Handler A
  unfolding middleware require_admin
  serve ping_db req = routed ping_db req.authorization req.route
