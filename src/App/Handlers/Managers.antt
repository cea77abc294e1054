-- ===== src/App/Handlers/Managers.antt =====
-- The admins' handlers for managers and the totals (backend/internal/app/admin_handlers.go).
use fast_bypass.Base.{
  ℕ, Text, trim_space, is_empty, Bool, true, ◌||◌, not, Option, none, some, List, [], ◌∷◌, length,
  lt_int, if◌then◌else◌,
}
use fast_bypass.Result.{Exec, Result, ⊤, Error, ok, err, invalid_cert_title, pure, attempt, ◌>>=◌}
use fast_bypass.Password.{valid_panel, hash}
use fast_bypass.Owner.{slug_overlaps}
use fast_bypass.Quota.{Aggregate, aggregate_by_owner, stats_of}
use fast_bypass.Store.{Manager, ManagerSlug}
use fast_bypass.App.State.{App, World, query, on_db, on_router, on_random, registry}
use fast_bypass.App.Cert.{setup_manager_certificate}
use fast_bypass.App.Service.{manager_used_quota, or_nil}
use fast_bypass.App.Dtos.{ManagerDto, ManagerStats, StatsDto}
use fast_bypass.App.Lists.{list_users}
use fast_bypass.App.Http.{
  Response, Handler, error, manager_list, stats, created_manager, answer, catch, tried, decoded,
  internal, validation, mikrotik_unavailable, slug_overlaps_code, slug_in_use,
}

pub record CreateManagerReq : Type 0 where
  pub username : Text
  pub password : Text
  pub display_name : Text
  pub slug : Text
  pub quota : ℕ
  pub cert_title : Option Text

pub record PatchManagerReq : Type 0 where
  pub username : Option Text
  pub display_name : Option Text
  pub quota : Option ℕ
  pub is_active : Option Bool
  pub password : Option Text
  pub cert_title : Option Text

-- `used, _ :=`, with 0 beside an error.
abbrev pub or_zero : Result ℕ → ℕ
or_zero (ok n) = n
or_zero (err e) = 0

abbrev pub manager_dto : Manager → ℕ → ManagerDto
manager_dto m used = record {
  id = m.id;
  username = m.username;
  display_name = m.display_name;
  slug = m.slug;
  quota = m.quota;
  used_quota = used;
  is_active = m.is_active;
  cert_title = m.cert_title;
}

-- The row that `HandleCreateManager` inserts; the store sets what it leaves open.
abbrev pub new_manager : CreateManagerReq → Text → Manager
new_manager req hash = record {
  id = 0;
  username = req.username;
  password_hash = hash;
  display_name = req.display_name;
  slug = req.slug;
  quota = req.quota;
  is_active = true;
  cert_title = none;
  cert_key_pass = none;
  created_at = [];
  updated_at = [];
}

abbrev pub cert_error : Error → Response
cert_error invalid_cert_title = error 400 validation
cert_error e = error 503 mikrotik_unavailable

unfoldable pub manager_stats : Aggregate → List Manager → List ManagerStats
manager_stats a [] = []
manager_stats a (m ∷ managers) =
    record {
      manager_id = m.id;
      display_name = m.display_name;
      username = m.username;
      quota = m.quota;
      vpn_users = (stats_of m.id a.by_manager).vpn_users;
      connections = (stats_of m.id a.by_manager).connections;
    }
    ∷ manager_stats a managers

abbrev pub stats_dto : Aggregate → List Manager → StatsDto
stats_dto a managers = record {
  manager_count = length managers;
  vpn_users = a.total.vpn_users;
  connections = a.total.connections;
  orphan_vpn_users = a.orphan.vpn_users;
  orphan_connections = a.orphan.connections;
  by_manager = manager_stats a managers;
}

module _ (A : App) where
  -- The loop of `HandleListManagers`.
  unfoldable pub manager_items : List Manager → Exec (World A) (List ManagerDto)
  manager_items [] = pure []
  manager_items (m ∷ managers) =
      let rest = manager_items managers in
      attempt (manager_used_quota A m.id) >>= λ used.
      rest >>= λ items. pure (manager_dto m (or_zero used) ∷ items)

  unfoldable pub handle_list_managers : Handler A
  unfolding manager_items
  handle_list_managers =
      catch A (query A A.store.list_managers) (λ _. error 500 internal)
        λ managers.
          catch A (manager_items managers) (λ _. error 500 internal)
            λ items. answer A (manager_list items)

  unfoldable pub handle_admin_stats : Bool → Handler A
  unfolding aggregate_by_owner manager_stats
  handle_admin_stats refresh =
      catch A (registry A) (λ _. error 500 internal)
        λ reg.
          catch A (list_users A refresh) (λ _. error 503 mikrotik_unavailable)
            λ users.
              catch A
                (aggregate_by_owner A.times reg (λ name. on_router A (A.mt.list_user_profiles name))
                  A.now users)
                (λ _. error 503 mikrotik_unavailable)
                λ a.
                  catch A (query A A.store.list_managers) (λ _. error 500 internal)
                    λ managers. answer A (stats (stats_dto a managers))

  abbrev pub manager_certificate : ℕ → Option Text → Exec (World A) ⊤
  manager_certificate id none = pure tt
  manager_certificate id (some title) =
      if is_empty (trim_space title) then pure tt else setup_manager_certificate A id title

  -- The steps after the tests: the hash, the row, the certificate.
  abbrev pub inserted_with : CreateManagerReq → Text → Handler A
  inserted_with req h =
      catch A (on_db A (A.store.create_manager (new_manager req h))) (λ _. error 409 slug_in_use)
        λ id.
          catch A (manager_certificate id req.cert_title) cert_error
            λ _. answer A (created_manager id)

  abbrev pub insert_manager : CreateManagerReq → Handler A
  insert_manager req =
      catch A (on_random A (hash A.bcrypt req.password)) (λ _. error 500 internal)
        (inserted_with req)

  abbrev pub checked_slug : CreateManagerReq → Result (List ManagerSlug) → Handler A
  checked_slug req slugs =
      if slug_overlaps req.slug (or_nil slugs) 0
      then answer A (error 409 slug_overlaps_code)
      else insert_manager req

  unfoldable pub handle_create_manager : Option CreateManagerReq → Handler A
  unfolding valid_panel hash
  handle_create_manager body = decoded A body λ req.
      if not (valid_panel A.unicode req.password) || lt_int req.quota 1
      then answer A (error 400 validation)
      else tried A (query A A.store.list_manager_slugs) (checked_slug req)
