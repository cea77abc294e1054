-- ===== src/App/Handlers/Renewals.antt =====
-- The handlers of the renewals (backend/internal/app/renewals_handlers.go). A number of the query
-- is what `strconv` leaves of its text.
use fast_bypass.Base.{ℕ, Text, Bool, true, false, Option, none, some, []}
use fast_bypass.Store.{RenewalFilter, RenewalThrough}
use fast_bypass.Auth.{Role, Claims, admin, manager}
use fast_bypass.App.State.{App, query, on_db}
use fast_bypass.App.Pages.{parse_page, parse_page_size}
use fast_bypass.App.Renewals.{write_renewals}
use fast_bypass.App.Http.{
  Handler, error, updated_count, answer, catch, decoded, for_manager, internal, forbidden,
  not_in_scope,
}

-- The parameters of the URL.
pub record RenewalsQuery : Type 0 where
  pub settled : Text
  pub from : Text
  pub to : Text
  pub q : Text
  pub page : ℕ
  pub page_size : ℕ
  pub manager_id : Option ℕ

pub record SettleReq : Type 0 where
  pub through_activation_id : ℕ
  pub manager_id : Option ℕ

abbrev pub through_of : ℕ → Option ℕ → RenewalThrough
through_of id none = record { activation_id = id; manager_id = none; orphan_only = true }
through_of id (some m) = record { activation_id = id; manager_id = some m; orphan_only = false }

abbrev pub without_manager : Option ℕ → Bool
without_manager none = true
without_manager (some id) = false

abbrev pub manager_filter : ℕ → RenewalsQuery → RenewalFilter
manager_filter id q = record {
  manager_id = some id;
  orphan_only = false;
  settled = q.settled;
  from = [];
  to = [];
  query = q.q;
  page = parse_page q.page;
  page_size = parse_page_size q.page_size;
}

abbrev pub admin_filter : RenewalsQuery → RenewalFilter
admin_filter q = record {
  manager_id = q.manager_id;
  orphan_only = without_manager q.manager_id;
  settled = q.settled;
  from = q.from;
  to = q.to;
  query = q.q;
  page = parse_page q.page;
  page_size = parse_page_size q.page_size;
}

module _ (A : App) where
  unfoldable pub handle_manager_renewals : Option Claims → RenewalsQuery → Handler A
  unfolding parse_page parse_page_size write_renewals
  handle_manager_renewals c q =
      for_manager A c λ c. write_renewals A (manager_filter c.manager_id q) false

  unfoldable pub handle_admin_renewals : RenewalsQuery → Handler A
  unfolding parse_page parse_page_size write_renewals
  handle_admin_renewals q = write_renewals A (admin_filter q) true

  abbrev pub for_role_admin : Role → Claims → (Claims → Handler A) → Handler A
  for_role_admin admin c rest = rest c
  for_role_admin manager c rest = answer A (error 403 forbidden)

  -- `!ok || c.Role != auth.RoleAdmin`
  abbrev pub for_admin : Option Claims → (Claims → Handler A) → Handler A
  for_admin none rest = answer A (error 403 forbidden)
  for_admin (some c) rest = for_role_admin c.role c rest

  unfoldable pub handle_settle_through : Option Claims → Option SettleReq → Handler A
  handle_settle_through c body = for_admin c λ c. decoded A body λ req.
      catch A (query A (A.store.find_admin_by_username c.username)) (λ _. error 500 internal)
        λ adm.
          catch A
            (on_db A
              (A.store.settle_through adm.id (through_of req.through_activation_id req.manager_id)))
            (λ _. error 403 not_in_scope) λ n. answer A (updated_count n)
