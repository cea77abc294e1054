-- ===== src/App/Handlers/Lists.antt =====
-- The handlers of the lists of VPN users (backend/internal/app/vpn_handlers.go and
-- admin_handlers.go).
use fast_bypass.Base.{ℕ, Bool, true, false, Option, List, length}
use fast_bypass.Auth.{Claims}
use fast_bypass.App.State.{App, registry}
use fast_bypass.App.Pages.{parse_page, parse_page_size, page_window}
use fast_bypass.App.Service.{profile_dtos}
use fast_bypass.App.Lists.{
  ListQuery, ListRow, names, slice, vpn_page_of, list_users, manager_rows, admin_rows,
}
use fast_bypass.App.Http.{
  Handler, error, answer, catch, for_manager, internal, mikrotik_unavailable,
}

module _ (A : App) where
  -- The page of the rows, with the ids of `FindVPNMetasByNames`.
  abbrev pub page_answer : Bool → ListQuery → ℕ → ℕ → List ListRow → Handler A
  page_answer for_admin lq page page_size rows w =
      answer A
        (vpn_page_of (A.store.find_vpn_metas_by_names (names rows) w.db) for_admin page page_size
          (length rows) (slice (page_window (length rows) page page_size) rows))
        w

  abbrev pub paged : Bool → ListQuery → List ListRow → Handler A
  paged for_admin lq rows =
      page_answer for_admin lq (parse_page lq.page) (parse_page_size lq.page_size) rows

  unfoldable pub handle_list_vpn_users : Option Claims → ListQuery → Handler A
  unfolding list_users manager_rows parse_page parse_page_size page_window profile_dtos
  handle_list_vpn_users c lq = for_manager A c λ c.
      catch A (registry A) (λ _. error 500 internal)
        λ reg.
          catch A (list_users A lq.refresh) (λ _. error 503 mikrotik_unavailable)
            λ users.
              catch A (manager_rows A reg c.manager_id lq users) (λ _. error 500 internal)
                (paged false lq)

  unfoldable pub handle_admin_list_vpn_users : ListQuery → Handler A
  unfolding list_users admin_rows parse_page parse_page_size page_window profile_dtos
  handle_admin_list_vpn_users lq =
      catch A (registry A) (λ _. error 500 internal)
        λ reg.
          catch A (list_users A lq.refresh) (λ _. error 503 mikrotik_unavailable)
            λ users. catch A (admin_rows A reg lq users) (λ _. error 500 internal) (paged true lq)
