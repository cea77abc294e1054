-- ===== src/App/Renewals.antt =====
-- The lists of renewals with the counts that the router has now
-- (`applyRenewalsLiveSharedUsers` of backend/internal/app/shared_users_sync.go and `writeRenewals`
-- of renewals_handlers.go).
pub mod Sums
use fast_bypass.Base.{
  ℕ, Text, codes, text_eq, Bool, true, false, ◌&&◌, not, Option, none, some, List, [], ◌∷◌, ◌==◌,
  add_int, if◌then◌else◌, Dict, lookup, text_key,
}
use fast_bypass.Result.{Exec, Result, ⊤, ok, err, pure, ◌>>=◌}
use fast_bypass.Store.{Manager, RenewalFilter, RenewalSummary, RenewalRow, RenewalSharedUsersRow}
use fast_bypass.App.State.{App, World, query}
use fast_bypass.App.Sync.{
  live_shared_users, latest_unsettled_per_user, mikrotik_shared_users_by_name, write_back,
}
use fast_bypass.App.Dtos.{RenewalsDto}
use fast_bypass.App.Http.{
  Response, Handler, error, renewals, answer, catch, tried, internal, mikrotik_unavailable,
}

-- The loop over the rows where nothing is live.
unfoldable pub stored_sums : ℕ → ℕ → List RenewalSharedUsersRow → RenewalSummary
stored_sums unsettled all [] = record {
  unsettled_shared_users_sum = unsettled;
  all_shared_users_sum = all;
}
stored_sums unsettled all (r ∷ rows) =
    stored_sums (if r.is_settled then unsettled else add_int unsettled r.shared_users)
      (add_int all r.shared_users) rows

-- `latest[name] == id`, with 0 for a missing name.
abbrev pub is_latest : Dict Text ℕ → Text → ℕ → Bool
is_latest latest name id = elim (lookup name latest) [ some n ↦ n == id | none ↦ 0 == id ]

-- The last loop: the rows of the page that are the newest open ones of their users.
unfoldable pub live_items : Dict Text ℕ → Dict Text ℕ → List RenewalRow → List RenewalRow
live_items m latest [] = []
live_items m latest (r ∷ rows) =
    (if not r.is_settled && is_latest latest r.mikrotik_name r.id
      then record r { shared_users = live_shared_users m r.mikrotik_name r.shared_users }
      else r)
    ∷ live_items m latest rows

module _ (A : App) where
  -- The loop over the rows in scope; the count of a user's newest open row is the router's, and is
  -- written back.
  unfoldable pub live_sums :
      Dict Text ℕ → Dict Text ℕ → ℕ → ℕ → List RenewalSharedUsersRow → Exec (World A) RenewalSummary
  unfolding live_shared_users
  live_sums m latest unsettled all [] =
      pure (record { unsettled_shared_users_sum = unsettled; all_shared_users_sum = all })
  live_sums m latest unsettled all (r ∷ rows) =
      let live = not r.is_settled && is_latest latest r.mikrotik_name r.id in
      let su =
        if live then live_shared_users m r.mikrotik_name r.shared_users else r.shared_users in
      let rest =
        live_sums m latest (if r.is_settled then unsettled else add_int unsettled su)
          (add_int all su) rows in
      (if live then write_back A r.id r.shared_users su else pure tt) >>= λ _. rest

  abbrev pub live_view :
      List RenewalSharedUsersRow
      → List RenewalRow
      → Exec (World A) (RenewalSummary × List RenewalRow)
  live_view rows items = do
    m ← mikrotik_shared_users_by_name A
    let latest = latest_unsettled_per_user rows
    summary ← live_sums m latest 0 0 rows
    pure (summary, live_items m latest items)

  -- The summary, and the items after the call.
  unfoldable pub apply_renewals_live_shared_users :
      RenewalFilter → List RenewalRow → Exec (World A) (RenewalSummary × List RenewalRow)
  unfolding live_sums live_items stored_sums latest_unsettled_per_user mikrotik_shared_users_by_name
  apply_renewals_live_shared_users filter items = do
    rows ← query A (A.store.list_renewal_shared_users_in_scope filter)
    if text_eq filter.settled (codes "settled")
        then pure (stored_sums 0 0 rows, items)
        else live_view rows items

  abbrev pub name_of_manager : Result Manager → Option Text
  name_of_manager (ok m) = some m.display_name
  name_of_manager (err e) = none

  abbrev pub renewals_answer :
      RenewalFilter → Bool → Option Text → ℕ → RenewalSummary × List RenewalRow → Handler A
  renewals_answer filter can_settle name total (summary, items) = answer A (
      renewals (record {
        orphan = filter.orphan_only;
        manager_id = filter.manager_id;
        manager_display_name = name;
        can_settle = can_settle;
        summary = summary;
        items = items;
        page = filter.page;
        page_size = filter.page_size;
        total = total;
      }))

  abbrev pub scope_of :
      RenewalFilter → Option ℕ → Bool → ℕ → RenewalSummary × List RenewalRow → Handler A
  scope_of filter none can_settle total out = renewals_answer filter can_settle none total out
  scope_of filter (some id) can_settle total out =
      tried A (query A (A.store.find_manager_by_id id))
        λ m. renewals_answer filter can_settle (name_of_manager m) total out

  abbrev pub with_live : RenewalFilter → Bool → List RenewalRow × ℕ × RenewalSummary → Handler A
  with_live filter can_settle (items, total, summary) =
      catch A (apply_renewals_live_shared_users filter items) (λ _. error 503 mikrotik_unavailable)
        (scope_of filter filter.manager_id can_settle total)

  unfoldable pub write_renewals : RenewalFilter → Bool → Handler A
  unfolding apply_renewals_live_shared_users
  write_renewals filter can_settle =
      catch A (query A (A.store.list_renewals filter)) (λ _. error 500 internal)
        (with_live filter can_settle)
