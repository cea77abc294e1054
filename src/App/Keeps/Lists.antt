-- ===== src/App/Keeps/Lists.antt =====
-- The handlers of the lists and the renewals keep what every statement that writes keeps.
use fast_bypass.Base.{ℕ, Text, Bool, false, Option, none, some, List, [], ◌∷◌, Dict, ◌&&◌, not}
use fast_bypass.Mikrotik.{User}
use fast_bypass.Owner.{Registry}
use fast_bypass.Quota.{user_has_active_profile}
use fast_bypass.App.Service.{enrich_owner}
use fast_bypass.Store.{RenewalFilter, RenewalSummary, RenewalRow, RenewalSharedUsersRow}
use fast_bypass.Auth.{Role, Claims, admin, manager}
use fast_bypass.App.State.{App}
use fast_bypass.App.Http.{Handler}
use fast_bypass.App.Lists.{
  ListQuery, ListRow, list_users, own_row, admin_row, profiles_of, manager_rows, admin_rows,
}
use fast_bypass.App.Renewals
use fast_bypass.App.Renewals.{apply_renewals_live_shared_users, live_sums, write_renewals}
use fast_bypass.App.Handlers
use fast_bypass.App.Handlers.{RenewalsQuery, SettleReq, CreateManagerReq, PatchManagerReq}
use fast_bypass.App.Keeps.{KeptByWrites, KeptByManagers, Keeps, Keeps-if, Keeps-bind, Keeps-pure}
use fast_bypass.App.Keeps.Users.{user_rules, enrich_owner-Keeps}

module _ {A : App} {Q : A.store.State → Type 0} (M : KeptByManagers A.store Q) where
  pub list_users-Keeps : (b : Bool) → Keeps A Q (list_users A b)
  unfolding list_users
  list_users-Keeps b = search user_rules

  profiles_of-Keeps : (u : User) → Keeps A Q (profiles_of A u)
  profiles_of-Keeps u = record { at = λ w h. h }

  manager_rows-Keeps :
      (reg : Registry) (id : ℕ) (lq : ListQuery) (us : List User)
      → Keeps A Q (manager_rows A reg id lq us)
  unfolding manager_rows
  manager_rows-Keeps reg id lq [] = search user_rules
  manager_rows-Keeps reg id lq (u ∷ us) =
      let ih = manager_rows-Keeps reg id lq us in
      Keeps-if (own_row reg id lq u) _ _
        (Keeps-bind (profiles_of A u) _ (profiles_of-Keeps u) λ profs.
          Keeps-if (lq.active_only && not (user_has_active_profile A.times profs A.now)) _ _ ih (
            Keeps-bind (manager_rows A reg id lq us) _ ih λ rows.
              Keeps-pure (record { user = u; owner = (none, false); profiles = profs } ∷ rows)))
        ih

  admin_rows-Keeps :
      (reg : Registry) (lq : ListQuery) (us : List User) → Keeps A Q (admin_rows A reg lq us)
  unfolding admin_rows
  admin_rows-Keeps reg lq [] = search user_rules
  admin_rows-Keeps reg lq (u ∷ us) =
      let ih = admin_rows-Keeps reg lq us in
      Keeps-if (admin_row reg lq u) _ _
        (Keeps-bind (enrich_owner A reg u.name u.comment) _
          (enrich_owner-Keeps M reg u.name u.comment)
          λ owner. Keeps-bind (profiles_of A u) _ (profiles_of-Keeps u) λ profs.
            Keeps-bind (admin_rows A reg lq us) _ ih
              λ rows. Keeps-pure (record { user = u; owner = owner; profiles = profs } ∷ rows))
        ih

  paged-Keeps :
      (b : Bool) (lq : ListQuery) (rows : List ListRow) → Keeps A Q (Handlers.paged A b lq rows)
  paged-Keeps b lq rows = record { at = λ w h. h }

  pub handle_list_vpn_users-Keeps :
      (c : Option Claims) (lq : ListQuery) → Keeps A Q (Handlers.handle_list_vpn_users A c lq)
  unfolding Handlers.handle_list_vpn_users
  handle_list_vpn_users-Keeps c lq =
      search (user_rules, list_users-Keeps, manager_rows-Keeps, paged-Keeps) depth 12

  pub handle_admin_list_vpn_users-Keeps :
      (lq : ListQuery) → Keeps A Q (Handlers.handle_admin_list_vpn_users A lq)
  unfolding Handlers.handle_admin_list_vpn_users
  handle_admin_list_vpn_users-Keeps lq =
      search (user_rules, list_users-Keeps, admin_rows-Keeps, paged-Keeps) depth 12

  live_sums-Keeps :
      (m latest : Dict Text ℕ) (u s : ℕ) (rows : List RenewalSharedUsersRow)
      → Keeps A Q (live_sums A m latest u s rows)
  unfolding live_sums
  live_sums-Keeps m latest u s [] = search user_rules
  live_sums-Keeps m latest u s (r ∷ rows) =
      let ih = λ (x y : ℕ). live_sums-Keeps m latest x y rows in search (user_rules, ih) depth 8

  apply_renewals-Keeps :
      (f : RenewalFilter) (items : List RenewalRow)
      → Keeps A Q (apply_renewals_live_shared_users A f items)
  unfolding apply_renewals_live_shared_users
  apply_renewals-Keeps f items = search (user_rules, live_sums-Keeps) depth 12

  scope_of-Keeps :
      (f : RenewalFilter) (id : Option ℕ) (b : Bool) (n : ℕ)
      (out : RenewalSummary × List RenewalRow)
      → Keeps A Q (Renewals.scope_of A f id b n out)
  scope_of-Keeps f none b n out = search user_rules
  scope_of-Keeps f (some id) b n out = search user_rules depth 8

  pub write_renewals-Keeps : (f : RenewalFilter) (b : Bool) → Keeps A Q (write_renewals A f b)
  unfolding write_renewals
  write_renewals-Keeps f b = search (user_rules, apply_renewals-Keeps, scope_of-Keeps) depth 12

  pub handle_manager_renewals-Keeps :
      (c : Option Claims) (q : RenewalsQuery) → Keeps A Q (Handlers.handle_manager_renewals A c q)
  unfolding Handlers.handle_manager_renewals
  handle_manager_renewals-Keeps c q = search (user_rules, write_renewals-Keeps) depth 8

  pub handle_admin_renewals-Keeps :
      (q : RenewalsQuery) → Keeps A Q (Handlers.handle_admin_renewals A q)
  unfolding Handlers.handle_admin_renewals
  handle_admin_renewals-Keeps q = search (user_rules, write_renewals-Keeps) depth 8

module _ {A : App} {Q : A.store.State → Type 0} (W : KeptByWrites A.store Q) where
  for_role_admin-Keeps :
      (r : Role) (c : Claims) (rest : Claims → Handler A)
      → ((c : Claims) → Keeps A Q (rest c))
      → Keeps A Q (Handlers.for_role_admin A r c rest)
  for_role_admin-Keeps admin c rest k = k c
  for_role_admin-Keeps manager c rest k = search user_rules

  for_admin-Keeps :
      (c : Option Claims) (rest : Claims → Handler A)
      → ((c : Claims) → Keeps A Q (rest c))
      → Keeps A Q (Handlers.for_admin A c rest)
  for_admin-Keeps none rest k = search user_rules
  for_admin-Keeps (some c) rest k = for_role_admin-Keeps c.role c rest k

  pub handle_settle_through-Keeps :
      (c : Option Claims) (body : Option SettleReq)
      → Keeps A Q (Handlers.handle_settle_through A c body)
  unfolding Handlers.handle_settle_through
  handle_settle_through-Keeps c body = search (user_rules, for_admin-Keeps) depth 12

pub ruleset list_rules = (
  handle_list_vpn_users-Keeps, handle_admin_list_vpn_users-Keeps, handle_manager_renewals-Keeps,
  handle_admin_renewals-Keeps, handle_settle_through-Keeps, list_users-Keeps,
)
