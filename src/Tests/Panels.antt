-- ===== src/Tests/Panels.antt =====
-- Runs of the renewals, and of requests one after the other.
use fast_bypass.Base.{
  ◌++◌, length, none, inl, inr, trim_space, ℕ, ◌≡◌, ◌*◌, refl, Text, codes, take, true, some, List,
  [], ◌∷◌, Bool, arith, lt_int,
}
use fast_bypass.Result.{ok}
use fast_bypass.Owner.{slug_overlaps, resolve, find_by_name, build_registry}
use fast_bypass.Mikrotik.Cache
use fast_bypass.Mikrotik.Fake
use fast_bypass.Quota.{used_for_manager, user_has_active_profile}
use fast_bypass.Store.{
  list_managers, find_vpn_meta_by_name, delete_vpn_meta, update_manager, find_manager_by_id,
  RenewalFilter, RenewalSummary, RenewalRow, ProfileActivation, list_renewals, in_scope_rows,
  renewal_rows, Joined, matching_rows, renewal_where, like, create_manager, list_manager_slugs,
  sum_all, settle_through, find_activation_by_id, find_vpn_meta_by_id,
}
use fast_bypass.Store.Renewals.Pages.{first_pages, first_pages_lem}
use fast_bypass.Store.Renewals.Order.{IsReordered}
use fast_bypass.App.{
  registry, manager_used_quota, assert_manager_owner, delete_vpn_by_name, on_tables, World,
  apply_renewals_live_shared_users,
}
use fast_bypass.App.Keeps.Slugs.{IsSlugSeparated}
use fast_bypass.App.Renewals.Sums.{settled_renewals-list_renewals}
use fast_bypass.App.Handlers.{
  RenewalsQuery, CreateManagerReq, admin_filter, claims_of, handle_create_manager, handle_patch_me,
  handle_me, handle_delete_vpn_user_by_name,
}
use fast_bypass.App.Handlers.Settlement.{AllRows, IsLater, settle_through-IsLater}
use fast_bypass.Server.{
  Request, Private, Restricted, private, restricted, serve, middleware, require_admin,
}
use fast_bypass.Server.Links.{serve_all, serve_all-IsSlugSeparated}
use fast_bypass.Server.Accounts.{serve_all-HasSameAccounts}
use fast_bypass.App.Keeps.Accounting.{HasSameAccounts}
use fast_bypass.Auth.{Claims, admin, manager, bearer_claims, parse}
use fast_bypass.Tests.Sessions.{pair_at}
use fast_bypass.Password.{hash, valid_panel}
use fast_bypass.Tests.Tables.{some_db, some_meta, activation, settled_db, settle_through_both}
use fast_bypass.App.Pages.{parse_page, parse_page_size}
use fast_bypass.Tests.Requests.{panel, with_row}

-- The header with an access token of these claims.
abbrev header_of : Claims → Text
header_of c = codes "Bearer " ++ (pair_at c 0).access_token

abbrev new_sara : Text → CreateManagerReq
new_sara slug = record {
  username = slug;
  password = codes "secret12";
  display_name = codes "Sara";
  slug = slug;
  quota = 3;
  cert_title = none;
}

-- An admin creates a manager, and then one whose slug overlaps, which is refused.
abbrev creations : List (Bool × Request)
creations =
    (
      true,
      record {
        authorization = header_of (claims_of admin 0 [] (codes "root"));
        route = restricted (Restricted.create_manager (some (new_sara (codes "sara"))));
      },
    )
    ∷ (
      true,
      record {
        authorization = header_of (claims_of admin 0 [] (codes "root"));
        route = restricted (Restricted.create_manager (some (new_sara (codes "sar"))));
      },
    )
    ∷ []

abbrev with_draws : World panel
with_draws = record with_row { random = 7 ∷ 8 ∷ [] }

creations_run : length (serve_all (on_tables panel) creations with_draws).db.managers ≡ 2
unfolding serve middleware require_admin handle_create_manager create_manager list_manager_slugs
    slug_overlaps lt_int hash valid_panel trim_space bearer_claims parse
creations_run = refl

serve_all-IsSlugSeparated_example :
    IsSlugSeparated (serve_all (on_tables panel) creations with_draws).db
unfolding slug_overlaps
serve_all-IsSlugSeparated_example = serve_all-IsSlugSeparated panel creations with_draws (refl, tt)

-- A manager changes his display name, tries to change his quota, and deletes his user.
abbrev own_requests : List (Bool × Request)
own_requests =
    (
      true,
      record {
        authorization = header_of (claims_of manager 1 (codes "ali") (codes "ali"));
        route = private (
            Private.patch_me (
              some (record {
                keys = codes "display_name" ∷ [];
                display_name = some (codes "Ali B");
              })));
      },
    )
    ∷ (
      true,
      record {
        authorization = header_of (claims_of manager 1 (codes "ali") (codes "ali"));
        route = restricted (
            Restricted.patch_manager 1 (
              some (record {
                username = none;
                display_name = none;
                quota = some 100;
                is_active = none;
                password = none;
                cert_title = none;
              })));
      },
    )
    ∷ (
      true,
      record {
        authorization = header_of (claims_of manager 1 (codes "ali") (codes "ali"));
        route = private (Private.delete_by_name (codes "ali-x"));
      },
    )
    ∷ []

-- The user is gone, so the requests got to their handlers.
own_run : (serve_all (on_tables panel) own_requests with_row).db.vpn_user_meta ≡ []
unfolding serve middleware require_admin bearer_claims parse handle_patch_me update_manager lt_int
    find_manager_by_id handle_delete_vpn_user_by_name handle_me registry list_managers
    Cache.get_user manager_used_quota Fake.list_users used_for_manager resolve find_by_name
    build_registry Cache.list_user_profiles Fake.list_user_profiles user_has_active_profile
    assert_manager_owner delete_vpn_by_name find_vpn_meta_by_name delete_vpn_meta
own_run = refl

serve_all-HasSameAccounts_example :
    HasSameAccounts some_db (serve_all (on_tables panel) own_requests with_row).db
unfolding bearer_claims
serve_all-HasSameAccounts_example =
    serve_all-HasSameAccounts panel own_requests with_row (refl, tt) (refl, (refl, (refl, tt)))

abbrev query_of : Text → RenewalsQuery
query_of settled = record {
  settled = settled;
  from = [];
  to = [];
  q = [];
  page = 1;
  page_size = 20;
  manager_id = some 1;
}

abbrev filter_of : Text → RenewalFilter
filter_of settled = admin_filter (query_of settled)

abbrev settled_world : World panel
settled_world = record with_row { db = settled_db }

settled_sum_run : sum_all (in_scope_rows (filter_of (codes "settled")) settled_db) ≡ 4
unfolding in_scope_rows settle_through find_activation_by_id find_vpn_meta_by_id lt_int parse_page
    parse_page_size
settled_sum_run = refl

settled_renewals-list_renewals_example :
    (out : List RenewalRow × ℕ × RenewalSummary) × (list_renewals
        (filter_of (codes "settled"))
        settled_db
      ≡ ok out)
    × (apply_renewals_live_shared_users panel (filter_of (codes "settled")) [] settled_world
        ≡ (ok (out.2, []), settled_world))
settled_renewals-list_renewals_example =
    settled_renewals-list_renewals panel (filter_of (codes "settled")) [] settled_world refl
      (omega (arith, settled_sum_run))

abbrev all_rows : List Joined
all_rows =
    (activation 3 (codes "2024-03-01"), some_meta)
    ∷ (activation 2 (codes "2024-02-01"), some_meta)
    ∷ (activation 1 (codes "2024-01-01"), some_meta)
    ∷ []

matching_run :
    matching_rows (filter_of (codes "all")) some_db
    ≡ (activation 1 (codes "2024-01-01"), some_meta)
      ∷ (activation 2 (codes "2024-02-01"), some_meta)
      ∷ (activation 3 (codes "2024-03-01"), some_meta)
      ∷ []
unfolding renewal_where like parse_page parse_page_size lt_int
matching_run = refl

all-IsReordered : IsReordered (matching_rows (filter_of (codes "all")) some_db) all_rows
all-IsReordered = rw matching_run (
  _,
  inr (_, refl, inr (_, refl, inl (refl, refl))),
  (_, inr (_, refl, inl (refl, refl)), (_, inl (refl, refl), refl)),
)

first_pages_lem_example :
    first_pages (filter_of (codes "all")) 2 some_db 2
    ≡ renewal_rows some_db.managers (take (2 * 2) all_rows)
first_pages_lem_example =
    first_pages_lem (filter_of (codes "all")) 2 some_db 2 all_rows all-IsReordered
      ((refl, (refl, tt)), ((refl, tt), (tt, tt))) (omega arith) (omega arith) (omega arith)

settle_through-IsLater_example :
    (act : ProfileActivation) × (find_activation_by_id 2 some_db ≡ ok act)
    × AllRows (λ r. IsLater act r.0) (in_scope_rows (filter_of []) settled_db)
settle_through-IsLater_example =
    settle_through-IsLater 1 2 (query_of []) some_db settled_db refl refl settle_through_both
