-- ===== src/Tests/Managers.antt =====
-- Runs of the handlers of managers.
use fast_bypass.Base.{
  ◌≡◌, refl, codes, trim_space, is_empty, true, false, some, none, [], ◌∷◌, lt_int, add_int,
}
use fast_bypass.Result.{ok}
use fast_bypass.Password.{hash, valid_panel, valid_cert_title}
use fast_bypass.Owner.{slug_overlaps, build_registry, resolve, find_by_name}
use fast_bypass.Store.{
  Db, list_managers, Manager, create_manager, find_manager_by_id, clear_manager_cert,
}
use fast_bypass.App.{
  on_tables, World, error, validation, slug_overlaps_code, quota_below_usage, manager_used_quota,
  registry,
}
use fast_bypass.App.Handlers.{
  CreateManagerReq, PatchManagerReq, new_manager, handle_create_manager, handle_patch_manager,
  handle_patch_manager,
}
use fast_bypass.App.Handlers.Refusals.{create_manager-bad_title, patch_manager-below_usage}
use fast_bypass.App.Handlers.Unchanged.{patch_manager-unchanged}
use fast_bypass.Tests.Tables.{some_db, some_manager}
use fast_bypass.Mikrotik.Cache
use fast_bypass.Mikrotik.Fake
use fast_bypass.Quota.{used_for_manager, used_from, user_has_active_profile, profile_active}
use fast_bypass.Tests.Requests.{panel, with_row, cache_state, fake_state}

abbrev sara_req : CreateManagerReq
sara_req = record {
  username = codes "sara";
  password = codes "secret12";
  display_name = codes "Sara";
  slug = codes "sara";
  quota = 3;
  cert_title = some (codes "a b");
}

abbrev db_with_sara : Db
db_with_sara = (create_manager (new_manager sara_req (codes "#secret12")) some_db).1

create_manager_run :
    create_manager (new_manager sara_req (codes "#secret12")) some_db ≡ (ok 2, db_with_sara)
unfolding create_manager lt_int
create_manager_run = refl

abbrev with_draw : World panel
with_draw = record with_row { random = 7 ∷ [] }

panel_run : valid_panel panel.unicode (codes "secret12") ≡ true
unfolding valid_panel
panel_run = refl

hash_run : hash panel.bcrypt (codes "secret12") (7 ∷ []) ≡ (ok (codes "#secret12"), 7 ∷ [])
unfolding hash
hash_run = refl

quota_run : lt_int 3 1 ≡ false
unfolding lt_int
quota_run = refl

title_run : valid_cert_title (trim_space (codes "a b")) ≡ false
unfolding valid_cert_title trim_space
title_run = refl

blank_run : is_empty (trim_space (codes "a b")) ≡ false
unfolding trim_space
blank_run = refl

apart_run : slug_overlaps (codes "sara") (record { id = 1; slug = codes "ali" } ∷ []) 0 ≡ false
unfolding slug_overlaps lt_int
apart_run = refl

create_manager-bad_title_example :
    (handle_create_manager (on_tables panel) (some sara_req) with_draw
      ≡ (error 400 validation, record with_draw { db = db_with_sara }))
    × (handle_create_manager
          (on_tables panel)
          (some sara_req)
          (record with_draw { db = db_with_sara })
        ≡ (error 409 slug_overlaps_code, record with_draw { db = db_with_sara }))
create_manager-bad_title_example =
    create_manager-bad_title panel sara_req sara_req with_draw (codes "a b") (codes "#secret12")
      (7 ∷ []) 2 db_with_sara panel_run quota_run apart_run hash_run create_manager_run refl
      blank_run title_run refl panel_run quota_run

abbrev smaller_quota : PatchManagerReq
smaller_quota = record {
  username = none;
  display_name = none;
  quota = some 1;
  is_active = none;
  password = none;
  cert_title = some (codes " ");
}

-- The user of the tests has an active profile here.
abbrev busy : World panel
busy = record with_row {
  router = record cache_state {
    inner = record fake_state {
      profiles =
          (
            codes "ali-x",
            record {
              id = codes "*p1";
              user = codes "ali-x";
              profile = codes "p";
              state = codes "active";
              end_time = [];
            }
                ∷ [],
          )
          ∷ [];
    };
  };
}

abbrev titled : Manager
titled = record some_manager {
  cert_title = some (codes "cert-1");
  cert_key_pass = some (codes "k");
}

abbrev busy_titled : World panel
busy_titled = record busy { db = record some_db { managers = titled ∷ [] } }

-- After the certificate has been taken away.
abbrev busy_untitled : World panel
busy_untitled = record busy_titled { db = (clear_manager_cert 1 busy_titled.db).1 }

abbrev counted : World panel
counted = (manager_used_quota panel 1 busy_untitled).1

found_run : find_manager_by_id 1 busy_titled.db ≡ ok titled
unfolding find_manager_by_id
found_run = refl

blank_title_run : trim_space (codes " ") ≡ []
unfolding trim_space
blank_title_run = refl

titled_run : is_empty (trim_space (codes "cert-1")) ≡ false
unfolding trim_space
titled_run = refl

used_run : manager_used_quota panel 1 busy_untitled ≡ (ok 2, counted)
unfolding manager_used_quota registry build_registry list_managers used_for_manager used_from
    resolve find_by_name user_has_active_profile profile_active add_int Cache.list_users
    Fake.list_users Cache.list_user_profiles Fake.list_user_profiles trim_space clear_manager_cert
used_run = refl

low_run : lt_int 1 2 ≡ true
unfolding lt_int
low_run = refl

patch_manager-below_usage_example :
    (handle_patch_manager panel 1 (some smaller_quota) busy_titled
      ≡ (error 409 quota_below_usage, counted))
    × (find_manager_by_id 1 counted.db
        ≡ ok (record titled {
          cert_title = none;
          cert_key_pass = none;
          updated_at = codes "2024-04-01";
        }))
patch_manager-below_usage_example =
    patch_manager-below_usage panel 1 smaller_quota titled busy_titled counted (codes " ") 1 2
      found_run refl blank_title_run titled_run refl refl used_run low_run

abbrev untitled : PatchManagerReq
untitled = record smaller_quota { cert_title = none }

abbrev refused : World panel
refused = (manager_used_quota panel 1 busy).1

refused_run :
    handle_patch_manager panel 1 (some untitled) busy ≡ (error 409 quota_below_usage, refused)
unfolding handle_patch_manager find_manager_by_id manager_used_quota registry build_registry
    list_managers used_for_manager used_from resolve find_by_name user_has_active_profile
    profile_active add_int Cache.list_users Fake.list_users Cache.list_user_profiles
    Fake.list_user_profiles trim_space lt_int
refused_run = refl

patch_manager-unchanged_example : refused.db ≡ busy.db
patch_manager-unchanged_example =
    patch_manager-unchanged panel 1 untitled busy refused 409 quota_below_usage refl refused_run
