-- ===== src/Tests/Tables.antt =====
-- Runs of the statements on the tables.
use fast_bypass.Base.{ℕ, ◌+◌, ◌≡◌, refl, Text, codes, true, false, none, some, [], ◌∷◌, lt_int}
use fast_bypass.Result.{ok}
use fast_bypass.Store.{
  Manager, VpnUserMeta, ProfileActivation, RenewalThrough, Db, settle_through,
  find_activation_by_id, find_vpn_meta_by_id,
}
use fast_bypass.Store.Writes
use fast_bypass.Store.Writes.{run_write, IsLinked, run_write-IsLinked}
use fast_bypass.Store.Settle.{unsettled, settle_through_lem}

abbrev pub some_manager : Manager
some_manager = record {
  id = 1;
  username = codes "ali";
  password_hash = codes "hash";
  display_name = codes "Ali";
  slug = codes "ali";
  quota = 5;
  is_active = true;
  cert_title = none;
  cert_key_pass = none;
  created_at = codes "2024-01-01";
  updated_at = codes "2024-01-01";
}

abbrev pub some_meta : VpnUserMeta
some_meta = record {
  id = 1;
  mikrotik_name = codes "ali-x";
  manager_id = some 1;
  contact_info = none;
  notes = none;
  cert_title = none;
  cert_key_pass = none;
  created_at = codes "2024-01-01";
  updated_at = codes "2024-01-01";
}

abbrev pub activation : ℕ → Text → ProfileActivation
activation id created = record {
  id = id;
  vpn_user_meta_id = 1;
  profile_name = codes "p";
  shared_users = 2;
  amount_paid = none;
  currency = codes "IRR";
  paid_at = none;
  note = none;
  mikrotik_end_time = none;
  is_settled = false;
  settled_at = none;
  settled_by_admin_id = none;
  created_at = created;
}

abbrev pub some_db : Db
some_db = record {
  panel_admins =
      record { id = 1; username = codes "root"; password_hash = []; is_active = true } ∷ [];
  managers = some_manager ∷ [];
  vpn_user_meta = some_meta ∷ [];
  profile_activations =
      activation 1 (codes "2024-01-01")
      ∷ activation 2 (codes "2024-02-01")
      ∷ activation 3 (codes "2024-03-01")
      ∷ [];
  next_admin = 2;
  next_manager = 2;
  next_meta = 2;
  next_activation = 4;
  now = codes "2024-04-01";
}

abbrev pub through_two : RenewalThrough
through_two = record { activation_id = 2; manager_id = some 1; orphan_only = false }

settle_through_run : (settle_through 1 through_two some_db).0 ≡ ok 2
unfolding settle_through find_activation_by_id find_vpn_meta_by_id lt_int
settle_through_run = refl

abbrev pub settled_db : Db
settled_db = (settle_through 1 through_two some_db).1

pub settle_through_both : settle_through 1 through_two some_db ≡ (ok 2, settled_db)
unfolding settle_through find_activation_by_id find_vpn_meta_by_id lt_int
settle_through_both = refl

settle_through_lem_example :
    (unsettled settled_db.profile_activations + 2 ≡ unsettled some_db.profile_activations)
    × (settled_db.vpn_user_meta ≡ some_db.vpn_user_meta)
    × (settle_through 1 through_two settled_db ≡ (ok 0, settled_db))
settle_through_lem_example = settle_through_lem 1 through_two some_db settled_db settle_through_both

some_db-IsLinked : IsLinked some_db
some_db-IsLinked = (refl, (refl, (refl, tt)))

run_write-IsLinked_example : IsLinked (run_write (Writes.Write.delete_vpn_meta 1) some_db)
run_write-IsLinked_example =
    run_write-IsLinked (Writes.Write.delete_vpn_meta 1) some_db some_db-IsLinked
