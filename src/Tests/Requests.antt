-- ===== src/Tests/Requests.antt =====
-- Runs of the handlers, over the tables and the cache before the client in memory.
use fast_bypass.Base.{ℕ, ◌≡◌, refl, Text, codes, true, false, none, some, [], ◌∷◌, ◌==◌, text_key}
use fast_bypass.Result.{ok, err, no_rows}
use fast_bypass.Owner.{Registry, build_registry, resolve, find_by_name}
use fast_bypass.Mikrotik.{User, Client}
use fast_bypass.Mikrotik.Cache
use fast_bypass.Mikrotik.Fake
use fast_bypass.Store.{sql_store, list_managers, find_vpn_meta_by_name, find_vpn_meta_by_id}
use fast_bypass.Password.{letter, digit}
use fast_bypass.Auth.{Claims, manager}
use fast_bypass.Tests.Tokens.{plain_bcrypt, list_jwt, issuer}
use fast_bypass.Config.{Config, load}
use fast_bypass.App.{
  App, World, registry, PatchVpnReq, AssignProfileReq, Response, error, not_owner_code,
}
use fast_bypass.App.Handlers.{
  handle_get_vpn_user_by_name, handle_patch_vpn_user_by_name, handle_assign_profile_by_name,
  handle_delete_vpn_user_by_name, handle_connection_bundle_by_name, handle_download_ovpn_by_name,
  handle_remove_profile_by_name, handle_patch_vpn_user, handle_assign_profile,
  handle_delete_vpn_user, handle_connection_bundle, handle_download_ovpn, handle_remove_profile,
}
use fast_bypass.App.Handlers.RowOwnership.{foreign_row-RowRefused}
use fast_bypass.App.Handlers.Ownership.{
  foreign_user-Refused, foreign_patch-Refused, patch_by_name_ignores_owner,
}
use fast_bypass.Tests.Tables.{some_db, some_meta}

abbrev pub one_byte : ℕ → Text
one_byte n = n ∷ []

abbrev pub router : Client
router = Fake.fake_client one_byte one_byte

abbrev settings : Config
settings = record (load (λ k. []) (λ d. none)) {
  default_profile = codes "profile-open-2M-30d";
  username_prefix_sep = codes "-";
  username_local_max_len = 20;
  shared_users_max = 10;
  openvpn_download_url = [];
  openvpn_key_password = codes "key";
  l2tp_ipsec_secret = [];
  l2tp_server = codes "vpn.example";
  mikrotik_cert_script = codes "gen";
  admin_username = codes "root";
  admin_password = codes "secret123";
}

abbrev pub panel : App
panel = record {
  cfg = settings;
  store = sql_store;
  mt = Cache.cached_client router 60;
  refresh_list_users = Cache.refresh_list_users router 60;
  times = record { parse_rfc3339 = λ s. none; parse_datetime = λ s. none };
  now = 0;
  ovpn_template = ok (codes "{{username}}");
  unicode = record { runes = λ s. s; is_letter = letter; is_digit = digit };
  bcrypt = plain_bcrypt;
  jwt = list_jwt;
  auth = issuer;
}

abbrev ali_user : User
ali_user = record {
  id = codes "*1";
  name = codes "ali-x";
  password = codes "secret12";
  shared_users = 2;
  comment = codes "panel=ali";
  disabled = false;
}

abbrev pub fake_state : Fake.FakeClient
fake_state = record {
  users = (codes "ali-x", ali_user) ∷ [];
  profiles = [];
  certs = [];
  files = [];
  next_id = 2;
  profiles_defined = (codes "profile-open-2M-30d", true) ∷ [];
}

abbrev pub cache_state : Cache.CachedClient router 60
cache_state = record {
  inner = fake_state;
  now = 100;
  users_at = 0;
  users = [];
  profiles_at = 0;
  profiles = [];
}

-- The router after `GetUser`.
abbrev after_read : Cache.CachedClient router 60
after_read = record cache_state { users = ali_user ∷ []; users_at = 100 }

abbrev pub with_row : World panel
with_row = record { db = some_db; router = cache_state; random = [] }

abbrev without_row : World panel
without_row = record {
  db = record some_db { vpn_user_meta = [] };
  router = cache_state;
  random = [];
}

abbrev known_registry : Registry
known_registry = record {
  separator = codes "-";
  managers = record { id = 1; slug = codes "ali" } ∷ [];
}

-- Claims of a manager who does not own the user.
abbrev stranger : Claims
stranger = record {
  role = manager;
  manager_id = 2;
  slug = codes "sara";
  username = codes "sara";
  token_type = codes "access";
  subject = [];
  expires_at = none;
  issued_at = none;
}

abbrev owner_claims : Claims
owner_claims = record {
  role = manager;
  manager_id = 1;
  slug = codes "ali";
  username = codes "ali";
  token_type = codes "access";
  subject = [];
  expires_at = none;
  issued_at = none;
}

registry_run : registry panel with_row ≡ (ok known_registry, with_row)
unfolding registry build_registry list_managers
registry_run = refl

registry_run_without : registry panel without_row ≡ (ok known_registry, without_row)
unfolding registry build_registry list_managers
registry_run_without = refl

fetched_run : panel.mt.get_user (codes "ali-x") cache_state ≡ (ok ali_user, after_read)
unfolding Cache.get_user Cache.list_users Cache.find_user Fake.list_users
fetched_run = refl

foreign_run : (resolve known_registry ali_user.name ali_user.comment == 2) ≡ false
unfolding resolve find_by_name
foreign_run = refl

row_run : find_vpn_meta_by_name (codes "ali-x") some_db ≡ ok some_meta
unfolding find_vpn_meta_by_name
row_run = refl

no_row_run : find_vpn_meta_by_name (codes "ali-x") without_row.db ≡ err no_rows
unfolding find_vpn_meta_by_name
no_row_run = refl

abbrev refusal : World panel → Response × World panel
refusal w = (error 403 not_owner_code, record w { router = after_read })

foreign_user-Refused_example :
    (handle_get_vpn_user_by_name panel (some stranger) (codes "ali-x") with_row ≡ refusal with_row)
    × (handle_delete_vpn_user_by_name panel (some stranger) (codes "ali-x") with_row
        ≡ refusal with_row)
    × (handle_connection_bundle_by_name panel (some stranger) (codes "ali-x") with_row
        ≡ refusal with_row)
    × (handle_download_ovpn_by_name panel (some stranger) (codes "ali-x") with_row
        ≡ refusal with_row)
    × (handle_remove_profile_by_name panel (some stranger) (codes "ali-x") (codes "*p1") with_row
        ≡ refusal with_row)
foreign_user-Refused_example =
    foreign_user-Refused panel stranger with_row refl registry_run (codes "ali-x") fetched_run
      foreign_run (codes "*p1")

abbrev empty_patch : PatchVpnReq
empty_patch = record {
  password = none;
  shared_users = some 4;
  disabled = none;
  contact_info = none;
  notes = none;
}

abbrev assignment : AssignProfileReq
assignment = record {
  profile_name = codes "profile-open-2M-30d";
  amount_paid = none;
  currency = none;
  paid_at = none;
  note = none;
}

foreign_patch-Refused_example :
    (handle_patch_vpn_user_by_name panel
        (some stranger)
        (codes "ali-x")
        (some empty_patch)
        without_row
      ≡ refusal without_row)
    × (handle_assign_profile_by_name panel
          (some stranger)
          (codes "ali-x")
          (some assignment)
          without_row
        ≡ refusal without_row)
foreign_patch-Refused_example =
    foreign_patch-Refused panel stranger without_row refl registry_run_without (codes "ali-x")
      fetched_run foreign_run no_row_run (some empty_patch) (some assignment)

patch_by_name_ignores_owner_example :
    (handle_patch_vpn_user_by_name panel (some stranger) (codes "ali-x") (some empty_patch) with_row
      ≡ handle_patch_vpn_user_by_name panel
          (some owner_claims)
          (codes "ali-x")
          (some empty_patch)
          with_row)
    × (handle_assign_profile_by_name panel
          (some stranger)
          (codes "ali-x")
          (some assignment)
          with_row
        ≡ handle_assign_profile_by_name panel
            (some owner_claims)
            (codes "ali-x")
            (some assignment)
            with_row)
patch_by_name_ignores_owner_example =
    patch_by_name_ignores_owner panel stranger owner_claims with_row refl refl registry_run
      (codes "ali-x") row_run (some empty_patch) (some assignment)

meta_run : find_vpn_meta_by_id 1 some_db ≡ ok some_meta
unfolding find_vpn_meta_by_id
meta_run = refl

foreign_row-RowRefused_example :
    (handle_patch_vpn_user panel (some stranger) (some 1) (some empty_patch) with_row
      ≡ refusal with_row)
    × (handle_assign_profile panel (some stranger) (some 1) (some assignment) with_row
        ≡ refusal with_row)
    × (handle_delete_vpn_user panel (some stranger) (some 1) with_row ≡ refusal with_row)
    × (handle_connection_bundle panel (some stranger) (some 1) with_row ≡ refusal with_row)
    × (handle_download_ovpn panel (some stranger) (some 1) with_row ≡ refusal with_row)
    × (handle_remove_profile panel (some stranger) (some 1) (codes "*p1") with_row
        ≡ refusal with_row)
foreign_row-RowRefused_example =
    foreign_row-RowRefused panel stranger with_row refl registry_run 1 meta_run fetched_run
      foreign_run (some empty_patch) (some assignment) (codes "*p1")
