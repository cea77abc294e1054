-- ===== src/Tests/Rules.antt =====
-- Runs of the rules on owners, quotas, passwords and script texts.
use fast_bypass.App.Pages.{page_window}
use fast_bypass.App.{ListRow, slice}
use fast_bypass.Password.{
  generate_cert_key_pass, random_from_charset, rand_int, cert_key_chars, every,
}
use fast_bypass.App.Pages.Window.{slice-page_window, page_window_negative}
use fast_bypass.Base.{
  text_eq, trim_space, if◌then◌else◌, mul_int, sub_int, int_half, ℕ, ◌≡◌, refl, ◌↔◌, inl, inr, Text,
  codes, true, false, none, some, List, [], ◌∷◌, arith, ◌+◌, ◌-◌, ◌≤◌, ◌≢◌, length, drop, lt_int,
  trim_space, add_int,
}
use fast_bypass.Result.{Result, ok}
use fast_bypass.Owner.{
  ManagerInfo, Registry, panel_comment, comment_matches_panel, find_by_name, find_by_comment,
  resolve, owner_mismatch, slug_overlaps,
}
use fast_bypass.Owner.Comment.{comment_matches_panel-eq, mem_text, fields}
use fast_bypass.Owner.Resolve.{HasIds, Unclaimed, resolve-eq-zero, owner_mismatch_iff}
use fast_bypass.Owner.Slugs.{IsSeparated, resolve-Elem}
use fast_bypass.Password.{
  generate_vpn, generate_cert_key_pass, valid_vpn, every, vpn_gen_chars, cert_key_chars,
  random_vpn_candidate, random_from_charset, rand_int, generate_vpn_loop,
}
use fast_bypass.Password.Generate.{mem_byte, generate_vpn_lem, generate_cert_key_pass_total}
use fast_bypass.Mikrotik.{User, UserProfile}
use fast_bypass.Config.{load, load-port, mikrotik_api_from_env, env, env_int, atoi}
use fast_bypass.Quota.{
  TimeFormats, Aggregate, aggregate_by_owner, aggregate_from, used_for_manager, check_add,
  check_increase, count_user, profile_active, user_has_active_profile,
}
use fast_bypass.Quota.Check.{check_add_iff, check_increase_iff, check_increase_wraps}
use fast_bypass.Quota.Totals.{connections_of, profiles_fn, used_for_manager-aggregate_by_owner}

abbrev ali : ManagerInfo
ali = record { id = 1; slug = codes "ali" }

abbrev sara : ManagerInfo
sara = record { id = 2; slug = codes "sara" }

abbrev two_managers : Registry
two_managers = record { separator = codes "-"; managers = ali ∷ sara ∷ [] }

two_managers-HasIds : HasIds two_managers.managers
two_managers-HasIds = ((λ e. omega (arith, e)), ((λ e. omega (arith, e)), tt))

two_managers-IsSeparated : IsSeparated two_managers.managers
unfolding slug_overlaps lt_int
two_managers-IsSeparated = (refl, (refl, tt))

comment_matches_panel-eq_example :
    comment_matches_panel two_managers (codes "x|panel=ali|y") ali
    ≡ mem_text (panel_comment two_managers ali) (fields (codes "x|panel=ali|y"))
comment_matches_panel-eq_example =
    comment_matches_panel-eq two_managers (codes "x|panel=ali|y") ali refl

comment_matches_panel_run : comment_matches_panel two_managers (codes "panel=alice") ali ≡ false
unfolding comment_matches_panel panel_comment
comment_matches_panel_run = refl

resolve-eq-zero_example :
    (resolve two_managers (codes "bob") (codes "free") ≡ 0)
    ↔ Unclaimed two_managers (codes "bob") (codes "free") two_managers.managers
resolve-eq-zero_example =
    resolve-eq-zero two_managers (codes "bob") (codes "free") two_managers-HasIds

owner_mismatch_iff_example :
    (owner_mismatch two_managers
        (codes "ali-x")
        (codes "panel=sara")
        (resolve two_managers (codes "ali-x") (codes "panel=sara"))
      ≡ true)
    ↔ ((a : ℕ) × (b : ℕ) × (find_by_name two_managers (codes "ali-x") two_managers.managers
          ≡ some a)
        × (find_by_comment two_managers (codes "panel=sara") two_managers.managers ≡ some b)
        × (a ≢ b))
owner_mismatch_iff_example =
    owner_mismatch_iff two_managers (codes "ali-x") (codes "panel=sara") two_managers-HasIds

owner_mismatch_run : owner_mismatch two_managers (codes "ali-x") (codes "panel=sara") 1 ≡ true
unfolding owner_mismatch find_by_name find_by_comment comment_matches_panel panel_comment
owner_mismatch_run = refl

resolve-Elem_example : resolve two_managers (codes "sara-7") (codes "panel=ali") ≡ 2
resolve-Elem_example =
    resolve-Elem two_managers (codes "sara-7") (codes "panel=ali") sara two_managers-IsSeparated
      (inr (inl refl)) refl

no_overlap : slug_overlaps sara.slug (record { id = 1; slug = codes "ali" } ∷ []) 0 ≡ false
unfolding slug_overlaps lt_int
no_overlap = refl

one_IsSeparated : IsSeparated (ali ∷ [])
unfolding slug_overlaps lt_int
one_IsSeparated = (refl, tt)

generate_vpn_run : generate_vpn (1 ∷ 2 ∷ 3 ∷ 4 ∷ 5 ∷ 6 ∷ 7 ∷ 50 ∷ []) ≡ (ok (codes "bcdefgh4"), [])
unfolding generate_vpn generate_vpn_loop random_vpn_candidate random_from_charset rand_int
    vpn_gen_chars valid_vpn
generate_vpn_run = refl

generate_vpn_lem_example :
    (length (codes "bcdefgh4") ≡ 8)
    × (every (mem_byte vpn_gen_chars) (codes "bcdefgh4") ≡ true)
    × (valid_vpn (codes "bcdefgh4") ≡ true)
generate_vpn_lem_example =
    generate_vpn_lem (1 ∷ 2 ∷ 3 ∷ 4 ∷ 5 ∷ 6 ∷ 7 ∷ 50 ∷ []) [] generate_vpn_run

abbrev ten : List ℕ
ten = 1 ∷ 2 ∷ 3 ∷ 4 ∷ 5 ∷ 6 ∷ 7 ∷ 8 ∷ 9 ∷ 10 ∷ []

generate_cert_key_pass_total_example :
    (pw : Text) × (generate_cert_key_pass ten ≡ (ok pw, drop 10 ten))
    × (length pw ≡ 10)
    × (every (mem_byte cert_key_chars) pw ≡ true)
generate_cert_key_pass_total_example = generate_cert_key_pass_total ten (omega arith)

abbrev generated : Text
generated = codes "bcdefghijk"

-- An environment that names a port and nothing else.
abbrev port_only : Text → Text
port_only k = if text_eq k (codes "MIKROTIK_PORT") then codes "8728" else []

load-port_example :
    ((load port_only (λ d. none)).mikrotik_use_tls ≡ false)
    × ((load port_only (λ d. none)).mikrotik_port ≡ 8728)
unfolding load mikrotik_api_from_env env env_int atoi trim_space
load-port_example = load-port port_only (λ d. none)

check_add_iff_example : (check_add 3 5 2 ≡ true) ↔ (3 + 2 ≤ 5)
check_add_iff_example = check_add_iff 3 5 2 (omega arith) (omega arith)

check_increase_iff_example : (check_increase 5 5 2 1 ≡ true) ↔ (5 - 2 + 1 ≤ 5)
check_increase_iff_example =
    check_increase_iff 5 5 2 1 (omega arith) (omega arith) (omega arith) (omega arith)

check_increase_wraps_example : check_increase 10 5 2 0x7FFF_FFFF_FFFF_FFFF ≡ true
check_increase_wraps_example =
    check_increase_wraps 10 5 2 0x7FFF_FFFF_FFFF_FFFF (omega arith) (omega arith) (omega arith)
      (omega arith) (omega arith)

abbrev dates : TimeFormats
dates = record { parse_rfc3339 = λ s. none; parse_datetime = λ s. none }

abbrev user : Text → ℕ → User
user name shared = record {
  id = codes "*1";
  name = name;
  password = codes "secret12";
  shared_users = shared;
  comment = [];
  disabled = false;
}

abbrev active_row : UserProfile
active_row = record {
  id = codes "*p1";
  user = codes "ali-x";
  profile = codes "p";
  state = codes "running-active";
  end_time = [];
}

abbrev always_active : Text → Result (List UserProfile)
always_active name = ok (active_row ∷ [])

abbrev three_users : List User
three_users = user (codes "ali-x") 2 ∷ user (codes "bob") 1 ∷ user (codes "ali-y") 3 ∷ []

abbrev statistics : Aggregate
statistics = record {
  total = record { vpn_users = 3; connections = 6 };
  orphan = record { vpn_users = 1; connections = 1 };
  by_manager = (1, record { vpn_users = 2; connections = 5 }) ∷ [];
}

aggregate_by_owner_run :
    aggregate_by_owner dates two_managers
      (profiles_fn dates two_managers always_active 0)
      0
      three_users
      tt
    ≡ (ok statistics, tt)
unfolding aggregate_by_owner aggregate_from count_user resolve find_by_name find_by_comment
    comment_matches_panel panel_comment profile_active user_has_active_profile trim_space add_int
aggregate_by_owner_run = refl

used_for_manager-aggregate_by_owner_example :
    used_for_manager dates two_managers
      (profiles_fn dates two_managers always_active 0)
      0
      1
      three_users
      tt
    ≡ (ok (connections_of 1 statistics), tt)
used_for_manager-aggregate_by_owner_example =
    used_for_manager-aggregate_by_owner dates two_managers always_active 0 1 statistics three_users
      tt aggregate_by_owner_run

abbrev row : Text → ListRow
row name = record {
  user = record {
    id = [];
    name = name;
    password = [];
    shared_users = 1;
    comment = [];
    disabled = false;
  };
  owner = (none, false);
  profiles = [];
}

abbrev three_rows : List ListRow
three_rows = row (codes "a") ∷ row (codes "b") ∷ row (codes "c") ∷ []

slice-page_window_example : slice (page_window 3 2 2) three_rows ≡ some (row (codes "c") ∷ [])
slice-page_window_example =
    slice-page_window three_rows 2 2 (omega arith) (omega arith) (omega arith) (omega arith)

-- The page 2 ^ 62 + 1 of pages of two.
abbrev far_page : ℕ
far_page = 0x4000_0000_0000_0001

far_start : int_half ≤ mul_int (sub_int far_page 1) 2
unfolding mul_int sub_int
far_start = omega arith

page_window_negative_example :
    ((page_window 45 far_page 2).0 ≡ mul_int (sub_int far_page 1) 2)
    × (lt_int (page_window 45 far_page 2).0 0 ≡ true)
page_window_negative_example = page_window_negative 45 far_page 2 far_start (omega arith)
