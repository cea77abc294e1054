-- ===== src/Quota.antt =====
-- Active profiles and the concurrent connections that count against a quota
-- (backend/internal/quota/quota.go). An int is its 64-bit pattern.
pub mod Check
pub mod Totals
use fast_bypass.Base.{
  ℕ, Text, codes, contains, to_lower, trim_space, is_empty, Bool, true, false, ◌||◌, not, Option,
  none, some, List, [], ◌∷◌, ◌==◌, ltb, if◌then◌else◌, Dict, lookup, insert, nat_key, add_int,
  sub_int, le_int,
}
use fast_bypass.Result.{Exec, pure, ◌>>=◌}
use fast_bypass.Owner.{Registry, resolve}
use fast_bypass.Mikrotik.{User, UserProfile}

-- `time.Parse` with the two layouts of `ProfileActive`; a time is a number.
pub record TimeFormats : Type 0 where
  pub parse_rfc3339 : Text → Option ℕ
  pub parse_datetime : Text → Option ℕ

abbrev parse_end : TimeFormats → Text → Option ℕ
parse_end t s = elim (t.parse_rfc3339 s) [ some e ↦ some e | none ↦ t.parse_datetime s ]

unfoldable pub profile_active : TimeFormats → UserProfile → ℕ → Bool
profile_active t p now =
    if contains (to_lower (trim_space p.state)) (codes "active")
    then true
    else (if is_empty p.end_time
        then false
        else elim (parse_end t p.end_time) [ none ↦ false | some e ↦ ltb now e ])

-- `userHasActiveProfile`
unfoldable pub user_has_active_profile : TimeFormats → List UserProfile → ℕ → Bool
user_has_active_profile t [] now = false
user_has_active_profile t (p ∷ ps) now =
    if profile_active t p now then true else user_has_active_profile t ps now

pub record ScopeStats : Type 0 where
  pub vpn_users : ℕ
  pub connections : ℕ

abbrev pub no_stats : ScopeStats
no_stats = record { vpn_users = 0; connections = 0 }

-- `s.VPNUsers++; s.Connections += shared`
abbrev pub add_stats : ℕ → ScopeStats → ScopeStats
add_stats shared s = record {
  vpn_users = add_int s.vpn_users 1;
  connections = add_int s.connections shared;
}

-- The results of `AggregateByOwner`.
pub record Aggregate : Type 0 where
  pub total : ScopeStats
  pub orphan : ScopeStats
  pub by_manager : Dict ℕ ScopeStats

-- `m[id]` with the zero value where the key is missing.
abbrev pub stats_of : ℕ → Dict ℕ ScopeStats → ScopeStats
stats_of id d = elim (lookup id d) [ none ↦ no_stats | some s ↦ s ]

-- The end of the loop's body: one more active user of this owner.
unfoldable pub count_user : ℕ → ℕ → Aggregate → Aggregate
count_user owner shared a =
    if owner == 0
    then record a { total = add_stats shared a.total; orphan = add_stats shared a.orphan }
    else record a {
      total = add_stats shared a.total;
      by_manager = insert owner (add_stats shared (stats_of owner a.by_manager)) a.by_manager;
    }

module _ {S : Type 0} (t : TimeFormats) (reg : Registry)
    (profiles_fn : Text → Exec S (List UserProfile)) (now : ℕ) where
  -- The loop of `AggregateByOwner` over the users that are left.
  unfoldable pub aggregate_from : Aggregate → List User → Exec S Aggregate
  aggregate_from a [] = pure a
  aggregate_from a (u ∷ us) =
      let skip = aggregate_from a us in
      let counted =
        aggregate_from (count_user (resolve reg u.name u.comment) u.shared_users a) us in
      if u.disabled
      then skip
      else (profiles_fn u.name >>= λ profs.
          if user_has_active_profile t profs now then counted else skip)

  unfoldable pub aggregate_by_owner : List User → Exec S Aggregate
  unfolding aggregate_from
  aggregate_by_owner =
      aggregate_from (record { total = no_stats; orphan = no_stats; by_manager = [] })

  -- The loop of `UsedForManager` over the users that are left.
  unfoldable pub used_from : ℕ → ℕ → List User → Exec S ℕ
  used_from manager_id used [] = pure used
  used_from manager_id used (u ∷ us) =
      let skip = used_from manager_id used us in
      let counted = used_from manager_id (add_int used u.shared_users) us in
      if not (resolve reg u.name u.comment == manager_id) || u.disabled
      then skip
      else (profiles_fn u.name >>= λ profs.
          if user_has_active_profile t profs now then counted else skip)

  unfoldable pub used_for_manager : ℕ → List User → Exec S ℕ
  unfolding used_from
  used_for_manager manager_id = used_from manager_id 0

unfoldable pub check_add : ℕ → ℕ → ℕ → Bool
check_add used quota new_shared = le_int (add_int used new_shared) quota

unfoldable pub check_increase : ℕ → ℕ → ℕ → ℕ → Bool
check_increase used quota old_shared new_shared =
    le_int (add_int (sub_int used old_shared) new_shared) quota
