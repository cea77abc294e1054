-- ===== src/Quota/Totals.antt =====
-- The statistics of `AggregateByOwner` agree with `UsedForManager`.
use fast_bypass.Base.{
  ℕ, ◌≡◌, refl, Text, List, [], ◌∷◌, ◌==◌, if◌then◌else◌, Bool-cases, inl, inr, arith,
  lookup-insert, nat_key, add_int,
}
use fast_bypass.Result.{Exec, Result, ok}
use fast_bypass.Owner.{Registry, resolve}
use fast_bypass.Mikrotik.{User, UserProfile}
use fast_bypass.Quota.{
  TimeFormats, Aggregate, no_stats, stats_of, add_stats, count_user, aggregate_from,
  aggregate_by_owner, used_from, used_for_manager,
}

-- The connections of an owner: a manager's by his id, the orphans' by 0.
abbrev pub connections_of : ℕ → Aggregate → ℕ
connections_of id a =
    if id == 0 then a.orphan.connections else (stats_of id a.by_manager).connections

-- What the loop starts with.
abbrev start : Aggregate
start = record { total = no_stats; orphan = no_stats; by_manager = [] }

connections-count_user :
    (id owner shared : ℕ) (a : Aggregate)
    → connections_of id (count_user owner shared a)
      ≡ (if owner == id then add_int (connections_of id a) shared else connections_of id a)
unfolding count_user
connections-count_user id owner shared a =
    ground
      (arith, lookup-insert id owner (add_stats shared (stats_of owner a.by_manager)) a.by_manager)

module _ (t : TimeFormats) (reg : Registry) (f : Text → Result (List UserProfile)) (now : ℕ) where
  -- A lookup of profiles that changes nothing.
  abbrev pub profiles_fn : {S : Type 0} → Text → Exec S (List UserProfile)
  profiles_fn user s = (f user, s)

  used_from-aggregate_from :
      {S : Type 0} (id : ℕ) (a b : Aggregate) (us : List User) (s : S)
      → aggregate_from t reg profiles_fn now a us s ≡ (ok b, s)
      → used_from t reg profiles_fn now id (connections_of id a) us s
        ≡ (ok (connections_of id b), s)
  unfolding aggregate_from used_from
  used_from-aggregate_from id a b [] s h = cc
  used_from-aggregate_from id a b (u ∷ us) s h =
      let owner = resolve reg u.name u.comment in
      ground (
        arith,
        connections-count_user id owner u.shared_users a,
        used_from-aggregate_from id a b us s,
        used_from-aggregate_from id (count_user owner u.shared_users a) b us s,
      )

  connections_of-start : (id : ℕ) → connections_of id start ≡ 0
  connections_of-start id = elim (Bool-cases (id == 0)) [ inl t ↦ rw t refl | inr t ↦ rw t refl ]

  -- Where the profiles of a user are looked up without any effect and `AggregateByOwner` returns,
  -- `UsedForManager` returns for every manager the connections that the statistics have for his
  -- id, and for the id 0 those of the orphans.
  pub used_for_manager-aggregate_by_owner :
      {S : Type 0} (id : ℕ) (a : Aggregate) (us : List User) (s : S)
      → aggregate_by_owner t reg profiles_fn now us s ≡ (ok a, s)
      → used_for_manager t reg profiles_fn now id us s ≡ (ok (connections_of id a), s)
  unfolding aggregate_by_owner used_for_manager
  used_for_manager-aggregate_by_owner id a us s h =
      rw (connections_of-start id) at (used_from-aggregate_from id start a us s h)
