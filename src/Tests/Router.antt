-- ===== src/Tests/Router.antt =====
-- Runs of the cache before the client in memory.
use fast_bypass.Base.{
  length, lookup, text_key, false, ℕ, ◌+◌, ◌≡◌, refl, Text, codes, false, [], ◌∷◌, arith, text_key,
}
use fast_bypass.Result.{ok}
use fast_bypass.Mikrotik.{UserProfile, Client}
use fast_bypass.Mikrotik.Calls
use fast_bypass.Mikrotik.Calls.{Call, run_call}
use fast_bypass.Mikrotik.Cache
use fast_bypass.Mikrotik.Fake
use fast_bypass.Mikrotik.Cache.{CachedClient, new_cached, refresh_list_users}
use fast_bypass.Mikrotik.Cache.Transparent.{Trace, cached_replies, inner_replies, cached_replies-eq}
use fast_bypass.Mikrotik.Cache.Stale.{list_user_profiles_stale, refresh_list_users-eq}
use fast_bypass.Mikrotik.Fake.{or_empty, FakeClient, fake_client, new_fake}
use fast_bypass.Mikrotik.Fake.Active.{IsSingle, run_call-IsSingle}
use fast_bypass.Mikrotik.Fake.Steady.{IsKeyed, fake-IsSteady}

-- Ids and dates of one byte.
abbrev one_byte : ℕ → Text
one_byte n = n ∷ []

abbrev memory : Client
memory = fake_client one_byte one_byte

abbrev some_calls : Trace
some_calls =
    (0, Calls.add_user (codes "ali-x") (codes "secret12") [] 2 false)
    ∷ (5, Calls.list_users)
    ∷ (3, Calls.add_user_profile (codes "ali-x") (codes "profile-open-2M-30d"))
    ∷ (1, Calls.list_user_profiles (codes "ali-x"))
    ∷ (70, Calls.get_user (codes "ali-x"))
    ∷ (1, Calls.remove_user (codes "bob"))
    ∷ []

new_fake-IsKeyed : IsKeyed new_fake.users
unfolding new_fake
new_fake-IsKeyed = tt

cached_replies-eq_example :
    cached_replies memory 60 some_calls (new_cached memory 60 new_fake 1000)
    ≡ inner_replies memory some_calls new_fake
unfolding fake-IsSteady
cached_replies-eq_example =
    cached_replies-eq memory 60 (fake-IsSteady one_byte one_byte) some_calls new_fake 1000
      new_fake-IsKeyed

abbrev row : UserProfile
row = record {
  id = codes "*p1";
  user = codes "a";
  profile = codes "p";
  state = codes "active";
  end_time = [];
}

-- The rows of `a` were fetched at 0; it is 1000 now.
abbrev old_cache : CachedClient memory 60
old_cache = record (new_cached memory 60 new_fake 1000) { profiles = (codes "a", row ∷ []) ∷ [] }

no_rows_of_b : (memory.list_user_profiles (codes "b") old_cache.inner).0 ≡ ok []
unfolding new_cached new_fake Fake.list_user_profiles
no_rows_of_b = refl

list_user_profiles_stale_example :
    let c' = (Cache.list_user_profiles memory 60 (codes "b") old_cache).1 in
    (Cache.list_user_profiles memory 60 (codes "a") (record c' { now = c'.now + 59 })).0
    ≡ ok (row ∷ [])
unfolding new_cached
list_user_profiles_stale_example =
    list_user_profiles_stale memory 60 (codes "a") (codes "b") old_cache 59 refl refl refl
      no_rows_of_b (omega arith)

refresh_list_users-eq_example :
    (refresh_list_users memory 60 old_cache).0 ≡ (memory.list_users old_cache.inner).0
refresh_list_users-eq_example = refresh_list_users-eq memory 60 old_cache

new_fake-IsSingle : IsSingle new_fake.profiles
unfolding new_fake
new_fake-IsSingle = tt

abbrev renewal : Call
renewal = Calls.add_user_profile (codes "ali-x") (codes "profile-open-2M-30d")

-- A user with an active row.
abbrev renewed : FakeClient
renewed = record new_fake {
  users =
      (
        codes "ali-x",
        record {
          id = codes "*1";
          name = codes "ali-x";
          password = codes "secret12";
          shared_users = 2;
          comment = [];
          disabled = false;
        },
      )
      ∷ [];
  profiles = (codes "ali-x", row ∷ []) ∷ [];
}

renewed-IsSingle : IsSingle renewed.profiles
renewed-IsSingle = (omega arith, tt)

renewed_twice :
    length (or_empty (lookup (codes "ali-x") (run_call memory renewal renewed).1.profiles)) ≡ 2
unfolding new_fake Fake.add_user_profile
renewed_twice = refl

run_call-IsSingle_example : IsSingle (run_call memory renewal renewed).1.profiles
run_call-IsSingle_example = run_call-IsSingle one_byte one_byte renewal renewed renewed-IsSingle
