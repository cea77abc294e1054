-- ===== src/Mikrotik/Cache.antt =====
-- `CachedClient` of backend/internal/mikrotik/types.go, over any inner client. The clock that
-- `time.Since` reads is a field of the state; `ttl` is the field of the same name.
mod Agreement
pub mod Transparent
pub mod Stale
use fast_bypass.Base.{
  ℕ, ◌-◌, Text, text_eq, Bool, true, false, ◌&&◌, not, Option, none, some, List, [], ◌∷◌, ltb,
  if◌then◌else◌, Dict, lookup, insert, text_key,
}
use fast_bypass.Result.{Exec, ⊤, ok, err, mt_not_found, pure, raise, ◌>>=◌, ◌>>◌}
use fast_bypass.Mikrotik.Types.{User, UserProfile, Client}

-- A slice that nothing was put into is nil.
abbrev pub is_nil {ℓ} : {A : Type ℓ} → List A → Bool
is_nil [] = true
is_nil (x ∷ xs) = false

-- The loop of `GetUser`.
unfoldable pub find_user : Text → List User → Option User
find_user name [] = none
find_user name (u ∷ us) = if text_eq u.name name then some u else find_user name us

module _ (C : Client) (ttl : ℕ) where
  pub record CachedClient : Type 0 where
    pub inner : C.State
    pub now : ℕ
    pub users_at : ℕ
    pub users : List User
    pub profiles_at : ℕ
    pub profiles : Dict Text (List UserProfile)

  -- A call of the inner client.
  abbrev pub on_inner : {A : Type 0} → Exec C.State A → Exec CachedClient A
  on_inner m c = let (r, s) = m c.inner in (r, record c { inner = s })

  -- `NewCached`
  unfoldable pub new_cached : C.State → ℕ → CachedClient
  new_cached s now = record {
    inner = s;
    now = now;
    users_at = 0;
    users = [];
    profiles_at = 0;
    profiles = [];
  }

  abbrev pub store_users : List User → CachedClient → CachedClient
  store_users us c = record c { users = us; users_at = c.now }

  abbrev pub fetch_users : Exec CachedClient (List User)
  fetch_users = do us ← on_inner C.list_users; λ c. (ok us, store_users us c)

  unfoldable pub list_users : Exec CachedClient (List User)
  list_users c =
      if ltb (c.now - c.users_at) ttl && not (is_nil c.users)
      then (ok c.users, c)
      else fetch_users c

  abbrev pub found_or_raise : Option User → Exec CachedClient User
  found_or_raise none = raise mt_not_found
  found_or_raise (some u) = pure u

  unfoldable pub get_user : Text → Exec CachedClient User
  unfolding list_users find_user
  get_user name = do us ← list_users; found_or_raise (find_user name us)

  unfoldable pub invalidate_cache : CachedClient → CachedClient
  invalidate_cache c = record c { users = []; profiles = []; inner = C.invalidate_cache c.inner }

  -- The call, and `InvalidateCache` where it succeeded.
  abbrev pub invalidating : Exec C.State ⊤ → Exec CachedClient ⊤
  invalidating m = do on_inner m; λ c. (ok tt, invalidate_cache c)

  unfoldable pub add_user : Text → Text → Text → ℕ → Bool → Exec CachedClient ⊤
  unfolding invalidate_cache
  add_user name password comment shared disabled =
      invalidating (C.add_user name password comment shared disabled)

  unfoldable pub set_user : Text → Option Text → Option ℕ → Text → Option Bool → Exec CachedClient ⊤
  unfolding invalidate_cache
  set_user name password shared comment disabled =
      invalidating (C.set_user name password shared comment disabled)

  unfoldable pub remove_user : Text → Exec CachedClient ⊤
  unfolding invalidate_cache
  remove_user name = invalidating (C.remove_user name)

  abbrev pub store_profiles : Text → List UserProfile → CachedClient → CachedClient
  store_profiles user ps c = record c { profiles = insert user ps c.profiles; profiles_at = c.now }

  abbrev pub fetch_profiles : Text → Exec CachedClient (List UserProfile)
  fetch_profiles user = do
    ps ← on_inner (C.list_user_profiles user)
    λ c. (ok ps, store_profiles user ps c)

  -- The answer from the entry of the map, if there is one and it is not too old. The one time
  -- stamp `profilesAt` is that of the last fetch for any user.
  abbrev pub serve_profiles :
      Option (List UserProfile) → Text → Exec CachedClient (List UserProfile)
  serve_profiles none user c = fetch_profiles user c
  serve_profiles (some ps) user c =
      if ltb (c.now - c.profiles_at) ttl then (ok ps, c) else fetch_profiles user c

  unfoldable pub list_user_profiles : Text → Exec CachedClient (List UserProfile)
  list_user_profiles user c = serve_profiles (lookup user c.profiles) user c

  unfoldable pub add_user_profile : Text → Text → Exec CachedClient ⊤
  unfolding invalidate_cache
  add_user_profile user profile = invalidating (C.add_user_profile user profile)

  unfoldable pub remove_user_profile : Text → Exec CachedClient ⊤
  unfolding invalidate_cache
  remove_user_profile id = invalidating (C.remove_user_profile id)

  unfoldable pub refresh_list_users : Exec CachedClient (List User)
  unfolding list_users
  refresh_list_users c = list_users (record c { users = [] })

  -- The client that the application holds.
  abbrev pub cached_client : Client
  cached_client = record {
    State = CachedClient;
    ping = on_inner C.ping;
    list_users = list_users;
    get_user = get_user;
    add_user = add_user;
    set_user = set_user;
    remove_user = remove_user;
    list_user_profiles = list_user_profiles;
    add_user_profile = add_user_profile;
    remove_user_profile = remove_user_profile;
    generate_certificate = λ script title pass. on_inner (C.generate_certificate script title pass);
    read_file_contents = λ name. on_inner (C.read_file_contents name);
    write_file_contents = λ name body. on_inner (C.write_file_contents name body);
    file_exists = λ name. on_inner (C.file_exists name);
    invalidate_cache = invalidate_cache;
  }
