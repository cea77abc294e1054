-- ===== src/Mikrotik/Cache/Stale.antt =====
-- How old an answer of the cache may be.
use fast_bypass.Base.{
  ℕ, ◌+◌, ◌-◌, ◌<◌, ◌≡◌, refl, Text, text_eq, false, ltb, none, some, List, [], Bool-cases, inl,
  inr, lookup, lookup-insert, text_key, arith,
}
use fast_bypass.Result.{Result, ok, err}
use fast_bypass.Mikrotik.Types.{User, UserProfile, Client}
use fast_bypass.Mikrotik.Cache.{
  CachedClient, list_user_profiles, refresh_list_users, fetch_profiles, store_profiles, fetch_users,
}

module _ (C : Client) (ttl : ℕ) where
  fetch_profiles-ok :
      (name : Text) (c : CachedClient C ttl) (rows : List UserProfile)
      → (C.list_user_profiles name c.inner).0 ≡ ok rows
      → let c' = record c { inner = (C.list_user_profiles name c.inner).1 } in
        fetch_profiles C ttl name c ≡ (ok rows, store_profiles C ttl name rows c')
  fetch_profiles-ok name c rows e = rw e refl

  -- The rows of a user that are kept, of whatever age, are served again for less than the time to
  -- live after the rows of another user have been fetched, whatever the router would answer.
  pub list_user_profiles_stale :
      (a b : Text) (c : CachedClient C ttl) (d : ℕ) {kept rows : List UserProfile}
      → text_eq a b ≡ false
      → lookup a c.profiles ≡ some kept
      → lookup b c.profiles ≡ none
      → (C.list_user_profiles b c.inner).0 ≡ ok rows
      → d < ttl
      → let c' = (list_user_profiles C ttl b c).1 in
        (list_user_profiles C ttl a (record c' { now = c'.now + d })).0 ≡ ok kept
  unfolding list_user_profiles
  list_user_profiles_stale a b c d {rows} ne ka kb e lt =
      rw (kb, fetch_profiles-ok b c rows e)
        (rw (lookup-insert a b rows c.profiles, ne, ka) (ground arith))

  fetch_users-fst : (c : CachedClient C ttl) → (fetch_users C ttl c).0 ≡ (C.list_users c.inner).0
  fetch_users-fst c = go (C.list_users c.inner).0 (C.list_users c.inner).1 refl
    where
      go :
          (r : Result (List User)) (s : C.State)
          → C.list_users c.inner ≡ (r, s)
          → (fetch_users C ttl c).0 ≡ (C.list_users c.inner).0
      go (ok us) s e = rw e refl
      go (err x) s e = rw e refl

  -- A refresh answers as the router does now, whatever is kept.
  pub refresh_list_users-eq :
      (c : CachedClient C ttl) → (refresh_list_users C ttl c).0 ≡ (C.list_users c.inner).0
  unfolding refresh_list_users
  refresh_list_users-eq c = elim (Bool-cases (ltb (c.now - c.users_at) ttl)) [
    | inl t ↦ rw t (fetch_users-fst (record c { users = [] }))
    | inr t ↦ rw t (fetch_users-fst (record c { users = [] }))
  ]
