-- ===== src/Mikrotik/Cache/Agreement.antt =====
-- A cache that is coherent answers reads as the inner client would, and is coherent again.
use fast_bypass.Base.{
  ℕ, ◌≡◌, refl, sym, subst, ◌∙◌, Text, false, ◌&&◌, ltb, ◌-◌, not, some, List, Dict, lookup,
  lookup-insert, text_key, text_eq-true, arith, text_eq, Bool-cases, inl, inr, Option-cases,
}
use fast_bypass.Result.{Exec, Result, ⊤, Error, ok, err}
use fast_bypass.Mikrotik.Types.{User, UserProfile, Client}
use fast_bypass.Mikrotik.Calls
use fast_bypass.Mikrotik.Calls.{
  Call, Reply, failed, done, reply, replied, run_call, is_read, is_user_write, first_named,
  search_user, IsSteady,
}
use fast_bypass.Mikrotik.Cache.{
  is_nil, CachedClient, cached_client, list_users, list_user_profiles, invalidate_cache,
  invalidating, on_inner, fetch_users, fetch_profiles,
}

module _ (C : Client) where
  -- A kept list is what the inner client would answer now; so are the kept profile rows.
  abbrev UsersFit : C.State → List User → Type 0
  UsersFit s us = is_nil us ≡ false → (C.list_users s).0 ≡ ok us

  abbrev ProfilesFit : C.State → Dict Text (List UserProfile) → Type 0
  ProfilesFit s d =
      (name : Text) (ps : List UserProfile)
      → lookup name d ≡ some ps
      → (C.list_user_profiles name s).0 ≡ ok ps

module _ (C : Client) (ttl : ℕ) where
  -- What the cache holds is what the inner client would answer now.
  abbrev pub Coherent : CachedClient C ttl → Type 0
  Coherent c = UsersFit C c.inner c.users × ProfilesFit C c.inner c.profiles

  -- The cached call answers as the inner one, leaves the inner client in the same state, and the
  -- cache is coherent again.
  abbrev pub Agrees : Reply × CachedClient C ttl → Reply × C.State → Type 0
  Agrees (r, c) (q, s) = (r ≡ q) × (c.inner ≡ s) × Coherent c

  -- The same facts at another state of the inner client that equals the old one.
  moved_Coherent :
      (c : CachedClient C ttl) (s : C.State)
      → s ≡ c.inner
      → Coherent c
      → UsersFit C s c.users × ProfilesFit C s c.profiles
  moved_Coherent c s e h = subst (λ t. UsersFit C t c.users × ProfilesFit C t c.profiles) (sym e) h

  pub on_inner-Agrees :
      {A : Type 0} (f : A → Reply) (m : Exec C.State A) (c : CachedClient C ttl)
      → (C.list_users (m c.inner).1).0 ≡ (C.list_users c.inner).0
      → ((name : Text)
          → (C.list_user_profiles name (m c.inner).1).0 ≡ (C.list_user_profiles name c.inner).0)
      → Coherent c
      → Agrees (replied f (on_inner C ttl m c)) (replied f (m c.inner))
  on_inner-Agrees f m c us ps (u, p) =
      (refl, refl, ((λ n. us ∙ u n), λ name rows l. ps name ∙ p name rows l))

  pub invalidating-Agrees :
      (m : Exec C.State ⊤) (c : CachedClient C ttl)
      → ((s : C.State) → C.invalidate_cache s ≡ s)
      → ((e : Error) → reply (λ (x : ⊤). done) (m c.inner).0 ≡ failed e → (m c.inner).1 ≡ c.inner)
      → Coherent c
      → Agrees (replied (λ _. done) (invalidating C ttl m c)) (replied (λ _. done) (m c.inner))
  unfolding invalidate_cache
  invalidating-Agrees m c inv fails h = go (m c.inner).0 (m c.inner).1 refl
    where
      go :
          (r : Result ⊤) (s : C.State)
          → m c.inner ≡ (r, s)
          → Agrees (replied (λ _. done) (invalidating C ttl m c)) (replied (λ _. done) (m c.inner))
      go (ok x) s e = rw e (refl, inv s, ((λ n. absurd (cc)), λ name ps l. absurd (cc)))
      go (err x) s e =
          let same : s ≡ c.inner = rw e at (fails x (rw e refl)) in
          rw e (refl, refl, moved_Coherent c s same h)

  module _ (L : IsSteady C) where
    pub list_users-Agrees :
        (c : CachedClient C ttl)
        → Coherent c
        → Agrees
            (run_call (cached_client C ttl) Calls.list_users c)
            (run_call C Calls.list_users c.inner)
    unfolding list_users
    list_users-Agrees c (u, p) =
        elim (Bool-cases (ltb (c.now - c.users_at) ttl && not (is_nil c.users))) [
          | inl t ↦ rw t (ground (arith, u), sym (L.reads Calls.list_users c.inner refl), (u, p))
          | inr t ↦ rw t (go (C.list_users c.inner).0 (C.list_users c.inner).1 refl)
        ]
      where
        go :
            (r : Result (List User)) (s : C.State)
            → C.list_users c.inner ≡ (r, s)
            → Agrees
                (replied Calls.users (fetch_users C ttl c))
                (replied Calls.users (C.list_users c.inner))
        go (ok us) s e =
            let same : s ≡ c.inner = rw e at (L.reads Calls.list_users c.inner refl) in
            let now : (C.list_users s).0 ≡ ok us = rw same (rw e refl) in
            rw e (refl, refl, ((λ n. now), (moved_Coherent c s same (u, p)).1))
        go (err x) s e =
            let same : s ≡ c.inner = rw e at (L.reads Calls.list_users c.inner refl) in
            rw e (refl, refl, moved_Coherent c s same (u, p))

    fetch_profiles-Agrees :
        (name : Text) (c : CachedClient C ttl)
        → Coherent c
        → Agrees
            (replied Calls.profiles (fetch_profiles C ttl name c))
            (replied Calls.profiles (C.list_user_profiles name c.inner))
    fetch_profiles-Agrees name c (u, p) =
        go (C.list_user_profiles name c.inner).0 (C.list_user_profiles name c.inner).1 refl
      where
        go :
            (r : Result (List UserProfile)) (s : C.State)
            → C.list_user_profiles name c.inner ≡ (r, s)
            → Agrees
                (replied Calls.profiles (fetch_profiles C ttl name c))
                (replied Calls.profiles (C.list_user_profiles name c.inner))
        go (ok rows) s e =
            let same : s ≡ c.inner =
              rw e at (L.reads (Calls.list_user_profiles name) c.inner refl) in
            let now : (C.list_user_profiles name s).0 ≡ ok rows = rw same (rw e refl) in
            let (u', p') = moved_Coherent c s same (u, p) in
            rw e (
              refl,
              refl,
              (
                u',
                λ other ps l. elim (Bool-cases (text_eq other name)) [
                  | inl t ↦
                      let k : some rows ≡ some ps =
                        rw (lookup-insert other name rows c.profiles, t) at l in
                      rw (text_eq-true other name t) (now ∙ cc)
                  | inr t ↦ p' other ps (rw (lookup-insert other name rows c.profiles, t) at l)
                ],
              ),
            )
        go (err x) s e =
            let same : s ≡ c.inner =
              rw e at (L.reads (Calls.list_user_profiles name) c.inner refl) in
            rw e (refl, refl, moved_Coherent c s same (u, p))

    pub list_user_profiles-Agrees :
        (name : Text) (c : CachedClient C ttl)
        → Coherent c
        → Agrees
            (run_call (cached_client C ttl) (Calls.list_user_profiles name) c)
            (run_call C (Calls.list_user_profiles name) c.inner)
    unfolding list_user_profiles
    list_user_profiles-Agrees name c (u, p) = elim (Option-cases (lookup name c.profiles)) [
      | inl e ↦ rw e (fetch_profiles-Agrees name c (u, p))
      | inr (ps, e) ↦ elim (Bool-cases (ltb (c.now - c.profiles_at) ttl)) [
        | inl t ↦
            rw (e, t)
              (
                rw (p name ps e) refl,
                sym (L.reads (Calls.list_user_profiles name) c.inner refl),
                (u, p),
              )
        | inr t ↦ rw (e, t) (fetch_profiles-Agrees name c (u, p))
      ]
    ]
