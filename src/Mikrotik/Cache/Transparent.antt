-- ===== src/Mikrotik/Cache/Transparent.antt =====
-- Over a router that nobody else changes, the cache cannot be seen: every call is answered as the
-- inner client would, at any time.
use fast_bypass.Base.{
  ℕ, ◌+◌, ◌≡◌, refl, sym, ap, ap₂, subst, ◌∙◌, Text, List, [], ◌∷◌, text_key, arith,
}
use fast_bypass.Result.{Result, Error, ok, err, bind_of_ok, bind_of_err}
use fast_bypass.Mikrotik.Types.{User, Client}
use fast_bypass.Mikrotik.Calls
use fast_bypass.Mikrotik.Calls.{
  Call, Reply, failed, done, reply, replied, run_call, is_read, is_user_write, first_named,
  search_user, IsSteady,
}
use fast_bypass.Mikrotik.Cache.{
  find_user, CachedClient, cached_client, list_users, get_user, add_user, set_user, remove_user,
  add_user_profile, remove_user_profile, found_or_raise, new_cached,
}
use fast_bypass.Mikrotik.Cache.Agreement.{
  Coherent, Agrees, on_inner-Agrees, invalidating-Agrees, list_users-Agrees,
  list_user_profiles-Agrees,
}

module _ (C : Client) (ttl : ℕ) where
  module _ (L : IsSteady C) where
    find_user-first_named :
        (name : Text) (us : List User) (c : CachedClient C ttl)
        → found_or_raise C ttl (find_user name us) c ≡ (first_named name us, c)
    unfolding find_user
    find_user-first_named name [] c = refl
    find_user-first_named name (v ∷ us) c = ground (arith, find_user-first_named name us c)

    get_user-ok :
        (name : Text) (c d : CachedClient C ttl) (us : List User)
        → list_users C ttl c ≡ (ok us, d)
        → get_user C ttl name c ≡ (first_named name us, d)
    unfolding get_user
    get_user-ok name c d us e =
        bind_of_ok (list_users C ttl) (λ vs. found_or_raise C ttl (find_user name vs)) c d us e
        ∙ find_user-first_named name us d

    get_user-err :
        (name : Text) (c d : CachedClient C ttl) (x : Error)
        → list_users C ttl c ≡ (err x, d)
        → get_user C ttl name c ≡ (err x, d)
    unfolding get_user
    get_user-err name c d x e =
        bind_of_err (list_users C ttl) (λ vs. found_or_raise C ttl (find_user name vs)) c d x e

    get_user-Agrees :
        (name : Text) (c : CachedClient C ttl)
        → L.Valid c.inner
        → Coherent C ttl c
        → Agrees C ttl
            (run_call (cached_client C ttl) (Calls.get_user name) c)
            (run_call C (Calls.get_user name) c.inner)
    get_user-Agrees name c v h =
        go (list_users C ttl c).0 (list_users C ttl c).1 refl (C.list_users c.inner).0 refl
          (list_users-Agrees C ttl L c h)
      where
        stays : (C.get_user name c.inner).1 ≡ c.inner
        stays = L.reads (Calls.get_user name) c.inner refl

        kept : (C.list_users c.inner).1 ≡ c.inner
        kept = L.reads Calls.list_users c.inner refl

        go :
            (r : Result (List User)) (d : CachedClient C ttl)
            → list_users C ttl c ≡ (r, d)
            → (q : Result (List User)) → (C.list_users c.inner).0 ≡ q
            → Agrees C ttl
                (replied Calls.users (list_users C ttl c))
                (replied Calls.users (C.list_users c.inner))
            → Agrees C ttl
                (replied Calls.user (get_user C ttl name c))
                (replied Calls.user (C.get_user name c.inner))
        go (ok us) d e (ok vs) k a =
            let (same, inner, h') = rw (e, k) at a in
            let answer : (C.get_user name c.inner).0 ≡ first_named name us =
              L.searches name c.inner v ∙ rw k (ap (first_named name) (cc)) in
            rw (get_user-ok name c d us e, answer) (refl, inner ∙ kept ∙ sym stays, h')
        go (ok us) d e (err x) k a = let (same, inner, h') = rw (e, k) at a in absurd (cc)
        go (err x) d e (ok vs) k a = let (same, inner, h') = rw (e, k) at a in absurd (cc)
        go (err x) d e (err y) k a =
            let (same, inner, h') = rw (e, k) at a in
            let answer : (C.get_user name c.inner).0 ≡ err x =
              L.searches name c.inner v ∙ rw k (cc) in
            rw (get_user-err name c d x e, answer) (refl, inner ∙ kept ∙ sym stays, h')

    -- One call.
    call-Agrees :
        (k : Call) (c : CachedClient C ttl)
        → L.Valid c.inner
        → Coherent C ttl c
        → Agrees C ttl (run_call (cached_client C ttl) k c) (run_call C k c.inner)
    unfolding add_user set_user remove_user add_user_profile remove_user_profile
    call-Agrees Calls.ping c v h =
        on_inner-Agrees C ttl (λ _. done) C.ping c (L.users_stay Calls.ping c.inner refl)
          (λ n. L.profiles_stay Calls.ping c.inner n refl) h
    call-Agrees Calls.list_users c v h = list_users-Agrees C ttl L c h
    call-Agrees (Calls.get_user name) c v h = get_user-Agrees name c v h
    call-Agrees (Calls.add_user a p t n b) c v h =
        invalidating-Agrees C ttl (C.add_user a p t n b) c L.invalidates
          (L.fails (Calls.add_user a p t n b) c.inner) h
    call-Agrees (Calls.set_user a p n t b) c v h =
        invalidating-Agrees C ttl (C.set_user a p n t b) c L.invalidates
          (L.fails (Calls.set_user a p n t b) c.inner) h
    call-Agrees (Calls.remove_user a) c v h =
        invalidating-Agrees C ttl (C.remove_user a) c L.invalidates
          (L.fails (Calls.remove_user a) c.inner) h
    call-Agrees (Calls.list_user_profiles name) c v h = list_user_profiles-Agrees C ttl L name c h
    call-Agrees (Calls.add_user_profile a p) c v h =
        invalidating-Agrees C ttl (C.add_user_profile a p) c L.invalidates
          (L.fails (Calls.add_user_profile a p) c.inner) h
    call-Agrees (Calls.remove_user_profile a) c v h =
        invalidating-Agrees C ttl (C.remove_user_profile a) c L.invalidates
          (L.fails (Calls.remove_user_profile a) c.inner) h
    call-Agrees (Calls.generate_certificate a t p) c v h =
        let k = Calls.generate_certificate a t p in
        on_inner-Agrees C ttl (λ _. done) (C.generate_certificate a t p) c
          (L.users_stay k c.inner refl) (λ n. L.profiles_stay k c.inner n refl) h
    call-Agrees (Calls.read_file_contents a) c v h =
        let k = Calls.read_file_contents a in
        on_inner-Agrees C ttl Calls.contents (C.read_file_contents a) c
          (L.users_stay k c.inner refl) (λ n. L.profiles_stay k c.inner n refl) h
    call-Agrees (Calls.write_file_contents a b) c v h =
        let k = Calls.write_file_contents a b in
        on_inner-Agrees C ttl (λ _. done) (C.write_file_contents a b) c
          (L.users_stay k c.inner refl) (λ n. L.profiles_stay k c.inner n refl) h
    call-Agrees (Calls.file_exists a) c v h =
        let k = Calls.file_exists a in
        on_inner-Agrees C ttl Calls.found (C.file_exists a) c (L.users_stay k c.inner refl)
          (λ n. L.profiles_stay k c.inner n refl) h

-- Calls with the time that passes before each.
abbrev pub Trace : Type 0
Trace = List (ℕ × Call)

-- The replies of the inner client: time does not matter.
abbrev pub inner_replies : (C : Client) → Trace → C.State → List Reply
inner_replies C [] s = []
inner_replies C ((d, k) ∷ t) s = let (r, s') = run_call C k s in r ∷ inner_replies C t s'

module _ (C : Client) (ttl : ℕ) where
  abbrev wait : ℕ → CachedClient C ttl → CachedClient C ttl
  wait d c = record c { now = c.now + d }

  abbrev pub cached_replies : Trace → CachedClient C ttl → List Reply
  cached_replies [] c = []
  cached_replies ((d, k) ∷ t) c =
      let (r, c') = run_call (cached_client C ttl) k (wait d c) in r ∷ cached_replies t c'

  replies-eq :
      (L : IsSteady C) (t : Trace) (c : CachedClient C ttl)
      → L.Valid c.inner
      → Coherent C ttl c
      → cached_replies t c ≡ inner_replies C t c.inner
  replies-eq L [] c v h = refl
  replies-eq L ((d, k) ∷ t) c v h =
      let (r, i, h') = call-Agrees C ttl L k (wait d c) v h in
      ap₂ ◌∷◌ r (
        replies-eq L t (run_call (cached_client C ttl) k (wait d c)).1
          (subst L.Valid (sym i) (L.keeps k c.inner v)) h'
        ∙ ap (inner_replies C t) i)

  -- Over a router that keeps to `IsSteady` and that nobody else changes, a new cache answers every
  -- sequence of calls, with any time between them, as the router itself would.
  pub cached_replies-eq :
      (L : IsSteady C) (t : Trace) (s : C.State) (now : ℕ)
      → L.Valid s
      → cached_replies t (new_cached C ttl s now) ≡ inner_replies C t s
  unfolding new_cached
  cached_replies-eq L t s now v =
      replies-eq L t (new_cached C ttl s now) v ((λ n. absurd (cc)), λ name ps l. absurd (cc))
