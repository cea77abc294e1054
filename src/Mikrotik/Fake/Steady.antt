-- ===== src/Mikrotik/Fake/Steady.antt =====
-- The client in memory keeps to what the panel expects of a router.
use fast_bypass.Base.{
  ℕ, ◌≡◌, refl, Text, text_eq-true, text_eq_comm, true, false, Option, none, some, [], ◌∷◌, Dict,
  lookup, insert, erase, text_key, arith, codes, ◌++◌, Option-cases, inl, inr,
}
use fast_bypass.Result.{Result, Error, ok, err}
use fast_bypass.Mikrotik.Types.{User, Client}
use fast_bypass.Mikrotik.Calls
use fast_bypass.Mikrotik.Calls.{
  Call, failed, run_call, is_read, is_user_write, first_named, IsSteady,
}
use fast_bypass.Mikrotik.Fake.{
  FakeClient, fake_client, values, set_if, add_user, set_user, remove_user, add_user_profile,
  remove_user_profile, list_users, get_user, list_user_profiles, generate_certificate,
  read_file_contents, write_file_contents, file_exists,
}

-- Every user stands under his name.
abbrev pub IsKeyed : Dict Text User → Type 0
IsKeyed [] = Unit
IsKeyed ((k, u) ∷ d) = (u.name ≡ k) × IsKeyed d

insert-IsKeyed :
    (k : Text) (u : User) (d : Dict Text User) → u.name ≡ k → IsKeyed d → IsKeyed (insert k u d)
insert-IsKeyed k u [] e h = (e, tt)
insert-IsKeyed k u ((j, v) ∷ d) e h = ground (arith, insert-IsKeyed k u d e h.1)

erase-IsKeyed : (k : Text) (d : Dict Text User) → IsKeyed d → IsKeyed (erase k d)
erase-IsKeyed k [] h = tt
erase-IsKeyed k ((j, v) ∷ d) h = ground (arith, erase-IsKeyed k d h.1)

lookup-IsKeyed :
    (k : Text) (d : Dict Text User) {u : User} → IsKeyed d → lookup k d ≡ some u → u.name ≡ k
lookup-IsKeyed k [] h e = cc
lookup-IsKeyed k ((j, v) ∷ d) {u} h e =
    ground (arith, lookup-IsKeyed k d {u = u} h.1, text_eq-true k j)

abbrev pub as_result : Option User → Result User
as_result none = err Error.mt_not_found
as_result (some u) = ok u

pub lookup-first_named :
    (k : Text) (d : Dict Text User) → IsKeyed d → as_result (lookup k d) ≡ first_named k (values d)
lookup-first_named k [] h = refl
lookup-first_named k ((j, v) ∷ d) h = ground (arith, lookup-first_named k d h.1, text_eq_comm k j)

module _ (print_id end_of : ℕ → Text) where
  abbrev pub fake : Client
  fake = fake_client print_id end_of

  pub run_call-IsKeyed :
      (k : Call) (f : FakeClient) → IsKeyed f.users → IsKeyed (run_call fake k f).1.users
  unfolding add_user set_user remove_user add_user_profile remove_user_profile list_users get_user
      list_user_profiles generate_certificate read_file_contents write_file_contents file_exists
  run_call-IsKeyed (Calls.add_user a p t n b) f h =
      let u : User = record {
        id = codes "*" ++ print_id f.next_id;
        name = a;
        password = p;
        shared_users = n;
        comment = t;
        disabled = b;
      } in
      ground (arith, insert-IsKeyed a u f.users refl h)
  run_call-IsKeyed (Calls.set_user a p n t b) f h = elim (Option-cases (lookup a f.users)) [
    | inl e ↦ ground arith
    | inr (u, e) ↦
        let u' : User = record u {
          password = set_if p u.password;
          shared_users = set_if n u.shared_users;
          comment = t;
          disabled = set_if b u.disabled;
        } in
        ground (arith, insert-IsKeyed a u' f.users (lookup-IsKeyed a f.users h e) h)
  ]
  run_call-IsKeyed (Calls.remove_user a) f h = ground (arith, erase-IsKeyed a f.users h)
  run_call-IsKeyed (Calls.add_user_profile a p) f h = ground arith
  run_call-IsKeyed (Calls.remove_user_profile a) f h = ground arith
  run_call-IsKeyed _ f h = h

  pub run_call_reads : (k : Call) (f : FakeClient) → is_read k ≡ true → (run_call fake k f).1 ≡ f
  unfolding list_users get_user list_user_profiles read_file_contents file_exists
  run_call_reads Calls.ping f h = refl
  run_call_reads Calls.list_users f h = refl
  run_call_reads (Calls.get_user _) f h = refl
  run_call_reads (Calls.list_user_profiles _) f h = refl
  run_call_reads (Calls.read_file_contents _) f h = refl
  run_call_reads (Calls.file_exists _) f h = refl
  run_call_reads _ f h = absurd (cc)

  pub run_call_fails :
      (k : Call) (f : FakeClient) (e : Error)
      → (run_call fake k f).0 ≡ failed e
      → (run_call fake k f).1 ≡ f
  unfolding add_user set_user remove_user add_user_profile remove_user_profile list_users get_user
      list_user_profiles generate_certificate read_file_contents write_file_contents file_exists
  run_call_fails (Calls.add_user a p t n b) f e h = ground arith
  run_call_fails (Calls.set_user a p n t b) f e h = ground arith
  run_call_fails (Calls.remove_user a) f e h = ground arith
  run_call_fails (Calls.add_user_profile a p) f e h = ground arith
  run_call_fails (Calls.remove_user_profile a) f e h = ground arith
  run_call_fails (Calls.generate_certificate a t p) f e h = absurd (cc)
  run_call_fails (Calls.write_file_contents a b) f e h = absurd (cc)
  run_call_fails _ f e h = refl

  pub users_stay :
      (k : Call) (f : FakeClient)
      → is_user_write k ≡ false
      → (fake.list_users (run_call fake k f).1).0 ≡ (fake.list_users f).0
  unfolding list_users get_user list_user_profiles generate_certificate read_file_contents
      write_file_contents file_exists
  users_stay (Calls.add_user _ _ _ _ _) f h = absurd (cc)
  users_stay (Calls.set_user _ _ _ _ _) f h = absurd (cc)
  users_stay (Calls.remove_user _) f h = absurd (cc)
  users_stay (Calls.add_user_profile _ _) f h = absurd (cc)
  users_stay (Calls.remove_user_profile _) f h = absurd (cc)
  users_stay _ f h = refl

  pub profiles_stay :
      (k : Call) (f : FakeClient) (name : Text)
      → is_user_write k ≡ false
      → (fake.list_user_profiles name (run_call fake k f).1).0 ≡ (fake.list_user_profiles name f).0
  unfolding list_users get_user list_user_profiles generate_certificate read_file_contents
      write_file_contents file_exists
  profiles_stay (Calls.add_user _ _ _ _ _) f name h = absurd (cc)
  profiles_stay (Calls.set_user _ _ _ _ _) f name h = absurd (cc)
  profiles_stay (Calls.remove_user _) f name h = absurd (cc)
  profiles_stay (Calls.add_user_profile _ _) f name h = absurd (cc)
  profiles_stay (Calls.remove_user_profile _) f name h = absurd (cc)
  profiles_stay _ f name h = refl

  -- In every state in which each user stands under his name, the client in memory keeps to
  -- `IsSteady`.
  unfoldable pub fake-IsSteady : IsSteady fake
  unfolding list_users get_user
  fake-IsSteady = record {
    Valid = λ f. IsKeyed f.users;
    keeps = run_call-IsKeyed;
    reads = run_call_reads;
    fails = run_call_fails;
    searches = λ name f h. lookup-first_named name f.users h;
    users_stay = users_stay;
    profiles_stay = profiles_stay;
    invalidates = λ f. refl;
  }
