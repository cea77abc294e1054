-- ===== src/Mikrotik/Fake/Active.antt =====
-- A user of the client in memory has one active profile at most.
use fast_bypass.Base.{
  ℕ, ◌+◌, ◌≤◌, ◌≡◌, refl, Text, codes, text_eq, false, Option, none, some, List, [], ◌∷◌, ◌++◌, map,
  if◌then◌else◌, Dict, lookup, insert, erase, text_key, arith, Bool-cases, inl, inr,
}
use fast_bypass.Result.{Result, ok, err}
use fast_bypass.Mikrotik.Types.{UserProfile}
use fast_bypass.Mikrotik.Calls
use fast_bypass.Mikrotik.Calls.{Call, run_call}
use fast_bypass.Mikrotik.Fake.{
  FakeClient, fake_client, is_active_state, deactivate, or_empty, remove_row, remove_profile_in,
  removed_from, keep_item, add_user, set_user, remove_user, add_user_profile, remove_user_profile,
  list_users, get_user, list_user_profiles, generate_certificate, read_file_contents,
  write_file_contents, file_exists,
}

-- The number of active rows.
abbrev pub actives : List UserProfile → ℕ
actives [] = 0
actives (p ∷ ps) = (if is_active_state p then 1 else 0) + actives ps

-- No user has two active rows.
abbrev pub IsSingle : Dict Text (List UserProfile) → Type 0
IsSingle [] = Unit
IsSingle ((user, ps) ∷ d) = (actives ps ≤ 1) × IsSingle d

insert-IsSingle :
    (user : Text) (ps : List UserProfile) (d : Dict Text (List UserProfile))
    → actives ps ≤ 1
    → IsSingle d
    → IsSingle (insert user ps d)
insert-IsSingle user ps [] a h = (a, tt)
insert-IsSingle user ps ((k, qs) ∷ d) a h = ground (arith, insert-IsSingle user ps d a h.1)

erase-IsSingle :
    (user : Text) (d : Dict Text (List UserProfile)) → IsSingle d → IsSingle (erase user d)
erase-IsSingle user [] h = tt
erase-IsSingle user ((k, qs) ∷ d) h = ground (arith, erase-IsSingle user d h.1)

deactivate_inactive : (p : UserProfile) → is_active_state (deactivate p) ≡ false
deactivate_inactive p = elim (Bool-cases (is_active_state p)) [ inl t ↦ rw t refl | inr t ↦ rw t t ]

actives-map : (ps : List UserProfile) → actives (map deactivate ps) ≡ 0
actives-map [] = refl
actives-map (p ∷ ps) = ground (arith, deactivate_inactive p, actives-map ps)

actives-append : (ps qs : List UserProfile) → actives (ps ++ qs) ≡ actives ps + actives qs
actives-append [] qs = omega arith
actives-append (p ∷ ps) qs = omega (arith, actives-append ps qs)

-- Rows that were found have at most n active ones.
abbrev HasAtMost : ℕ → Option (Result (List UserProfile)) → Type 0
HasAtMost n (some (ok qs)) = actives qs ≤ n
HasAtMost n _ = Unit

keep_item-HasAtMost :
    (p : UserProfile) (ps : List UserProfile) (r : Option (Result (List UserProfile)))
    → HasAtMost (actives ps) r
    → HasAtMost (actives (p ∷ ps)) (keep_item p r)
keep_item-HasAtMost p ps none h = tt
keep_item-HasAtMost p ps (some (err e)) h = tt
keep_item-HasAtMost p ps (some (ok qs)) h = omega (arith, h)

remove_row-HasAtMost :
    (id : Text) (ps : List UserProfile) → HasAtMost (actives ps) (remove_row id ps)
unfolding remove_row
remove_row-HasAtMost id [] = tt
remove_row-HasAtMost id (p ∷ ps) = elim (Bool-cases (text_eq p.id id)) [
  | inl t ↦ elim (Bool-cases (is_active_state p)) [
    | inl a ↦ rw (t, a) tt
    | inr a ↦ rw (t, a) (omega arith)
  ]
  | inr t ↦ rw t (keep_item-HasAtMost p ps (remove_row id ps) (remove_row-HasAtMost id ps))
]

-- A map that was found has no user with two active rows.
abbrev FoundSingle : Option (Result (Dict Text (List UserProfile))) → Type 0
FoundSingle (some (ok d)) = IsSingle d
FoundSingle _ = Unit

removed_from-FoundSingle :
    (user : Text) (ps : List UserProfile) (d : Dict Text (List UserProfile))
    (r : Option (Result (List UserProfile))) (rest : Option (Result (Dict Text (List UserProfile))))
    → actives ps ≤ 1
    → IsSingle d
    → HasAtMost (actives ps) r
    → FoundSingle rest
    → FoundSingle (removed_from r (user, ps) d rest)
removed_from-FoundSingle user ps d none none a s h f = tt
removed_from-FoundSingle user ps d none (some (err e)) a s h f = tt
removed_from-FoundSingle user ps d none (some (ok d')) a s h f = (a, f)
removed_from-FoundSingle user ps d (some (err e)) rest a s h f = tt
removed_from-FoundSingle user ps d (some (ok qs)) rest a s h f = (omega (arith, a, h), s)

remove_profile_in-FoundSingle :
    (id : Text) (d : Dict Text (List UserProfile))
    → IsSingle d
    → FoundSingle (remove_profile_in id d)
unfolding remove_profile_in
remove_profile_in-FoundSingle id [] s = tt
remove_profile_in-FoundSingle id ((user, ps) ∷ d) (a, s) =
    removed_from-FoundSingle user ps d (remove_row id ps) (remove_profile_in id d) a s
      (remove_row-HasAtMost id ps) (remove_profile_in-FoundSingle id d s)

module _ (print_id end_of : ℕ → Text) where
  -- No call of the client in memory gives a user a second active profile row.
  pub run_call-IsSingle :
      (k : Call) (f : FakeClient)
      → IsSingle f.profiles
      → IsSingle (run_call (fake_client print_id end_of) k f).1.profiles
  unfolding add_user set_user remove_user add_user_profile remove_user_profile list_users get_user
      list_user_profiles generate_certificate read_file_contents write_file_contents file_exists
  run_call-IsSingle (Calls.add_user a p t n b) f h = ground arith
  run_call-IsSingle (Calls.set_user a p n t b) f h = ground arith
  run_call-IsSingle (Calls.remove_user a) f h = ground (arith, erase-IsSingle a f.profiles h)
  run_call-IsSingle (Calls.add_user_profile a p) f h =
      let row : UserProfile = record {
        id = codes "*p" ++ print_id f.next_id;
        user = a;
        profile = p;
        state = codes "active";
        end_time = end_of f.next_id;
      } in
      let old = or_empty (lookup a f.profiles) in
      ground (
        arith,
        insert-IsSingle a (map deactivate old ++ (row ∷ [])) f.profiles
            (omega (arith, actives-map old, actives-append (map deactivate old) (row ∷ []))) h,
      )
  run_call-IsSingle (Calls.remove_user_profile a) f h =
      go (remove_profile_in a f.profiles) refl (remove_profile_in-FoundSingle a f.profiles h)
    where
      go :
          (r : Option (Result (Dict Text (List UserProfile))))
          → remove_profile_in a f.profiles ≡ r
          → FoundSingle r
          → IsSingle (remove_user_profile a f).1.profiles
      go none e s = rw (e, IsSingle) h
      go (some (err x)) e s = rw (e, IsSingle) h
      go (some (ok d)) e s = rw (e, IsSingle) s
  run_call-IsSingle _ f h = h
