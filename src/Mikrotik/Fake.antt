-- ===== src/Mikrotik/Fake.antt =====
-- `FakeClient` of backend/internal/mikrotik/fake.go and cert_fake.go: the client in memory.
-- A Go map has no order; here `ListUsers` and `RemoveUserProfile` go in the order of insertion.
pub mod Steady
pub mod Active
use fast_bypass.Base.{
  ℕ, ◌+◌, Text, codes, text_eq, contains, to_lower, Bool, true, false, ◌&&◌, not, Option, none,
  some, List, [], ◌∷◌, ◌++◌, map, if◌then◌else◌, Dict, lookup, insert, erase, text_key,
}
use fast_bypass.Result.{
  Exec, Result, ⊤, ok, err, mt_not_found, mt_name_taken, mt_profile_missing, failure,
}
use fast_bypass.Mikrotik.Types.{User, UserProfile, Client}

pub record FakeClient : Type 0 where
  pub users : Dict Text User
  pub profiles : Dict Text (List UserProfile)
  pub certs : Dict Text Text
  pub files : Dict Text Text
  pub next_id : ℕ
  pub profiles_defined : Dict Text Bool

abbrev is_some {ℓ} : {A : Type ℓ} → Option A → Bool
is_some none = false
is_some (some a) = true

abbrev pub or_empty {ℓ} : {A : Type ℓ} → Option (List A) → List A
or_empty none = []
or_empty (some xs) = xs

abbrev set_if {ℓ} : {A : Type ℓ} → Option A → A → A
set_if none old = old
set_if (some new) old = new

abbrev values {ℓ κ} : {K : Type ℓ} {V : Type κ} → Dict K V → List V
values [] = []
values ((k, v) ∷ d) = v ∷ values d

-- `NewFake`
unfoldable pub new_fake : FakeClient
new_fake = record {
  users = [];
  profiles = [];
  certs = [];
  files = [];
  next_id = 1;
  profiles_defined = (codes "profile-open-2M-30d", true) ∷ [];
}

unfoldable pub list_users : Exec FakeClient (List User)
list_users f = (ok (values f.users), f)

unfoldable pub get_user : Text → Exec FakeClient User
get_user name f = (elim (lookup name f.users) [ none ↦ err mt_not_found | some u ↦ ok u ], f)

-- The state of a profile row is active.
abbrev pub is_active_state : UserProfile → Bool
is_active_state p = contains (to_lower p.state) (codes "active")

abbrev pub deactivate : UserProfile → UserProfile
deactivate p = if is_active_state p then record p { state = codes "expired" } else p

-- What is found behind an item that stays.
abbrev pub keep_item {ℓ} : {A : Type ℓ} → A → Option (Result (List A)) → Option (Result (List A))
keep_item p none = none
keep_item p (some (err e)) = some (err e)
keep_item p (some (ok qs)) = some (ok (p ∷ qs))

-- The rows without the first of this id, `none` where no row has it.
unfoldable pub remove_row : Text → List UserProfile → Option (Result (List UserProfile))
remove_row id [] = none
remove_row id (p ∷ ps) =
    let rest = remove_row id ps in
    if text_eq p.id id
    then (if is_active_state p
        then some (err (failure (codes "cannot remove active profile")))
        else some (ok ps))
    else keep_item p rest

-- The map after the rows of one user have been searched; the last argument is for the users behind.
abbrev pub removed_from :
    Option (Result (List UserProfile))
    → Text × List UserProfile
    → Dict Text (List UserProfile)
    → Option (Result (Dict Text (List UserProfile)))
    → Option (Result (Dict Text (List UserProfile)))
removed_from none entry d rest = keep_item entry rest
removed_from (some (err e)) entry d rest = some (err e)
removed_from (some (ok qs)) entry d rest = some (ok ((entry.0, qs) ∷ d))

-- The loops of `RemoveUserProfile`, over the users that are left.
unfoldable pub remove_profile_in :
    Text → Dict Text (List UserProfile) → Option (Result (Dict Text (List UserProfile)))
unfolding remove_row
remove_profile_in id [] = none
remove_profile_in id ((user, ps) ∷ d) =
    let rest = remove_profile_in id d in removed_from (remove_row id ps) (user, ps) d rest

-- How numbers and dates are written: `print_id n` is `fmt.Sprintf("%d", n)`, `end_of n` the date
-- that the n-th new row gets.
module _ (print_id : ℕ → Text) (end_of : ℕ → Text) where
  unfoldable pub add_user : Text → Text → Text → ℕ → Bool → Exec FakeClient ⊤
  add_user name password comment shared disabled f =
      if is_some (lookup name f.users)
      then (err mt_name_taken, f)
      else (let u : User = record {
        id = codes "*" ++ print_id f.next_id;
        name = name;
        password = password;
        shared_users = shared;
        comment = comment;
        disabled = disabled;
      } in
          (ok tt, record f { users = insert name u f.users; next_id = f.next_id + 1 }))

  unfoldable pub add_user_profile : Text → Text → Exec FakeClient ⊤
  add_user_profile user profile f =
      if not (elim (lookup profile f.profiles_defined) [ none ↦ false | some b ↦ b ])
      then (err mt_profile_missing, f)
      else (if not (is_some (lookup user f.users))
          then (err mt_not_found, f)
          else (let p : UserProfile = record {
            id = codes "*p" ++ print_id f.next_id;
            user = user;
            profile = profile;
            state = codes "active";
            end_time = end_of f.next_id;
          } in
              let rows = map deactivate (or_empty (lookup user f.profiles)) in
              (
                ok tt,
                record f {
                  profiles = insert user (rows ++ (p ∷ [])) f.profiles;
                  next_id = f.next_id + 1;
                },
              )))

unfoldable pub set_user : Text → Option Text → Option ℕ → Text → Option Bool → Exec FakeClient ⊤
set_user name password shared comment disabled f = elim (lookup name f.users) [
  | none ↦ (err mt_not_found, f)
  | some u ↦
      let u' : User = record u {
        password = set_if password u.password;
        shared_users = set_if shared u.shared_users;
        comment = comment;
        disabled = set_if disabled u.disabled;
      } in
      (ok tt, record f { users = insert name u' f.users })
]

unfoldable pub remove_user : Text → Exec FakeClient ⊤
remove_user name f =
    if not (is_some (lookup name f.users))
    then (err mt_not_found, f)
    else (ok tt, record f { users = erase name f.users; profiles = erase name f.profiles })

unfoldable pub list_user_profiles : Text → Exec FakeClient (List UserProfile)
list_user_profiles user f = (ok (or_empty (lookup user f.profiles)), f)

unfoldable pub remove_user_profile : Text → Exec FakeClient ⊤
unfolding remove_profile_in
remove_user_profile id f = elim (remove_profile_in id f.profiles) [
  | none ↦ (err mt_not_found, f)
  | some (err e) ↦ (err e, f)
  | some (ok d) ↦ (ok tt, record f { profiles = d })
]

-- `templateOvpnName`
abbrev pub template_ovpn_name : Text → Text
template_ovpn_name title = codes "open-vpns/config-" ++ (title ++ codes ".ovpn")

unfoldable pub generate_certificate : Text → Text → Text → Exec FakeClient ⊤
generate_certificate script title passphrase f =
    let body =
      codes "client"
      ++ (10 ∷ (codes "dev tun" ++ (10 ∷ (codes "# cert cl-" ++ (title ++ (10 ∷ [])))))) in
    (
      ok tt,
      record f {
        certs = insert title passphrase f.certs;
        files = insert (template_ovpn_name title) body f.files;
      },
    )

unfoldable pub read_file_contents : Text → Exec FakeClient Text
read_file_contents name f =
    (elim (lookup name f.files) [ none ↦ err mt_not_found | some b ↦ ok b ], f)

unfoldable pub write_file_contents : Text → Text → Exec FakeClient ⊤
write_file_contents name body f = (ok tt, record f { files = insert name body f.files })

unfoldable pub file_exists : Text → Exec FakeClient Bool
file_exists name f = (ok (is_some (lookup name f.files)), f)

abbrev pub fake_client : (ℕ → Text) → (ℕ → Text) → Client
fake_client print_id end_of = record {
  State = FakeClient;
  ping = λ f. (ok tt, f);
  list_users = list_users;
  get_user = get_user;
  add_user = add_user print_id end_of;
  set_user = set_user;
  remove_user = remove_user;
  list_user_profiles = list_user_profiles;
  add_user_profile = add_user_profile print_id end_of;
  remove_user_profile = remove_user_profile;
  generate_certificate = generate_certificate;
  read_file_contents = read_file_contents;
  write_file_contents = write_file_contents;
  file_exists = file_exists;
  invalidate_cache = λ f. f;
}
