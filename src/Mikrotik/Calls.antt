-- ===== src/Mikrotik/Calls.antt =====
-- The calls of the interface Client as data, and what the panel expects of a router that nobody
-- else changes: reads change nothing, a call that fails changes nothing, `GetUser` is a search
-- through `ListUsers`, and work on certificates and files leaves users and profiles alone.
use fast_bypass.Base.{
  ℕ, ◌≡◌, Text, text_eq, Bool, true, false, Option, List, [], ◌∷◌, if◌then◌else◌,
}
use fast_bypass.Result.{Result, Error, ok, err, mt_not_found}
use fast_bypass.Mikrotik.Types.{User, UserProfile, Client}

pub data Call : Type 0 where
  ping : Call
  list_users : Call
  get_user : Text → Call
  add_user : Text → Text → Text → ℕ → Bool → Call
  set_user : Text → Option Text → Option ℕ → Text → Option Bool → Call
  remove_user : Text → Call
  list_user_profiles : Text → Call
  add_user_profile : Text → Text → Call
  remove_user_profile : Text → Call
  generate_certificate : Text → Text → Text → Call
  read_file_contents : Text → Call
  write_file_contents : Text → Text → Call
  file_exists : Text → Call

pub data Reply : Type 0 where
  done : Reply
  users : List User → Reply
  user : User → Reply
  profiles : List UserProfile → Reply
  contents : Text → Reply
  found : Bool → Reply
  failed : Error → Reply

abbrev pub reply : {A : Type 0} → (A → Reply) → Result A → Reply
reply f (ok a) = f a
reply f (err e) = failed e

abbrev pub replied : {S A : Type 0} → (A → Reply) → Result A × S → Reply × S
replied f (r, s) = (reply f r, s)

abbrev pub run_call : (C : Client) → Call → C.State → Reply × C.State
run_call C ping s = replied (λ _. done) (C.ping s)
run_call C list_users s = replied users (C.list_users s)
run_call C (get_user name) s = replied user (C.get_user name s)
run_call C (add_user name password comment shared disabled) s =
    replied (λ _. done) (C.add_user name password comment shared disabled s)
run_call C (set_user name password shared comment disabled) s =
    replied (λ _. done) (C.set_user name password shared comment disabled s)
run_call C (remove_user name) s = replied (λ _. done) (C.remove_user name s)
run_call C (list_user_profiles name) s = replied profiles (C.list_user_profiles name s)
run_call C (add_user_profile name profile) s =
    replied (λ _. done) (C.add_user_profile name profile s)
run_call C (remove_user_profile id) s = replied (λ _. done) (C.remove_user_profile id s)
run_call C (generate_certificate script title pass) s =
    replied (λ _. done) (C.generate_certificate script title pass s)
run_call C (read_file_contents name) s = replied contents (C.read_file_contents name s)
run_call C (write_file_contents name body) s =
    replied (λ _. done) (C.write_file_contents name body s)
run_call C (file_exists name) s = replied found (C.file_exists name s)

-- The calls that only read.
abbrev pub is_read : Call → Bool
is_read ping = true
is_read list_users = true
is_read (get_user _) = true
is_read (list_user_profiles _) = true
is_read (read_file_contents _) = true
is_read (file_exists _) = true
is_read _ = false

-- The calls that write users or profile rows.
abbrev pub is_user_write : Call → Bool
is_user_write (add_user _ _ _ _ _) = true
is_user_write (set_user _ _ _ _ _) = true
is_user_write (remove_user _) = true
is_user_write (add_user_profile _ _) = true
is_user_write (remove_user_profile _) = true
is_user_write _ = false

abbrev pub first_named : Text → List User → Result User
first_named name [] = err mt_not_found
first_named name (u ∷ us) = if text_eq u.name name then ok u else first_named name us

abbrev pub search_user : Text → Result (List User) → Result User
search_user name (err e) = err e
search_user name (ok us) = first_named name us

pub record IsSteady (C : Client) : Type 1 where
  -- The states that occur.
  pub Valid : C.State → Type 0
  pub keeps : (k : Call) (s : C.State) → Valid s → Valid (run_call C k s).1
  pub reads : (k : Call) (s : C.State) → is_read k ≡ true → (run_call C k s).1 ≡ s
  pub fails :
      (k : Call) (s : C.State) (e : Error) → (run_call C k s).0 ≡ failed e → (run_call C k s).1 ≡ s
  pub searches :
      (name : Text) (s : C.State)
      → Valid s
      → (C.get_user name s).0 ≡ search_user name (C.list_users s).0
  pub users_stay :
      (k : Call) (s : C.State)
      → is_user_write k ≡ false
      → (C.list_users (run_call C k s).1).0 ≡ (C.list_users s).0
  pub profiles_stay :
      (k : Call) (s : C.State) (name : Text)
      → is_user_write k ≡ false
      → (C.list_user_profiles name (run_call C k s).1).0 ≡ (C.list_user_profiles name s).0
  pub invalidates : (s : C.State) → C.invalidate_cache s ≡ s
