-- ===== src/App/Sync.antt =====
-- The connections of a user as the router has them now, laid over the activations that are not
-- settled (backend/internal/app/shared_users_sync.go).
use fast_bypass.Base.{
  ℕ, Text, Bool, true, false, ◌&&◌, not, Option, none, some, List, [], ◌∷◌, ◌==◌, if◌then◌else◌,
  Dict, lookup, insert, text_key,
}
use fast_bypass.Result.{Exec, Result, ⊤, ok, err, pure, attempt, ignore, ◌>>=◌}
use fast_bypass.Mikrotik.{User}
use fast_bypass.Store.{ProfileActivation, RenewalSharedUsersRow}
use fast_bypass.App.State.{App, World, on_db, on_router}

-- The loop that fills the map: the last user of a name counts.
abbrev pub shared_users_map : Dict Text ℕ → List User → Dict Text ℕ
shared_users_map m [] = m
shared_users_map m (u ∷ us) = shared_users_map (insert u.name u.shared_users m) us

unfoldable pub live_shared_users : Dict Text ℕ → Text → ℕ → ℕ
live_shared_users m name db_fallback = elim (lookup name m) [ some v ↦ v | none ↦ db_fallback ]

-- The loop of `latestUnsettledPerUser`: the first open row of a name counts.
unfoldable pub latest_from : Dict Text ℕ → List RenewalSharedUsersRow → Dict Text ℕ
latest_from out [] = out
latest_from out (r ∷ rows) =
    latest_from
      (if r.is_settled then out else elim (lookup r.mikrotik_name out) [
        | some id ↦ out
        | none ↦ insert r.mikrotik_name r.id out
      ])
      rows

unfoldable pub latest_unsettled_per_user : List RenewalSharedUsersRow → Dict Text ℕ
unfolding latest_from
latest_unsettled_per_user = latest_from []

-- The fields of an activation in an answer.
pub record ActivationDto : Type 0 where
  pub id : ℕ
  pub profile_name : Text
  pub shared_users : ℕ
  pub currency : Text
  pub is_settled : Bool
  pub created_at : Text
  pub amount_paid : Option Text
  pub mikrotik_end_time : Option Text
  pub note : Option Text

abbrev pub activation_dto : ProfileActivation → ℕ → ActivationDto
activation_dto a shared_users = record {
  id = a.id;
  profile_name = a.profile_name;
  shared_users = shared_users;
  currency = a.currency;
  is_settled = a.is_settled;
  created_at = a.created_at;
  amount_paid = a.amount_paid;
  mikrotik_end_time = a.mikrotik_end_time;
  note = a.note;
}

-- `activationDTOs`
unfoldable pub activation_dtos : List ProfileActivation → List ActivationDto
activation_dtos [] = []
activation_dtos (a ∷ acts) = activation_dto a a.shared_users ∷ activation_dtos acts

module _ (A : App) where
  -- The users as the router has them now.
  unfoldable pub mikrotik_shared_users_by_name : Exec (World A) (Dict Text ℕ)
  mikrotik_shared_users_by_name = do
    users ← on_router A A.refresh_list_users
    pure (shared_users_map [] users)

  unfoldable pub sync_shared_users_to_unsettled_activation : ℕ → ℕ → Exec (World A) ⊤
  sync_shared_users_to_unsettled_activation meta_id shared_users =
      ignore
        (on_db A (A.store.update_latest_unsettled_activation_shared_users meta_id shared_users))

  -- The write of a count that the router has changed.
  abbrev pub write_back : ℕ → ℕ → ℕ → Exec (World A) ⊤
  write_back id old new =
      if new == old
      then pure tt
      else ignore (on_db A (A.store.update_activation_shared_users id new))

  -- The loop over the activations; the flag says that the newest open one has been seen.
  unfoldable pub live_dtos :
      Dict Text ℕ → Text → Bool → List ProfileActivation → Exec (World A) (List ActivationDto)
  unfolding live_shared_users
  live_dtos m name synced [] = pure []
  live_dtos m name synced (a ∷ acts) =
      let live = not a.is_settled && not synced in
      let su = if live then live_shared_users m name a.shared_users else a.shared_users in
      let rest = live_dtos m name (if live then true else synced) acts in
      (if live then write_back a.id a.shared_users su else pure tt) >>= λ _.
      rest >>= λ dtos. pure (activation_dto a su ∷ dtos)

  abbrev pub dtos_of :
      Result (Dict Text ℕ) → List ProfileActivation → Text → Exec (World A) (List ActivationDto)
  dtos_of (err e) acts name = pure (activation_dtos acts)
  dtos_of (ok m) acts name = live_dtos m name false acts

  unfoldable pub activation_dtos_with_live_shared :
      List ProfileActivation → Text → Exec (World A) (List ActivationDto)
  unfolding mikrotik_shared_users_by_name activation_dtos live_dtos
  activation_dtos_with_live_shared acts name = do
    m ← attempt mikrotik_shared_users_by_name
    dtos_of m acts name
