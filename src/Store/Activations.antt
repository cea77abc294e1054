-- ===== src/Store/Activations.antt =====
-- The statements on profile_activations (backend/internal/store/store.go).
use fast_bypass.Base.{
  ℕ, ◌+◌, Text, codes, text_eq, Bool, true, false, ◌&&◌, ◌||◌, not, Option, none, some, List, [],
  ◌∷◌, ◌++◌, ◌==◌, lt_int, if◌then◌else◌,
}
use fast_bypass.Result.{Exec, Result, ⊤, Error, ok, err, failure, ask, pure, raise, ◌>>=◌, ◌>>◌}
use fast_bypass.Store.Rows.{PanelAdmin, VpnUserMeta, ProfileActivation, RenewalThrough}
use fast_bypass.Store.Tables.{
  Db, constraint_failed, select, exists, where_rows, update, count, opt_eq, is_null, text_lt,
}
use fast_bypass.Store.Metas.{find_vpn_meta_by_id}

unfoldable pub create_activation : ProfileActivation → Exec Db ℕ
create_activation a d =
    if not (exists (λ (m : VpnUserMeta). m.id == a.vpn_user_meta_id) d.vpn_user_meta)
      || not (lt_int 0 a.shared_users)
    then (err constraint_failed, d)
    else (let r : ProfileActivation = record a {
      id = d.next_activation;
      is_settled = false;
      settled_at = none;
      settled_by_admin_id = none;
      created_at = d.now;
    } in
        (
          ok d.next_activation,
          record d {
            profile_activations = d.profile_activations ++ (r ∷ []);
            next_activation = d.next_activation + 1;
          },
        ))

-- The row goes behind those that were made later (`ORDER BY created_at DESC`).
abbrev newer_first : ProfileActivation → List ProfileActivation → List ProfileActivation
newer_first a [] = a ∷ []
newer_first a (b ∷ bs) =
    if text_lt a.created_at b.created_at then b ∷ newer_first a bs else a ∷ b ∷ bs

abbrev by_created_desc : List ProfileActivation → List ProfileActivation
by_created_desc [] = []
by_created_desc (a ∷ as_) = newer_first a (by_created_desc as_)

unfoldable pub list_activations_by_meta_id : ℕ → Db → Result (List ProfileActivation)
list_activations_by_meta_id meta_id d = ok (
    by_created_desc
      (where_rows (λ (a : ProfileActivation). a.vpn_user_meta_id == meta_id) d.profile_activations))

-- Whether the first row comes before the second in `ORDER BY created_at DESC, id DESC`.
abbrev pub is_newer : ProfileActivation → ProfileActivation → Bool
is_newer a b =
    text_lt b.created_at a.created_at || text_eq a.created_at b.created_at && lt_int b.id a.id

abbrev newer_of : ProfileActivation → Option ProfileActivation → Option ProfileActivation
newer_of a none = some a
newer_of a (some b) = if is_newer b a then some b else some a

-- `ORDER BY created_at DESC, id DESC LIMIT 1`
abbrev pub newest : List ProfileActivation → Option ProfileActivation
newest [] = none
newest (a ∷ rows) = newer_of a (newest rows)

abbrev pub is_open_of : ℕ → ProfileActivation → Bool
is_open_of meta_id a = a.vpn_user_meta_id == meta_id && not a.is_settled

-- The new value breaks the CHECK of the column if a row would get it.
abbrev pub write_shared_users : ℕ → ℕ → Exec Db ⊤
write_shared_users id shared_users d =
    if exists (λ (a : ProfileActivation). a.id == id) d.profile_activations
      && not (lt_int 0 shared_users)
    then (err constraint_failed, d)
    else (
      ok tt,
      record d {
        profile_activations =
            update (λ a. a.id == id) (λ a. record a { shared_users = shared_users })
              d.profile_activations;
      },
    )

abbrev pub write_newest : Option ProfileActivation → ℕ → Exec Db ⊤
write_newest none shared_users = pure tt
write_newest (some a) shared_users = write_shared_users a.id shared_users

unfoldable pub update_latest_unsettled_activation_shared_users : ℕ → ℕ → Exec Db ⊤
update_latest_unsettled_activation_shared_users meta_id shared_users d =
    write_newest (newest (where_rows (is_open_of meta_id) d.profile_activations)) shared_users d

unfoldable pub update_activation_shared_users : ℕ → ℕ → Exec Db ⊤
update_activation_shared_users id shared_users = write_shared_users id shared_users

unfoldable pub find_activation_by_id : ℕ → Db → Result ProfileActivation
find_activation_by_id id d = select (λ (a : ProfileActivation). a.id == id) d.profile_activations

-- The scope test of `SettleThrough`, before anything is written: the error of a row outside it.
abbrev pub scope_error : RenewalThrough → Option ℕ → Option Error
scope_error t owner =
    if t.orphan_only
    then (if is_null owner then none else some (failure (codes "not in orphan scope")))
    else elim t.manager_id [
      | none ↦ none
      | some id ↦ if opt_eq owner id then none else some (failure (codes "not in manager scope"))
    ]

-- `scopeSQL`: the owners that the update reaches. `SettleThrough` without an id and without
-- `OrphanOnly`, where the code follows a nil pointer, is not called.
abbrev pub in_scope : RenewalThrough → Option ℕ → Bool
in_scope t owner =
    if t.orphan_only
    then is_null owner
    else elim t.manager_id [ none ↦ false | some id ↦ opt_eq owner id ]

-- The condition of the update: not settled, of a user in the scope, and not after the given row.
abbrev pub settles :
    RenewalThrough → ProfileActivation → List VpnUserMeta → ProfileActivation → Bool
settles t act metas a =
    not a.is_settled
    && exists (λ (m : VpnUserMeta). m.id == a.vpn_user_meta_id && in_scope t m.manager_id) metas
    && (text_lt a.created_at act.created_at
        || text_eq a.created_at act.created_at && not (lt_int act.id a.id))

abbrev pub settled : ℕ → Text → ProfileActivation → ProfileActivation
settled admin_id now a = record a {
  is_settled = true;
  settled_at = some now;
  settled_by_admin_id = some admin_id;
}

-- The update; the admin must be a row of panel_admins if a row is to name him.
abbrev pub settle_rows : ℕ → RenewalThrough → ProfileActivation → Exec Db ℕ
settle_rows admin_id t act d =
    let p = settles t act d.vpn_user_meta in
    if exists p d.profile_activations
      && not (exists (λ (a : PanelAdmin). a.id == admin_id) d.panel_admins)
    then (err constraint_failed, d)
    else (
      ok (count p d.profile_activations),
      record d { profile_activations = update p (settled admin_id d.now) d.profile_activations },
    )

abbrev pub raise_error : Option Error → Exec Db ⊤
raise_error none = pure tt
raise_error (some e) = raise e

unfoldable pub settle_through : ℕ → RenewalThrough → Exec Db ℕ
settle_through admin_id t = do
  act ← ask (find_activation_by_id t.activation_id)
  meta ← ask (find_vpn_meta_by_id act.vpn_user_meta_id)
  raise_error (scope_error t meta.manager_id)
  settle_rows admin_id t act
