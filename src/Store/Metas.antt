-- ===== src/Store/Metas.antt =====
-- The statements on vpn_user_meta (backend/internal/store/store.go).
use fast_bypass.Base.{
  ℕ, ◌+◌, Text, text_eq, Bool, true, false, ◌||◌, not, Dict, insert, text_key, Option, none, some,
  List, [], ◌∷◌, ◌++◌, ◌==◌, if◌then◌else◌,
}
use fast_bypass.Result.{Exec, Result, ⊤, ok, err, ask, ◌>>=◌}
use fast_bypass.Store.Rows.{Manager, VpnUserMeta, ProfileActivation}
use fast_bypass.Store.Tables.{
  Db, constraint_failed, select, exists, where_rows, update, count, opt_eq, or_kept,
}

-- `REFERENCES managers(id)`: NULL, or the id of a row.
abbrev pub manager_exists : Option ℕ → Db → Bool
manager_exists none d = true
manager_exists (some id) d = exists (λ (m : Manager). m.id == id) d.managers

unfoldable pub find_vpn_meta_by_id : ℕ → Db → Result VpnUserMeta
find_vpn_meta_by_id id d = select (λ (m : VpnUserMeta). m.id == id) d.vpn_user_meta

unfoldable pub find_vpn_meta_by_name : Text → Db → Result VpnUserMeta
find_vpn_meta_by_name name d =
    select (λ (m : VpnUserMeta). text_eq m.mikrotik_name name) d.vpn_user_meta

abbrev member : Text → List Text → Bool
member name [] = false
member name (n ∷ names) = text_eq name n || member name names

abbrev by_name : Dict Text VpnUserMeta → List VpnUserMeta → Dict Text VpnUserMeta
by_name out [] = out
by_name out (m ∷ metas) = by_name (insert m.mikrotik_name m out) metas

-- The rows of the names, by name.
unfoldable pub find_vpn_metas_by_names : List Text → Db → Dict Text VpnUserMeta
find_vpn_metas_by_names names d =
    by_name [] (where_rows (λ (m : VpnUserMeta). member m.mikrotik_name names) d.vpn_user_meta)

unfoldable pub create_vpn_meta : VpnUserMeta → Exec Db ℕ
create_vpn_meta m d =
    if exists (λ (r : VpnUserMeta). text_eq r.mikrotik_name m.mikrotik_name) d.vpn_user_meta
      || not (manager_exists m.manager_id d)
    then (err constraint_failed, d)
    else (let r : VpnUserMeta = record m {
      id = d.next_meta;
      created_at = d.now;
      updated_at = d.now;
    } in
        (
          ok d.next_meta,
          record d { vpn_user_meta = d.vpn_user_meta ++ (r ∷ []); next_meta = d.next_meta + 1 },
        ))

unfoldable pub update_vpn_meta_cert : ℕ → Text → Text → Exec Db ⊤
update_vpn_meta_cert id title key_pass d = (
  ok tt,
  record d {
    vpn_user_meta =
        update (λ m. m.id == id)
          (λ m. record m {
            cert_title = some title;
            cert_key_pass = some key_pass;
            updated_at = d.now;
          })
          d.vpn_user_meta;
  },
)

unfoldable pub clear_vpn_meta_cert : ℕ → Exec Db ⊤
clear_vpn_meta_cert id d = (
  ok tt,
  record d {
    vpn_user_meta =
        update (λ m. m.id == id)
          (λ m. record m { cert_title = none; cert_key_pass = none; updated_at = d.now })
          d.vpn_user_meta;
  },
)

-- The update, from the row that was found.
abbrev pub write_vpn_meta : ℕ → Option Text → Option Text → Option ℕ → VpnUserMeta → Exec Db ⊤
write_vpn_meta id contact_info notes manager_id cur d =
    let owner = or_kept manager_id cur.manager_id in
    if not (manager_exists owner d) then (err constraint_failed, d) else (
      ok tt,
      record d {
        vpn_user_meta =
            update (λ m. m.id == id)
              (λ m. record m {
                contact_info = or_kept contact_info cur.contact_info;
                notes = or_kept notes cur.notes;
                manager_id = owner;
                updated_at = d.now;
              })
              d.vpn_user_meta;
      },
    )

unfoldable pub update_vpn_meta : ℕ → Option Text → Option Text → Option ℕ → Exec Db ⊤
unfolding find_vpn_meta_by_id
update_vpn_meta id contact_info notes manager_id = do
  cur ← ask (find_vpn_meta_by_id id)
  write_vpn_meta id contact_info notes manager_id cur

-- The activations of the row go with it (`ON DELETE CASCADE`).
unfoldable pub delete_vpn_meta : ℕ → Exec Db ⊤
delete_vpn_meta id d = (
  ok tt,
  record d {
    vpn_user_meta = where_rows (λ (m : VpnUserMeta). not (m.id == id)) d.vpn_user_meta;
    profile_activations =
        where_rows (λ (a : ProfileActivation). not (a.vpn_user_meta_id == id))
          d.profile_activations;
  },
)

unfoldable pub manager_vpn_count : ℕ → Db → Result ℕ
manager_vpn_count manager_id d =
    ok (count (λ (m : VpnUserMeta). opt_eq m.manager_id manager_id) d.vpn_user_meta)
