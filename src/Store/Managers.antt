-- ===== src/Store/Managers.antt =====
-- The statements on panel_admins and managers (backend/internal/store/store.go).
use fast_bypass.Base.{
  ℕ, ◌+◌, Text, Bool, true, ◌&&◌, ◌||◌, not, Option, none, some, List, [], ◌∷◌, ◌++◌, ◌==◌, lt_int,
  if◌then◌else◌,
}
use fast_bypass.Result.{Exec, Result, ⊤, ok, err, continue}
use fast_bypass.Store.Rows.{PanelAdmin, Manager, ManagerSlug}
use fast_bypass.Store.Tables.{
  Db, constraint_failed, nocase_eq, select, exists, update, count, or_old,
}

unfoldable pub admin_count : Db → Result ℕ
admin_count d = ok (count (λ _. true) d.panel_admins)

unfoldable pub create_admin : Text → Text → Exec Db ⊤
create_admin username hash d =
    if exists (λ (a : PanelAdmin). nocase_eq a.username username) d.panel_admins
    then (err constraint_failed, d)
    else (let a : PanelAdmin = record {
      id = d.next_admin;
      username = username;
      password_hash = hash;
      is_active = true;
    } in
        (
          ok tt,
          record d { panel_admins = d.panel_admins ++ (a ∷ []); next_admin = d.next_admin + 1 },
        ))

unfoldable pub find_admin_by_username : Text → Db → Result PanelAdmin
find_admin_by_username username d =
    select (λ (a : PanelAdmin). nocase_eq a.username username) d.panel_admins

unfoldable pub find_admin_by_id : ℕ → Db → Result PanelAdmin
find_admin_by_id id d = select (λ (a : PanelAdmin). a.id == id) d.panel_admins

unfoldable pub update_admin_password : ℕ → Text → Exec Db ⊤
update_admin_password id hash d = (
  ok tt,
  record d {
    panel_admins = update (λ a. a.id == id) (λ a. record a { password_hash = hash }) d.panel_admins;
  },
)

unfoldable pub find_manager_by_username : Text → Db → Result Manager
find_manager_by_username username d =
    select (λ (m : Manager). nocase_eq m.username username) d.managers

unfoldable pub find_manager_by_id : ℕ → Db → Result Manager
find_manager_by_id id d = select (λ (m : Manager). m.id == id) d.managers

unfoldable pub list_managers : Db → Result (List Manager)
list_managers d = ok d.managers

abbrev pub slug_rows : List Manager → List ManagerSlug
slug_rows [] = []
slug_rows (m ∷ ms) = record { id = m.id; slug = m.slug } ∷ slug_rows ms

unfoldable pub list_manager_slugs : Db → Result (List ManagerSlug)
list_manager_slugs d = ok (slug_rows d.managers)

-- The row gets its id and the column defaults; the id is the result.
unfoldable pub create_manager : Manager → Exec Db ℕ
create_manager m d =
    if exists (λ (r : Manager). nocase_eq r.username m.username || nocase_eq r.slug m.slug)
        d.managers
      || not (lt_int 0 m.quota)
    then (err constraint_failed, d)
    else (let r : Manager = record m {
      id = d.next_manager;
      is_active = true;
      created_at = d.now;
      updated_at = d.now;
    } in
        (
          ok d.next_manager,
          record d { managers = d.managers ++ (r ∷ []); next_manager = d.next_manager + 1 },
        ))

unfoldable pub update_manager_cert : ℕ → Text → Text → Exec Db ⊤
update_manager_cert id title key_pass d = (
  ok tt,
  record d {
    managers =
        update (λ m. m.id == id)
          (λ m. record m {
            cert_title = some title;
            cert_key_pass = some key_pass;
            updated_at = d.now;
          })
          d.managers;
  },
)

unfoldable pub clear_manager_cert : ℕ → Exec Db ⊤
clear_manager_cert id d = (
  ok tt,
  record d {
    managers =
        update (λ m. m.id == id)
          (λ m. record m { cert_title = none; cert_key_pass = none; updated_at = d.now })
          d.managers;
  },
)

-- The row that `UpdateManager` writes.
abbrev pub patched :
    Option Text → Option Text → Option ℕ → Option Bool → Option Text → Text → Manager → Manager
patched username display_name quota is_active password_hash now m = record m {
  username = or_old username m.username;
  display_name = or_old display_name m.display_name;
  quota = or_old quota m.quota;
  is_active = or_old is_active m.is_active;
  password_hash = or_old password_hash m.password_hash;
  updated_at = now;
}

-- The columns that `UPDATE managers SET …` writes.
abbrev pub write_columns : Manager → Manager → Manager
write_columns w r = record r {
  username = w.username;
  display_name = w.display_name;
  quota = w.quota;
  is_active = w.is_active;
  password_hash = w.password_hash;
  updated_at = w.updated_at;
}

unfoldable pub update_manager :
    ℕ → Option Text → Option Text → Option ℕ → Option Bool → Option Text → Exec Db ⊤
unfolding find_manager_by_id
update_manager id username display_name quota is_active password_hash d =
    continue {A = Manager} (find_manager_by_id id d)
      (λ m d.
        let w = patched username display_name quota is_active password_hash d.now m in
        if exists (λ (r : Manager). not (r.id == id) && nocase_eq r.username w.username) d.managers
          || not (lt_int 0 w.quota)
        then (err constraint_failed, d)
        else (ok tt, record d { managers = update (λ r. r.id == id) (write_columns w) d.managers }))
      d

unfoldable pub slug_exists : Text → ℕ → Db → Result Bool
slug_exists slug exclude_id d = ok (
    exists
      (λ (m : Manager). nocase_eq m.slug slug && not (lt_int 0 exclude_id && m.id == exclude_id))
      d.managers)
