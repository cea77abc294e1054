-- ===== src/App/Keeps/Accounting.antt =====
-- What the statements that a manager's requests reach keep: the accounts, but for display names,
-- passwords and times.
use fast_bypass.Base.{
  ==→≡, ap₂, subst, false, ℕ, ◌≡◌, refl, sym, ap, ◌∙◌, Text, Option, none, List, [], ◌∷◌, Bool,
  Bool-cases, inl, inr, ◌||◌, ◌&&◌, not, ◌==◌, lt_int, if◌then◌else◌, arith,
}
use fast_bypass.Result.{Result, ok, err, continue}
use fast_bypass.Store.{
  sql_store, PanelAdmin, Manager, Db, constraint_failed, nocase_eq, exists, update, patched,
  write_columns, find_manager_by_id, update_admin_password, update_manager, create_vpn_meta,
  update_vpn_meta_cert, clear_vpn_meta_cert, update_vpn_meta, delete_vpn_meta, create_activation,
  update_latest_unsettled_activation_shared_users, update_activation_shared_users, settle_through,
  select,
}
use fast_bypass.Store.Writes.{Write, run_write}
use fast_bypass.App.Keeps.{KeptByManagers}
use fast_bypass.App.Keeps.Slugs.{run_write-managers}

-- What is left of a manager's row without his display name, his password and the time of the
-- last change.
abbrev pub fixed : Manager → Manager
fixed m = record m { display_name = []; password_hash = []; updated_at = [] }

abbrev pub fixed_rows : List Manager → List Manager
fixed_rows [] = []
fixed_rows (m ∷ ms) = fixed m ∷ fixed_rows ms

abbrev pub fixed_admin : PanelAdmin → PanelAdmin
fixed_admin a = record a { password_hash = [] }

abbrev pub fixed_admins : List PanelAdmin → List PanelAdmin
fixed_admins [] = []
fixed_admins (a ∷ rows) = fixed_admin a ∷ fixed_admins rows

-- The managers and the admins are those of the first database: no row is new or gone, and none has
-- another id, name, slug, quota or certificate, or is switched on or off.
abbrev pub HasSameAccounts : Db → Db → Type 0
HasSameAccounts d e =
    (fixed_rows e.managers ≡ fixed_rows d.managers)
    × (fixed_admins e.panel_admins ≡ fixed_admins d.panel_admins)

run_write-panel_admins : (s : Write) (d : Db) → (run_write s d).panel_admins ≡ d.panel_admins
unfolding create_vpn_meta update_vpn_meta_cert clear_vpn_meta_cert update_vpn_meta delete_vpn_meta
    create_activation update_latest_unsettled_activation_shared_users update_activation_shared_users
    settle_through
run_write-panel_admins s d = ground arith

fixed_admins-update :
    (p : PanelAdmin → Bool) (hash : Text) (rows : List PanelAdmin)
    → fixed_admins (update p (λ a. record a { password_hash = hash }) rows) ≡ fixed_admins rows
fixed_admins-update p hash [] = refl
fixed_admins-update p hash (a ∷ rows) = elim (Bool-cases (p a)) [
  | inl e ↦ rw e (ap (λ l. fixed_admin a ∷ l) (fixed_admins-update p hash rows))
  | inr e ↦ rw e (ap (λ l. fixed_admin a ∷ l) (fixed_admins-update p hash rows))
]

-- No two rows of the table have one id.
abbrev pub IsKeyed : List Manager → Type 0
IsKeyed [] = Unit
IsKeyed (m ∷ ms) = (exists (λ (r : Manager). r.id == m.id) ms ≡ false) × IsKeyed ms

fixed_rows-update_none :
    (id : ℕ) (f : Manager → Manager) (ms : List Manager)
    → exists (λ (r : Manager). r.id == id) (fixed_rows ms) ≡ false
    → fixed_rows (update (λ r. r.id == id) f ms) ≡ fixed_rows ms
fixed_rows-update_none id f [] h = refl
fixed_rows-update_none id f (m ∷ ms) h = elim (Bool-cases (m.id == id)) [
  | inl e ↦ cc (rw e at h)
  | inr e ↦ rw e (ap (λ l. fixed m ∷ l) (fixed_rows-update_none id f ms (rw e at h)))
]

-- The row of the id gets the columns of a row that has its name, quota and activity.
fixed_rows-write :
    (id : ℕ) (m w : Manager) (ms : List Manager)
    → select (λ (r : Manager). r.id == id) ms ≡ ok m
    → IsKeyed (fixed_rows ms)
    → w.username ≡ m.username
    → w.quota ≡ m.quota
    → w.is_active ≡ m.is_active
    → fixed_rows (update (λ r. r.id == id) (write_columns w) ms) ≡ fixed_rows ms
fixed_rows-write id m w [] h k name quota active = refl
fixed_rows-write id m w (r ∷ ms) h k name quota active = elim (Bool-cases (r.id == id)) [
  | inl e ↦
      let same : r ≡ m = cc (rw e at h) in
      let here : fixed (write_columns w r) ≡ fixed r = rw (name, quota, active, same) refl in
      let rest : fixed_rows (update (λ r. r.id == id) (write_columns w) ms) ≡ fixed_rows ms =
        fixed_rows-update_none id (write_columns w) ms (rw (==→≡ r.id id e) at k.0) in
      rw e (ap₂ (λ x l. x ∷ l) here rest)
  | inr e ↦
      rw e (ap (λ l. fixed r ∷ l) (fixed_rows-write id m w ms (rw e at h) k.1 name quota active))
]

update_own-fixed_rows :
    (id : ℕ) (n h : Option Text) (d : Db)
    → IsKeyed (fixed_rows d.managers)
    → fixed_rows (update_manager id none n none none h d).1.managers ≡ fixed_rows d.managers
unfolding update_manager
update_own-fixed_rows id n h d k = go (find_manager_by_id id d) refl
  where
    go :
        (r : Result Manager)
        → find_manager_by_id id d ≡ r
        → fixed_rows
            (continue r
              (λ m d.
                let w = patched none n none none h d.now m in
                if exists
                    (λ (r : Manager). not (r.id == id) && nocase_eq r.username w.username)
                    d.managers
                  || not (lt_int 0 w.quota)
                then (err constraint_failed, d)
                else (
                  ok tt,
                  record d { managers = update (λ r. r.id == id) (write_columns w) d.managers },
                ))
              d).1.managers
          ≡ fixed_rows d.managers
    go (err e) found = refl
    go (ok m) found =
        elim (Bool-cases (
          exists (λ (r : Manager). not (r.id == id) && nocase_eq r.username m.username) d.managers
          || not (lt_int 0 m.quota))) [
            | inl e ↦ rw e refl
            | inr e ↦ rw e (
                fixed_rows-write id m (patched none n none none h d.now m) d.managers found k refl
                  refl refl)
          ]

update_own-panel_admins :
    (id : ℕ) (n h : Option Text) (d : Db)
    → (update_manager id none n none none h d).1.panel_admins ≡ d.panel_admins
unfolding update_manager
update_own-panel_admins id n h d = ground arith

module _ (d : Db) where
  -- The accounts of the first database, and the ids without a repetition.
  abbrev pub KeepsAccounts : Db → Type 0
  KeepsAccounts e = HasSameAccounts d e × IsKeyed (fixed_rows e.managers)

  written :
      (e e' : Db)
      → fixed_rows e'.managers ≡ fixed_rows e.managers
      → fixed_admins e'.panel_admins ≡ fixed_admins e.panel_admins
      → KeepsAccounts e
      → KeepsAccounts e'
  written e e' m a h = ((m ∙ h.0.0, a ∙ h.0.1), subst IsKeyed (sym m) h.1)

  by_write : (s : Write) (e : Db) → KeepsAccounts e → KeepsAccounts (run_write s e)
  by_write s e =
      written e (run_write s e) (ap fixed_rows (run_write-managers s e))
        (ap fixed_admins (run_write-panel_admins s e))

  pub accounts-Kept : KeptByManagers sql_store KeepsAccounts
  unfolding update_admin_password
  accounts-Kept = record {
    update_admin_password = λ id hash e.
        written e (update_admin_password id hash e).1 refl
          (fixed_admins-update (λ a. a.id == id) hash e.panel_admins);
    update_own = λ id n h e k.
        written e (update_manager id none n none none h e).1 (update_own-fixed_rows id n h e k.1)
          (ap fixed_admins (update_own-panel_admins id n h e)) k;
    create_vpn_meta = λ m. by_write (Write.create_vpn_meta m);
    update_vpn_meta_cert = λ id t p. by_write (Write.update_vpn_meta_cert id t p);
    clear_vpn_meta_cert = λ id. by_write (Write.clear_vpn_meta_cert id);
    update_vpn_meta = λ id c n m. by_write (Write.update_vpn_meta id c n m);
    delete_vpn_meta = λ id. by_write (Write.delete_vpn_meta id);
    create_activation = λ a. by_write (Write.create_activation a);
    update_latest_unsettled_activation_shared_users =
        λ id n. by_write (Write.update_latest_unsettled_activation_shared_users id n);
    update_activation_shared_users = λ id n. by_write (Write.update_activation_shared_users id n);
  }
