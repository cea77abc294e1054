-- ===== src/App/Keeps/Slugs.antt =====
-- What every statement that writes to the tables of schema.sql keeps: no slug begins another.
use fast_bypass.Base.{
  ℕ, ◌≡◌, refl, sym, ap, subst, Text, Bool, true, false, Option, none, List, [], ◌∷◌, ◌++◌,
  Bool-cases, inl, inr, ◌||◌, ◌&&◌, not, ◌==◌, lt_int, arith, if◌then◌else◌,
}
use fast_bypass.Result.{Result, ok, err, continue}
use fast_bypass.Store.{
  sql_store, Manager, Db, constraint_failed, nocase_eq, exists, update, patched, write_columns,
  find_manager_by_id, create_admin, update_admin_password, create_manager, update_manager,
  update_manager_cert, clear_manager_cert, list_manager_slugs, slug_rows, create_vpn_meta,
  update_vpn_meta_cert, clear_vpn_meta_cert, update_vpn_meta, delete_vpn_meta, create_activation,
  update_latest_unsettled_activation_shared_users, update_activation_shared_users, settle_through,
}
use fast_bypass.Store.Writes.{Write, run_write}
use fast_bypass.Owner.{manager_infos, slug_overlaps}
use fast_bypass.Owner.Slugs.{IsSeparated, slugs, snoc-IsSeparated}
use fast_bypass.App.Service.{or_nil}
use fast_bypass.App.Keeps.{KeptByWrites}

-- No manager's slug begins another's.
abbrev pub IsSlugSeparated : Db → Type 0
IsSlugSeparated d = IsSeparated (manager_infos d.managers)

-- An update that writes neither ids nor slugs.
infos-update :
    (p : Manager → Bool) (f : Manager → Manager)
    → ((m : Manager) → ((f m).id ≡ m.id) × ((f m).slug ≡ m.slug))
    → (ms : List Manager) → manager_infos (update p f ms) ≡ manager_infos ms
infos-update p f k [] = refl
infos-update p f k (m ∷ ms) = ground (arith, infos-update p f k ms, k m)

update-IsSlugSeparated :
    (p : Manager → Bool) (f : Manager → Manager) (d : Db)
    → ((m : Manager) → ((f m).id ≡ m.id) × ((f m).slug ≡ m.slug))
    → IsSlugSeparated d
    → IsSeparated (manager_infos (update p f d.managers))
update-IsSlugSeparated p f d k h =
    subst (λ l. IsSeparated l) (sym (infos-update p f k d.managers)) h

pub infos-append :
    (ms : List Manager) (m : Manager)
    → manager_infos (ms ++ (m ∷ []))
      ≡ manager_infos ms ++ (record { id = m.id; slug = m.slug } ∷ [])
infos-append [] m = refl
infos-append (x ∷ ms) m = ap (λ l. record { id = x.id; slug = x.slug } ∷ l) (infos-append ms m)

pub slugs-infos : (ms : List Manager) → slugs (manager_infos ms) ≡ slug_rows ms
slugs-infos [] = refl
slugs-infos (m ∷ ms) = ap (λ l. record { id = m.id; slug = m.slug } ∷ l) (slugs-infos ms)

pub run_write-managers : (s : Write) (d : Db) → (run_write s d).managers ≡ d.managers
unfolding create_vpn_meta update_vpn_meta_cert clear_vpn_meta_cert update_vpn_meta delete_vpn_meta
    create_activation update_latest_unsettled_activation_shared_users update_activation_shared_users
    settle_through
run_write-managers s d = ground arith

create_admin-managers :
    (name hash : Text) (d : Db) → (create_admin name hash d).1.managers ≡ d.managers
unfolding create_admin
create_admin-managers name hash d = ground arith

update_manager-IsSlugSeparated :
    (id : ℕ) (u n : Option Text) (q : Option ℕ) (a : Option Bool) (k : Option Text) (d : Db)
    → IsSlugSeparated d
    → IsSlugSeparated (update_manager id u n q a k d).1
unfolding update_manager
update_manager-IsSlugSeparated id u n q a k d h = go (find_manager_by_id id d)
  where
    go :
        (r : Result Manager)
        → IsSlugSeparated
            (continue r
              (λ m d.
                let w = patched u n q a k d.now m in
                if exists
                    (λ (r : Manager). not (r.id == id) && nocase_eq r.username w.username)
                    d.managers
                  || not (lt_int 0 w.quota)
                then (err constraint_failed, d)
                else (
                  ok tt,
                  record d { managers = update (λ r. r.id == id) (write_columns w) d.managers },
                ))
              d).1
    go (err e) = h
    go (ok m) =
        let w = patched u n q a k d.now m in
        elim (Bool-cases (
          exists (λ (r : Manager). not (r.id == id) && nocase_eq r.username w.username) d.managers
          || not (lt_int 0 w.quota))) [
            | inl e ↦ rw e h
            | inr e ↦
                rw e (
                  update-IsSlugSeparated (λ r. r.id == id) (write_columns w) d (λ r. (refl, refl))
                    h)
          ]

create_manager-IsSlugSeparated :
    (m : Manager) (d : Db)
    → slug_overlaps m.slug (or_nil (list_manager_slugs d)) 0 ≡ false
    → IsSlugSeparated d
    → IsSlugSeparated (create_manager m d).1
unfolding create_manager list_manager_slugs
create_manager-IsSlugSeparated m d e h =
    elim (Bool-cases (
      exists (λ (r : Manager). nocase_eq r.username m.username || nocase_eq r.slug m.slug)
        d.managers
      || not (lt_int 0 m.quota))) [
        | inl k ↦ rw k h
        | inr k ↦ rw k (
            subst (λ l. IsSeparated l)
              (sym (
                infos-append d.managers (record m {
                  id = d.next_manager;
                  is_active = true;
                  created_at = d.now;
                  updated_at = d.now;
                })))
              (snoc-IsSeparated (manager_infos d.managers)
                (record { id = d.next_manager; slug = m.slug }) h (rw (slugs-infos d.managers) e)))
      ]

write-IsSlugSeparated : (s : Write) (d : Db) → IsSlugSeparated d → IsSlugSeparated (run_write s d)
write-IsSlugSeparated s d h =
    subst (λ ms. IsSeparated (manager_infos ms)) (sym (run_write-managers s d)) h

pub slugs-Kept : KeptByWrites sql_store IsSlugSeparated
unfolding update_admin_password update_manager_cert clear_manager_cert
slugs-Kept = record {
  by_managers = record {
    update_admin_password = λ id hash d h. h;
    update_own = λ id n h. update_manager-IsSlugSeparated id none n none none h;
    create_vpn_meta = λ m. write-IsSlugSeparated (Write.create_vpn_meta m);
    update_vpn_meta_cert = λ id t p. write-IsSlugSeparated (Write.update_vpn_meta_cert id t p);
    clear_vpn_meta_cert = λ id. write-IsSlugSeparated (Write.clear_vpn_meta_cert id);
    update_vpn_meta = λ id c n m. write-IsSlugSeparated (Write.update_vpn_meta id c n m);
    delete_vpn_meta = λ id. write-IsSlugSeparated (Write.delete_vpn_meta id);
    create_activation = λ a. write-IsSlugSeparated (Write.create_activation a);
    update_latest_unsettled_activation_shared_users =
        λ id n. write-IsSlugSeparated (Write.update_latest_unsettled_activation_shared_users id n);
    update_activation_shared_users =
        λ id n. write-IsSlugSeparated (Write.update_activation_shared_users id n);
  };
  create_admin = λ name hash d h.
      subst (λ ms. IsSeparated (manager_infos ms)) (sym (create_admin-managers name hash d)) h;
  create_manager = create_manager-IsSlugSeparated;
  update_manager_cert =
      λ id t p d h. update-IsSlugSeparated (λ m. m.id == id) _ d (λ m. (refl, refl)) h;
  clear_manager_cert = λ id d h. update-IsSlugSeparated (λ m. m.id == id) _ d (λ m. (refl, refl)) h;
  update_manager = update_manager-IsSlugSeparated;
  settle_through = λ id t. write-IsSlugSeparated (Write.settle_through id t);
}
