-- ===== src/Store/Writes.antt =====
-- The statements that write, as data, and the links between the tables that they keep.
use fast_bypass.Base.{
  ℕ, ◌≡◌, refl, ◌∙◌, Text, Bool, true, false, ◌&&◌, not, Option, none, some, List, [], ◌∷◌, ◌++◌,
  ◌==◌, arith, lt_int, Bool-cases, inl, inr,
}
use fast_bypass.Result.{Exec, Result, Error, ok, err, ask, continue, ◌>>=◌}
use fast_bypass.Store.Rows.{PanelAdmin, VpnUserMeta, ProfileActivation, RenewalThrough}
use fast_bypass.Store.Tables.{Db, exists, where_rows, update, or_kept}
use fast_bypass.Store.Metas
use fast_bypass.Store.Metas.{manager_exists, write_vpn_meta, find_vpn_meta_by_id}
use fast_bypass.Store.Activations
use fast_bypass.Store.Activations.{
  settles, settled, settle_rows, write_shared_users, write_newest, newest, is_open_of, raise_error,
  scope_error, find_activation_by_id,
}

pub data Write : Type 0 where
  create_vpn_meta : VpnUserMeta → Write
  update_vpn_meta_cert : ℕ → Text → Text → Write
  clear_vpn_meta_cert : ℕ → Write
  update_vpn_meta : ℕ → Option Text → Option Text → Option ℕ → Write
  delete_vpn_meta : ℕ → Write
  create_activation : ProfileActivation → Write
  update_latest_unsettled_activation_shared_users : ℕ → ℕ → Write
  update_activation_shared_users : ℕ → ℕ → Write
  settle_through : ℕ → RenewalThrough → Write

-- The database after the statement, whether it failed or not.
abbrev pub run_write : Write → Db → Db
run_write (Write.create_vpn_meta m) d = (Metas.create_vpn_meta m d).1
run_write (Write.update_vpn_meta_cert id t p) d = (Metas.update_vpn_meta_cert id t p d).1
run_write (Write.clear_vpn_meta_cert id) d = (Metas.clear_vpn_meta_cert id d).1
run_write (Write.update_vpn_meta id c n m) d = (Metas.update_vpn_meta id c n m d).1
run_write (Write.delete_vpn_meta id) d = (Metas.delete_vpn_meta id d).1
run_write (Write.create_activation a) d = (Activations.create_activation a d).1
run_write (Write.update_latest_unsettled_activation_shared_users id n) d =
    (Activations.update_latest_unsettled_activation_shared_users id n d).1
run_write (Write.update_activation_shared_users id n) d =
    (Activations.update_activation_shared_users id n d).1
run_write (Write.settle_through id t) d = (Activations.settle_through id t d).1

-- A row has this id.
abbrev pub has_meta : ℕ → List VpnUserMeta → Bool
has_meta id = exists (λ (m : VpnUserMeta). m.id == id)

-- Every activation is of a user that has a row.
abbrev pub AllLinked : List VpnUserMeta → List ProfileActivation → Type 0
AllLinked metas [] = Unit
AllLinked metas (a ∷ acts) = (has_meta a.vpn_user_meta_id metas ≡ true) × AllLinked metas acts

abbrev pub IsLinked : Db → Type 0
IsLinked d = AllLinked d.vpn_user_meta d.profile_activations

has_meta-append :
    (id : ℕ) (ms : List VpnUserMeta) (m : VpnUserMeta)
    → has_meta id ms ≡ true
    → has_meta id (ms ++ (m ∷ [])) ≡ true
has_meta-append id [] m h = absurd (cc)
has_meta-append id (x ∷ ms) m h = ground (arith, has_meta-append id ms m)

has_meta-update :
    (id : ℕ) (p : VpnUserMeta → Bool) (f : VpnUserMeta → VpnUserMeta)
    → ((m : VpnUserMeta) → (f m).id ≡ m.id)
    → (ms : List VpnUserMeta) → has_meta id (update p f ms) ≡ has_meta id ms
has_meta-update id p f k [] = refl
has_meta-update id p f k (x ∷ ms) = ground (arith, has_meta-update id p f k ms, k x)

has_meta-where :
    (id gone : ℕ) (ms : List VpnUserMeta)
    → (id == gone) ≡ false
    → has_meta id ms ≡ true
    → has_meta id (where_rows (λ (m : VpnUserMeta). not (m.id == gone)) ms) ≡ true
has_meta-where id gone [] ne h = absurd (cc)
has_meta-where id gone (x ∷ ms) ne h = ground (arith, has_meta-where id gone ms ne)

AllLinked-mono :
    (ms ns : List VpnUserMeta)
    → ((id : ℕ) → has_meta id ms ≡ true → has_meta id ns ≡ true)
    → (acts : List ProfileActivation) → AllLinked ms acts
    → AllLinked ns acts
AllLinked-mono ms ns k [] h = tt
AllLinked-mono ms ns k (a ∷ acts) (h, t) = (k a.vpn_user_meta_id h, AllLinked-mono ms ns k acts t)

AllLinked-append :
    (ms : List VpnUserMeta) (acts : List ProfileActivation) (a : ProfileActivation)
    → AllLinked ms acts
    → has_meta a.vpn_user_meta_id ms ≡ true
    → AllLinked ms (acts ++ (a ∷ []))
AllLinked-append ms [] a h k = (k, tt)
AllLinked-append ms (x ∷ acts) a (h, t) k = (h, AllLinked-append ms acts a t k)

AllLinked-update :
    (ms : List VpnUserMeta) (p : ProfileActivation → Bool)
    (f : ProfileActivation → ProfileActivation)
    → ((a : ProfileActivation) → (f a).vpn_user_meta_id ≡ a.vpn_user_meta_id)
    → (acts : List ProfileActivation) → AllLinked ms acts
    → AllLinked ms (update p f acts)
AllLinked-update ms p f k [] h = tt
AllLinked-update ms p f k (a ∷ acts) (h, t) =
    (ground (arith, k a), AllLinked-update ms p f k acts t)

AllLinked-where :
    (ms : List VpnUserMeta) (gone : ℕ) (acts : List ProfileActivation)
    → AllLinked ms acts
    → AllLinked
        (where_rows (λ (m : VpnUserMeta). not (m.id == gone)) ms)
        (where_rows (λ (a : ProfileActivation). not (a.vpn_user_meta_id == gone)) acts)
AllLinked-where ms gone [] h = tt
AllLinked-where ms gone (a ∷ acts) (h, t) = elim (Bool-cases (a.vpn_user_meta_id == gone)) [
  | inl e ↦ rw e (AllLinked-where ms gone acts t)
  | inr e ↦ rw e (has_meta-where a.vpn_user_meta_id gone ms e h, AllLinked-where ms gone acts t)
]

update-IsLinked :
    (p : VpnUserMeta → Bool) (f : VpnUserMeta → VpnUserMeta)
    → ((m : VpnUserMeta) → (f m).id ≡ m.id)
    → (d : Db) → IsLinked d
    → AllLinked (update p f d.vpn_user_meta) d.profile_activations
update-IsLinked p f k d h =
    AllLinked-mono d.vpn_user_meta (update p f d.vpn_user_meta)
      (λ i e. has_meta-update i p f k d.vpn_user_meta ∙ e) d.profile_activations h

write_shared_users-IsLinked :
    (id n : ℕ) (d : Db) → IsLinked d → IsLinked (write_shared_users id n d).1
write_shared_users-IsLinked id n d h =
    elim (Bool-cases
      (exists (λ (a : ProfileActivation). a.id == id) d.profile_activations && not (lt_int 0 n))) [
        | inl t ↦ rw t h
        | inr t ↦ rw t (
            AllLinked-update d.vpn_user_meta (λ a. a.id == id) (λ a. record a { shared_users = n })
              (λ a. refl) d.profile_activations h)
      ]

-- The statement keeps the links.
abbrev Keeps : {X : Type 0} → Exec Db X → Type 0
Keeps m = (d : Db) → IsLinked d → IsLinked (m d).1

continue-Keeps :
    {X Y : Type 0} (r : Result X) (f : X → Exec Db Y)
    → ((x : X) → Keeps (f x))
    → Keeps (continue r f)
continue-Keeps (ok x) f k = k x
continue-Keeps (err e) f k = λ d h. h

bind-Keeps :
    {X Y : Type 0} (m : Exec Db X) (f : X → Exec Db Y)
    → Keeps m
    → ((x : X) → Keeps (f x))
    → Keeps (m >>= f)
bind-Keeps m f km kf d h = continue-Keeps (m d).0 f kf (m d).1 (km d h)

write_newest-Keeps : (o : Option ProfileActivation) (n : ℕ) → Keeps (write_newest o n)
write_newest-Keeps none n d h = h
write_newest-Keeps (some a) n d h = write_shared_users-IsLinked a.id n d h

write_vpn_meta-Keeps :
    (id : ℕ) (c n : Option Text) (m : Option ℕ) (cur : VpnUserMeta)
    → Keeps (write_vpn_meta id c n m cur)
write_vpn_meta-Keeps id c n m cur d h =
    elim (Bool-cases (manager_exists (or_kept m cur.manager_id) d)) [
      | inl t ↦ rw t (update-IsLinked (λ r. r.id == id) _ (λ r. refl) d h)
      | inr t ↦ rw t h
    ]

raise_error-Keeps : (e : Option Error) → Keeps (raise_error e)
raise_error-Keeps none d h = h
raise_error-Keeps (some e) d h = h

settle_rows-Keeps :
    (admin_id : ℕ) (t : RenewalThrough) (act : ProfileActivation)
    → Keeps (settle_rows admin_id t act)
settle_rows-Keeps admin_id t act d h =
    let p = settles t act d.vpn_user_meta in
    elim (Bool-cases (
      exists p d.profile_activations
      && not (exists (λ (a : PanelAdmin). a.id == admin_id) d.panel_admins))) [
        | inl e ↦ rw e h
        | inr e ↦ rw e (
            AllLinked-update d.vpn_user_meta p (settled admin_id d.now) (λ a. refl)
              d.profile_activations h)
      ]

settle_through-Keeps :
    (admin_id : ℕ) (t : RenewalThrough) → Keeps (Activations.settle_through admin_id t)
unfolding Activations.settle_through
settle_through-Keeps admin_id t =
    bind-Keeps (ask (find_activation_by_id t.activation_id)) _ (λ d h. h)
      λ act.
        bind-Keeps (ask (find_vpn_meta_by_id act.vpn_user_meta_id)) _ (λ d h. h)
          λ meta.
            bind-Keeps (raise_error (scope_error t meta.manager_id)) _
              (raise_error-Keeps (scope_error t meta.manager_id))
              λ x. settle_rows-Keeps admin_id t act

-- Every statement that writes users or activations, also one that fails, keeps each activation
-- with a user that has a row.
pub run_write-IsLinked : (s : Write) (d : Db) → IsLinked d → IsLinked (run_write s d)
unfolding Metas.create_vpn_meta Metas.update_vpn_meta_cert Metas.clear_vpn_meta_cert
    Metas.update_vpn_meta Metas.delete_vpn_meta Activations.create_activation
    Activations.update_latest_unsettled_activation_shared_users
    Activations.update_activation_shared_users Activations.settle_through
run_write-IsLinked (Write.create_vpn_meta m) d h = ground (
  arith,
  AllLinked-mono d.vpn_user_meta
      (d.vpn_user_meta
        ++ (record m { id = d.next_meta; created_at = d.now; updated_at = d.now } ∷ []))
      (λ i k. has_meta-append i d.vpn_user_meta _ k) d.profile_activations h,
)
run_write-IsLinked (Write.update_vpn_meta_cert id t p) d h =
    update-IsLinked (λ m. m.id == id) _ (λ m. refl) d h
run_write-IsLinked (Write.clear_vpn_meta_cert id) d h =
    update-IsLinked (λ m. m.id == id) _ (λ m. refl) d h
run_write-IsLinked (Write.update_vpn_meta id c n m) d h =
    bind-Keeps (ask (find_vpn_meta_by_id id)) _ (λ d h. h) (write_vpn_meta-Keeps id c n m) d h
run_write-IsLinked (Write.delete_vpn_meta id) d h =
    AllLinked-where d.vpn_user_meta id d.profile_activations h
run_write-IsLinked (Write.create_activation a) d h =
    elim (Bool-cases (has_meta a.vpn_user_meta_id d.vpn_user_meta)) [
      | inl t ↦ ground (
        arith,
        AllLinked-append d.vpn_user_meta d.profile_activations
            (record a {
              id = d.next_activation;
              is_settled = false;
              settled_at = none;
              settled_by_admin_id = none;
              created_at = d.now;
            })
            h t,
      )
      | inr t ↦ ground (arith, t, h)
    ]
run_write-IsLinked (Write.update_latest_unsettled_activation_shared_users id n) d h =
    write_newest-Keeps (newest (where_rows (is_open_of id) d.profile_activations)) n d h
run_write-IsLinked (Write.update_activation_shared_users id n) d h =
    write_shared_users-IsLinked id n d h
run_write-IsLinked (Write.settle_through id t) d h = settle_through-Keeps id t d h
