-- ===== src/App/Handlers/Refusals.antt =====
-- What a refused creation or change of a manager has already written.
use fast_bypass.Base.{
  sym, ◌∙◌, ◌==◌, ==→≡, ℕ, ◌≡◌, refl, ap, subst, Text, trim_space, is_empty, true, false, none,
  some, List, [], ◌∷◌, ◌++◌, lt_int, Bool-cases, inl, inr, ◌||◌, not, text_eq, text_eq_refl, arith,
}
use fast_bypass.Result.{Result, ok}
use fast_bypass.Owner.{slug_overlaps}
use fast_bypass.Password.{valid_panel, hash, valid_cert_title}
use fast_bypass.Store.{
  Manager, Db, create_manager, list_manager_slugs, slug_rows, exists, nocase_eq, select, update,
  find_manager_by_id, clear_manager_cert,
}
use fast_bypass.Owner.Slugs.{slug_overlaps-cons}
use fast_bypass.App.{
  App, on_tables, World, error, validation, slug_overlaps_code, quota_below_usage, or_nil,
  manager_used_quota, setup_manager_certificate, trimmed_title, apply_manager_cert_title_change,
}
use fast_bypass.App.Handlers.Managers.{
  CreateManagerReq, PatchManagerReq, new_manager, handle_create_manager,
}
use fast_bypass.App.Handlers.PatchManager.{handle_patch_manager}
use fast_bypass.App.Keeps.Reads.{manager_used_quota-Keeps}

slug_overlaps-append :
    (s : Text) (ms : List Manager) (m : Manager)
    → m.slug ≡ s
    → slug_overlaps s (slug_rows (ms ++ (m ∷ []))) 0 ≡ true
slug_overlaps-append s [] m e = ground (
  arith,
  slug_overlaps-cons s (record { id = m.id; slug = m.slug }) [],
  ap (text_eq s) e,
  text_eq_refl s,
)
slug_overlaps-append s (x ∷ ms) m e = ground (
  arith,
  slug_overlaps-cons s (record { id = x.id; slug = x.slug }) (slug_rows (ms ++ (m ∷ []))),
  slug_overlaps-append s ms m e,
)

-- The slug of a manager that was created overlaps with those in the table.
create_manager-overlaps :
    (m : Manager) (d d' : Db) (id : ℕ)
    → create_manager m d ≡ (ok id, d')
    → slug_overlaps m.slug (slug_rows d'.managers) 0 ≡ true
unfolding create_manager
create_manager-overlaps m d d' id h =
    elim (Bool-cases (
      exists (λ (r : Manager). nocase_eq r.username m.username || nocase_eq r.slug m.slug)
        d.managers
      || not (lt_int 0 m.quota))) [
        | inl e ↦ cc (ap (λ z. z.0) (rw e at h))
        | inr e ↦
            let k = ap (λ (z : Result ℕ × Db). z.1.managers) (rw e at h) in
            subst (λ l. slug_overlaps m.slug (slug_rows l) 0 ≡ true) k
              (slug_overlaps-append m.slug d.managers
                (record m {
                  id = d.next_manager;
                  is_active = true;
                  created_at = d.now;
                  updated_at = d.now;
                })
                refl)
      ]

untitled_creation :
    (A : App) (req : CreateManagerReq) (w : World A) (title h : Text) (s : List ℕ) (id : ℕ)
    (d : A.store.State)
    → valid_panel A.unicode req.password ≡ true
    → lt_int req.quota 1 ≡ false
    → slug_overlaps req.slug (or_nil (A.store.list_manager_slugs w.db)) 0 ≡ false
    → hash A.bcrypt req.password w.random ≡ (ok h, s)
    → A.store.create_manager (new_manager req h) w.db ≡ (ok id, d)
    → req.cert_title ≡ some title
    → is_empty (trim_space title) ≡ false
    → valid_cert_title (trim_space title) ≡ false
    → handle_create_manager A (some req) w ≡ (error 400 validation, record w { db = d; random = s })
unfolding handle_create_manager setup_manager_certificate
untitled_creation A req w title h s id d panel quota apart hashed made cert blank bad =
    rw (panel, quota, apart, hashed, made, cert, blank, bad) refl

text_eq-nonempty : (t : Text) → is_empty t ≡ false → text_eq [] t ≡ false
text_eq-nonempty [] h = cc
text_eq-nonempty (c ∷ t) h = refl

selected-id :
    (id : ℕ) (ms : List Manager) (cur : Manager)
    → select (λ (m : Manager). m.id == id) ms ≡ ok cur
    → cur.id ≡ id
selected-id id [] cur h = cc
selected-id id (m ∷ ms) cur h = elim (Bool-cases (m.id == id)) [
  | inl e ↦
      let same : m ≡ cur = cc (rw e at h) in ap (λ (x : Manager). x.id) (sym same) ∙ ==→≡ m.id id e
  | inr e ↦ selected-id id ms cur (rw e at h)
]

-- The row of an id after an update of this row that leaves the id.
select-update :
    (id : ℕ) (f : Manager → Manager)
    → ((m : Manager) → (f m).id ≡ m.id)
    → (ms : List Manager) (cur : Manager) → select (λ (m : Manager). m.id == id) ms ≡ ok cur
    → select (λ (m : Manager). m.id == id) (update (λ m. m.id == id) f ms) ≡ ok (f cur)
select-update id f k [] cur h = cc
select-update id f k (m ∷ ms) cur h = elim (Bool-cases (m.id == id)) [
  | inl e ↦
      let same : m ≡ cur = cc (rw e at h) in
      let hit : ((f m).id == id) ≡ true = ap (λ x. x == id) (k m) ∙ e in
      rw (e, hit) (ap (λ x. ok (f x)) same)
  | inr e ↦ rw (e, e) (select-update id f k ms cur (rw e at h))
]

module _ (A : App) where
  -- Over the tables, the creation of a manager with a certificate title that is not valid is
  -- answered 400 once his row is inserted, so that a second request for the same slug, whatever its
  -- title, is answered 409 and changes nothing.
  pub create_manager-bad_title :
      (req again : CreateManagerReq) (w : World (on_tables A)) (title h : Text) (s : List ℕ)
      (id : ℕ) (d : Db)
      → valid_panel A.unicode req.password ≡ true
      → lt_int req.quota 1 ≡ false
      → slug_overlaps req.slug (slug_rows w.db.managers) 0 ≡ false
      → hash A.bcrypt req.password w.random ≡ (ok h, s)
      → create_manager (new_manager req h) w.db ≡ (ok id, d)
      → req.cert_title ≡ some title
      → is_empty (trim_space title) ≡ false
      → valid_cert_title (trim_space title) ≡ false
      → again.slug ≡ req.slug
      → valid_panel A.unicode again.password ≡ true
      → lt_int again.quota 1 ≡ false
      → (handle_create_manager (on_tables A) (some req) w
          ≡ (error 400 validation, record w { db = d; random = s }))
        × (handle_create_manager (on_tables A) (some again) (record w { db = d; random = s })
            ≡ (error 409 slug_overlaps_code, record w { db = d; random = s }))
  unfolding handle_create_manager list_manager_slugs
  create_manager-bad_title req again w title h s id d panel quota apart hashed made cert blank bad
        same panel2 quota2 =
      let taken : slug_overlaps again.slug (slug_rows d.managers) 0 ≡ true =
        rw same (create_manager-overlaps (new_manager req h) w.db d id made) in
      (
        untitled_creation (on_tables A) req w title h s id d panel quota apart hashed made cert
            blank bad,
        rw (panel2, quota2, taken) refl,
      )

  -- Over the tables, a change of a manager that takes his certificate away and asks for a smaller
  -- quota than is in use is answered 409, but the certificate's title and passphrase are gone from
  -- his row.
  pub patch_manager-below_usage :
      (id : ℕ) (req : PatchManagerReq) (cur : Manager) (w u : World (on_tables A)) (title : Text)
      (quota used : ℕ)
      → find_manager_by_id id w.db ≡ ok cur
      → req.cert_title ≡ some title
      → trim_space title ≡ []
      → is_empty (trimmed_title cur.cert_title) ≡ false
      → req.username ≡ none
      → req.quota ≡ some quota
      → manager_used_quota (on_tables A) id (record w { db = (clear_manager_cert id w.db).1 })
        ≡ (ok used, u)
      → lt_int quota used ≡ true
      → (handle_patch_manager (on_tables A) id (some req) w ≡ (error 409 quota_below_usage, u))
        × (find_manager_by_id id u.db
            ≡ ok (record cur { cert_title = none; cert_key_pass = none; updated_at = w.db.now }))
  unfolding handle_patch_manager apply_manager_cert_title_change find_manager_by_id
      clear_manager_cert
  patch_manager-below_usage id req cur w u title quota used found wanted blank titled name asked
        counted low =
      let same : cur.id ≡ id = selected-id id w.db.managers cur found in
      let other : text_eq [] (trimmed_title cur.cert_title) ≡ false =
        text_eq-nonempty (trimmed_title cur.cert_title) titled in
      let kept : u.db ≡ (clear_manager_cert id w.db).1 =
        ap (λ z. z.1.db) (sym counted)
        ∙ (manager_used_quota-Keeps {A = on_tables A} {Q = λ d. d ≡ (clear_manager_cert id w.db).1}
              id).at
            (record w { db = (clear_manager_cert id w.db).1 }) refl in
      (
        rw (found, wanted, blank, other, same, name, asked, counted, low) refl,
        rw kept (select-update id _ (λ m. refl) w.db.managers cur found),
      )
