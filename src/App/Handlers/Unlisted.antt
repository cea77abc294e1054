-- ===== src/App/Handlers/Unlisted.antt =====
-- The creation of a manager while the slugs cannot be listed.
use fast_bypass.Base.{
  ℕ, ◌≡◌, refl, sym, ap, ◌∙◌, subst, Text, true, false, none, some, List, [], ◌∷◌, ◌++◌, Bool-cases,
  inl, inr, ◌||◌, not, lt_int, text_eq_comm, arith,
}
use fast_bypass.Result.{Result, Error, ok, err}
use fast_bypass.Password.{valid_panel, hash}
use fast_bypass.Owner.{ManagerInfo, slug_overlaps, manager_infos}
use fast_bypass.Owner.Slugs.{IsSeparated, slugs, slug_overlaps-cons}
use fast_bypass.Store.{
  sql_store, Manager, ManagerSlug, Db, create_manager, slug_rows, exists, nocase_eq,
}
use fast_bypass.App.{App, World, created_manager}
use fast_bypass.App.Keeps.Slugs.{IsSlugSeparated, infos-append, slugs-infos}
use fast_bypass.App.Handlers.Managers.{CreateManagerReq, new_manager, handle_create_manager}

-- The application over the tables, where the statement that lists the slugs may fail.
abbrev pub listed_by : App → (Db → Result (List ManagerSlug)) → App
listed_by A f = record A { store = record sql_store { list_manager_slugs = f } }

last-apart :
    (ms : List ManagerInfo) (m : ManagerInfo)
    → IsSeparated (ms ++ (m ∷ []))
    → slug_overlaps m.slug (slugs ms) 0 ≡ false
unfolding slug_overlaps
last-apart [] m h = refl
last-apart (x ∷ ms) m h = ground (
  arith,
  slug_overlaps-cons m.slug (record { id = x.id; slug = x.slug }) (slugs ms),
  last-apart ms m h.1,
  first-last x ms m h.0,
  slug_overlaps-cons x.slug (record { id = m.id; slug = m.slug }) [],
  text_eq_comm x.slug m.slug,
)
  where
    first-last :
        (x : ManagerInfo) (ms : List ManagerInfo) (m : ManagerInfo)
        → slug_overlaps x.slug (slugs (ms ++ (m ∷ []))) 0 ≡ false
        → slug_overlaps x.slug (record { id = m.id; slug = m.slug } ∷ []) 0 ≡ false
    first-last x [] m h = h
    first-last x (y ∷ ms) m h = first-last x ms m (
        ground (
          arith,
          h,
          slug_overlaps-cons x.slug (record { id = y.id; slug = y.slug }) (slugs (ms ++ (m ∷ []))),
        ))

-- A manager that was inserted although his slug overlaps leaves the slugs in conflict.
create_manager-overlapping :
    (m : Manager) (d d' : Db) (id : ℕ)
    → slug_overlaps m.slug (slug_rows d.managers) 0 ≡ true
    → create_manager m d ≡ (ok id, d')
    → ¬ IsSlugSeparated d'
unfolding create_manager
create_manager-overlapping m d d' id over h apart =
    elim (Bool-cases (
      exists (λ (r : Manager). nocase_eq r.username m.username || nocase_eq r.slug m.slug)
        d.managers
      || not (lt_int 0 m.quota))) [
        | inl e ↦ cc (ap (λ z. z.0) (rw e at h))
        | inr e ↦
            let row : Manager = record m {
              id = d.next_manager;
              is_active = true;
              created_at = d.now;
              updated_at = d.now;
            } in
            let k : d.managers ++ (row ∷ []) ≡ d'.managers =
              ap (λ (z : Result ℕ × Db). z.1.managers) (rw e at h) in
            let info : ManagerInfo = record { id = d.next_manager; slug = m.slug } in
            let there : IsSeparated (manager_infos d.managers ++ (info ∷ [])) =
              subst IsSeparated (ap manager_infos (sym k) ∙ infos-append d.managers row) apart in
            cc (
              over,
              ap (λ l. slug_overlaps m.slug l 0) (slugs-infos d.managers),
              last-apart (manager_infos d.managers) info there,
            )
      ]

module _ (A : App) where
  -- Over the tables, where the listing of the slugs fails, the creation of a manager who has no
  -- certificate title goes on without the test: it is answered with his id even though his slug
  -- overlaps, and the slugs are in conflict afterwards.
  pub create_manager-unlisted :
      (f : Db → Result (List ManagerSlug)) (req : CreateManagerReq) (w : World (listed_by A f))
      (e : Error) (h : Text) (s : List ℕ) (id : ℕ) (d : Db)
      → f w.db ≡ err e
      → valid_panel A.unicode req.password ≡ true
      → lt_int req.quota 1 ≡ false
      → hash A.bcrypt req.password w.random ≡ (ok h, s)
      → create_manager (new_manager req h) w.db ≡ (ok id, d)
      → req.cert_title ≡ none
      → slug_overlaps req.slug (slug_rows w.db.managers) 0 ≡ true
      → (handle_create_manager (listed_by A f) (some req) w
          ≡ (created_manager id, record w { db = d; random = s }))
        × ¬ IsSlugSeparated d
  unfolding handle_create_manager slug_overlaps
  create_manager-unlisted f req w e h s id d unlisted panel quota hashed made untitled over = (
    rw (panel, quota, unlisted, hashed, made, untitled) refl,
    create_manager-overlapping (new_manager req h) w.db d id over made,
  )
