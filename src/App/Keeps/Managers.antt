-- ===== src/App/Keeps/Managers.antt =====
-- The handlers of the managers and the totals keep what every statement that writes keeps.
use fast_bypass.Base.{
  ℕ, Text, Bool, false, Option, none, some, List, [], ◌∷◌, ◌≡◌, Bool-cases, inl, inr, lt_int,
}
use fast_bypass.Result.{Result, ok, err, no_rows, attempt}
use fast_bypass.Owner.{slug_overlaps}
use fast_bypass.Quota.{aggregate_by_owner}
use fast_bypass.App.Service.{manager_used_quota, or_nil}
use fast_bypass.Store.{Manager}
use fast_bypass.App.State.{App, World, query}
use fast_bypass.App.Http.{Handler, catch, tried, error, internal}
use fast_bypass.Password.{hash}
use fast_bypass.App.Handlers
use fast_bypass.App.Handlers.{RenewalsQuery, SettleReq, CreateManagerReq, PatchManagerReq}
use fast_bypass.App.Keeps.{
  KeptByWrites, Keeps, Keeps-catch, Keeps-if, Keeps-answer, Keeps-bind, Keeps-pure, Keeps-attempt,
  Keeps-handled,
}
use fast_bypass.App.Keeps.Reads.{manager_used_quota-Keeps}
use fast_bypass.App.Keeps.Users.{user_rules}
use fast_bypass.App.Keeps.Lists.{list_users-Keeps}

module _ {A : App} {Q : A.store.State → Type 0} (W : KeptByWrites A.store Q) where
  manager_items-Keeps : (ms : List Manager) → Keeps A Q (Handlers.manager_items A ms)
  unfolding Handlers.manager_items
  manager_items-Keeps [] = search user_rules
  manager_items-Keeps (m ∷ ms) =
      Keeps-bind (attempt (manager_used_quota A m.id)) _
        (Keeps-attempt _ (manager_used_quota-Keeps m.id))
        λ used.
          Keeps-bind (Handlers.manager_items A ms) _ (manager_items-Keeps ms)
            λ items. Keeps-pure (Handlers.manager_dto m (Handlers.or_zero used) ∷ items)

  pub handle_list_managers-Keeps : Keeps A Q (Handlers.handle_list_managers A)
  unfolding Handlers.handle_list_managers
  handle_list_managers-Keeps = search (user_rules, manager_items-Keeps) depth 12

  pub handle_admin_stats-Keeps : (b : Bool) → Keeps A Q (Handlers.handle_admin_stats A b)
  unfolding Handlers.handle_admin_stats aggregate_by_owner
  handle_admin_stats-Keeps b = search (user_rules, list_users-Keeps) depth 14

  manager_certificate-Keeps :
      (id : ℕ) (t : Option Text) → Keeps A Q (Handlers.manager_certificate A id t)
  manager_certificate-Keeps id none = search user_rules
  manager_certificate-Keeps id (some t) = search user_rules depth 8

  -- The insertion after the test of the slug.
  insert_at :
      (req : CreateManagerReq) (w : World A)
      → slug_overlaps req.slug (or_nil (A.store.list_manager_slugs w.db)) 0 ≡ false
      → Q w.db
      → Q (Handlers.insert_manager A req w).1.db
  insert_at req w e q = go (hash A.bcrypt req.password w.random)
    where
      go :
          (r : Result Text × List ℕ)
          → Q
              (catch A
                (λ (v : World A). (r.0, record v { random = r.1 }))
                (λ _. error 500 internal)
                (Handlers.inserted_with A req)
                w).1.db
      go (err x, s) = q
      go (ok h, s) =
          (Keeps-handled _ _ _ λ id.
              Keeps-catch _ _ _ (manager_certificate-Keeps id req.cert_title)
                λ _. Keeps-answer _).at
            _ (W.create_manager (Handlers.new_manager req h) w.db e q)

  checked_slug-Keeps :
      (req : CreateManagerReq)
      → Keeps A Q (tried A (query A A.store.list_manager_slugs) (Handlers.checked_slug A req))
  checked_slug-Keeps req = record {
    at = λ w q.
        elim (Bool-cases (slug_overlaps req.slug (or_nil (A.store.list_manager_slugs w.db)) 0)) [
          | inl e ↦ rw e q
          | inr e ↦ rw e (insert_at req w e q)
        ];
  }

  pub handle_create_manager-Keeps :
      (body : Option CreateManagerReq) → Keeps A Q (Handlers.handle_create_manager A body)
  unfolding Handlers.handle_create_manager
  handle_create_manager-Keeps body = search (user_rules, checked_slug-Keeps) depth 10

  title_change-Keeps : (m : Manager) (t : Option Text) → Keeps A Q (Handlers.title_change A m t)
  title_change-Keeps m none = search user_rules
  title_change-Keeps m (some t) = search user_rules

  taken_by-Keeps :
      (id : ℕ) (u : Text) (rest : Option Text → Handler A) (r : Result Manager)
      → ((o : Option Text) → Keeps A Q (rest o))
      → Keeps A Q (Handlers.taken_by A id u rest r)
  taken_by-Keeps id u rest (ok m) k = search (user_rules, k) depth 8
  taken_by-Keeps id u rest (err no_rows) k = k (some u)
  taken_by-Keeps id u rest (err e) k = search user_rules

  username_step-Keeps :
      (id : ℕ) (n : Option Text) (rest : Option Text → Handler A)
      → ((o : Option Text) → Keeps A Q (rest o))
      → Keeps A Q (Handlers.username_step A id n rest)
  username_step-Keeps id none rest k = k none
  username_step-Keeps id (some n) rest k = search (user_rules, taken_by-Keeps, k) depth 10

  quota_step-Keeps :
      (id : ℕ) (n : Option ℕ) (rest : Handler A)
      → Keeps A Q rest
      → Keeps A Q (Handlers.quota_step A id n rest)
  quota_step-Keeps id none rest k = k
  quota_step-Keeps id (some n) rest k =
      Keeps-catch _ _ _ (manager_used_quota-Keeps id)
        λ used. Keeps-if (lt_int n used) _ _ (Keeps-answer _) k

  password_step-Keeps :
      (p : Option Text) (rest : Option Text → Handler A)
      → ((o : Option Text) → Keeps A Q (rest o))
      → Keeps A Q (Handlers.password_step A p rest)
  password_step-Keeps none rest k = k none
  password_step-Keeps (some p) rest k = search (user_rules, k) depth 10

  shown-Keeps : (r : Result Manager) → Keeps A Q (Handlers.shown A r)
  shown-Keeps (ok m) = search user_rules depth 8
  shown-Keeps (err e) = search user_rules

  update_step-Keeps :
      (id : ℕ) (req : PatchManagerReq) (u h : Option Text)
      → Keeps A Q (Handlers.update_step A id req u h)
  update_step-Keeps id req u h = search (user_rules, shown-Keeps) depth 10

  patch_found-Keeps :
      (id : ℕ) (req : PatchManagerReq) (m : Manager) → Keeps A Q (Handlers.patch_found A id req m)
  patch_found-Keeps id req m =
      search
        (
          user_rules, title_change-Keeps, username_step-Keeps, quota_step-Keeps,
          password_step-Keeps, update_step-Keeps,
        )
        depth 20

  pub handle_patch_manager-Keeps :
      (id : ℕ) (body : Option PatchManagerReq) → Keeps A Q (Handlers.handle_patch_manager A id body)
  unfolding Handlers.handle_patch_manager
  handle_patch_manager-Keeps id body = search (user_rules, patch_found-Keeps) depth 10

pub ruleset manager_rules = (
  handle_list_managers-Keeps, handle_admin_stats-Keeps, handle_create_manager-Keeps,
  handle_patch_manager-Keeps,
)
