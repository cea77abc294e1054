-- ===== src/App/Service/Quota.antt =====
-- What a creation that returned has checked.
use fast_bypass.Base.{
  ℕ, ◌≡◌, refl, sym, ap, subst, ◌∙◌, List, Bool-cases, inl, inr, Text, codes, length, Bool, true,
  false, ◌&&◌, not, some, ◌++◌, lt_int, is_empty, trim_space,
}
use fast_bypass.Result.{
  Exec, Result, ⊤, Error, continue, pure, ok, err, failure, quota_exceeded, raise_if, bind-ok,
  ◌>>=◌, ◌>>◌,
}
use fast_bypass.Owner.{Registry, panel_comment, build_registry}
use fast_bypass.Password.{valid_vpn}
use fast_bypass.Quota.{check_add}
use fast_bypass.Store.{Manager}
use fast_bypass.App.State.{App, World, registry}
use fast_bypass.App.Service.Requests.{CreateVpnReq, CreatedVpn}
use fast_bypass.App.Service.Detail.{manager_used_quota, checked_password, resolve_vpn_password}
use fast_bypass.App.Service.Create.{bad_shared_users, assigned, add_vpn_user, create_vpn_user}

raise_if-ok :
    {S : Type 0} (b : Bool) (e : Error) (s s' : S) {x : ⊤}
    → raise_if b e s ≡ (ok x, s')
    → (b ≡ false) × (s ≡ s')
raise_if-ok true e s s' h = absurd (cc)
raise_if-ok false e s s' h = (refl, ap (λ r. r.1) h)

within : (a b : Bool) → (a && not b) ≡ false → a ≡ true → b ≡ true
within true true h k = refl
within true false h k = absurd (cc)
within false b h k = absurd (cc)

module _ (A : App) where
  -- The steps of `createVPNUser`, each with those behind it.
  module _ (mgr : Manager) (req : CreateVpnReq) where
    abbrev full_name : Text
    full_name = mgr.slug ++ (A.cfg.username_prefix_sep ++ req.local_name)

    abbrev over_quota : ℕ → Bool
    over_quota used = assigned A req && not (check_add used mgr.quota req.shared_users)

    abbrev add_step : Registry → Text → Exec (World A) CreatedVpn
    add_step reg pass =
        add_vpn_user A ((mgr.slug ++ A.cfg.username_prefix_sep) ++ req.local_name) pass
          (panel_comment reg (record { id = mgr.id; slug = mgr.slug })) (some mgr) (some mgr.id) req

    abbrev quota_step : Registry → Text → Exec (World A) CreatedVpn
    quota_step reg pass = manager_used_quota A mgr.id >>= λ used.
        raise_if (over_quota used) quota_exceeded >> add_step reg pass

    abbrev shared_step : Registry → Text → Exec (World A) CreatedVpn
    shared_step reg pass =
        raise_if (bad_shared_users A req.shared_users) (failure (codes "invalid shared_users"))
        >> quota_step reg pass

    abbrev password_step : Registry → Exec (World A) CreatedVpn
    password_step reg = resolve_vpn_password A req.password >>= shared_step reg

    abbrev length_step : Registry → Exec (World A) CreatedVpn
    length_step reg =
        raise_if (lt_int A.cfg.username_local_max_len (length req.local_name))
          (failure (codes "local name too long"))
        >> password_step reg

  create_vpn_user-steps :
      (mgr : Manager) (req : CreateVpnReq) (w : World A)
      → create_vpn_user A mgr req w ≡ (registry A >>= length_step mgr req) w
  unfolding create_vpn_user
  create_vpn_user-steps mgr req w = refl

  -- The database and the router are as before.
  abbrev pub Undisturbed : World A → World A → Type 0
  Undisturbed w v = (v.db ≡ w.db) × (v.router ≡ w.router)

  moved_Undisturbed : (w v u : World A) → u ≡ v → Undisturbed w u → Undisturbed w v
  moved_Undisturbed w v u e h = subst (λ x. Undisturbed w x) e h

  resolve_vpn_password-Undisturbed :
      (pw : Text) (w v : World A) {r : Result Text}
      → resolve_vpn_password A pw w ≡ (r, v)
      → Undisturbed w v
  unfolding resolve_vpn_password
  resolve_vpn_password-Undisturbed pw w v h =
      moved_Undisturbed w v (resolve_vpn_password A pw w).1 (ap (λ r. r.1) h) (go (trim_space pw))
    where
      go : (s : Text) → Undisturbed w (checked_password A s w).1
      go s = elim (Bool-cases (is_empty s)) [
        | inl e ↦ rw e (refl, refl)
        | inr e ↦ elim (Bool-cases (valid_vpn s)) [
          | inl t ↦ rw (e, t) (refl, refl)
          | inr t ↦ rw (e, t) (refl, refl)
        ]
      ]

  registry-Undisturbed :
      (w v : World A) {r : Result Registry} → registry A w ≡ (r, v) → Undisturbed w v
  unfolding registry
  registry-Undisturbed w v h =
      moved_Undisturbed w v (registry A w).1 (ap (λ r. r.1) h) (go (A.store.list_managers w.db))
    where
      go :
          (r : Result (List Manager))
          → Undisturbed w
              (continue r
                (λ managers. pure (build_registry managers A.cfg.username_prefix_sep))
                w).1
      go (ok ms) = (refl, refl)
      go (err e) = (refl, refl)

  -- A creation by a manager that returns, with a profile to assign, has found the manager's used
  -- connections in the database and on the router as they were, and these with the new ones are
  -- within his quota; the new ones are at least one and at most the largest number allowed.
  pub create_vpn_user_within_quota :
      (mgr : Manager) (req : CreateVpnReq) (w w' : World A) {out : CreatedVpn}
      → create_vpn_user A mgr req w ≡ (ok out, w')
      → assigned A req ≡ true
      → (v : World A) × (used : ℕ) × Undisturbed w v
        × ((manager_used_quota A mgr.id v).0 ≡ ok used)
        × (check_add used mgr.quota req.shared_users ≡ true)
        × (bad_shared_users A req.shared_users ≡ false)
  create_vpn_user_within_quota mgr req w w' h assigns =
      let (reg, w1, e1, h1) =
        bind-ok (registry A) (length_step mgr req) w w'
          (sym (create_vpn_user-steps mgr req w) ∙ h) in
      let (u2, w2, e2, h2) =
        bind-ok
          (raise_if (lt_int A.cfg.username_local_max_len (length req.local_name))
            (failure (codes "local name too long")))
          (λ (x : ⊤). password_step mgr req reg) w1 w' h1 in
      let (pass, w3, e3, h3) =
        bind-ok (resolve_vpn_password A req.password) (shared_step mgr req reg) w2 w' h2 in
      let (u4, w4, e4, h4) =
        bind-ok
          (raise_if (bad_shared_users A req.shared_users) (failure (codes "invalid shared_users")))
          (λ (x : ⊤). quota_step mgr req reg pass) w3 w' h3 in
      let (used, w5, e5, h5) =
        bind-ok (manager_used_quota A mgr.id)
          (λ (used : ℕ).
            raise_if (over_quota mgr req used) quota_exceeded >> add_step mgr req reg pass)
          w4 w' h4 in
      let (u6, w6, e6, h6) =
        bind-ok (raise_if (over_quota mgr req used) quota_exceeded)
          (λ (x : ⊤). add_step mgr req reg pass) w5 w' h5 in
      let (long, s2) = raise_if-ok _ _ w1 w2 e2 in
      let (bad, s4) = raise_if-ok _ _ w3 w4 e4 in
      let (over, s6) = raise_if-ok _ _ w5 w6 e6 in
      let (d1, r1) = registry-Undisturbed w w1 e1 in
      let (d3, r3) = resolve_vpn_password-Undisturbed req.password w2 w3 e3 in
      (
        w4,
        used,
        (
          sym (ap (λ v. v.db) s4) ∙ d3 ∙ sym (ap (λ v. v.db) s2) ∙ d1,
          sym (ap (λ v. v.router) s4) ∙ r3 ∙ sym (ap (λ v. v.router) s2) ∙ r1,
        ),
        ap (λ r. r.0) e5,
        within (assigned A req) (check_add used mgr.quota req.shared_users) over assigns,
        bad,
      )
