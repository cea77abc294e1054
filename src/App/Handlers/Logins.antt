-- ===== src/App/Handlers/Logins.antt =====
-- What a login that succeeds has found out.
use fast_bypass.Base.{ℕ, ◌≡◌, refl, sym, ap, ◌∙◌, true, some, ◌⊎◌, inl, inr, [], Bool-cases}
use fast_bypass.Result.{Result, Error, ok, err, no_rows}
use fast_bypass.Password.{check}
use fast_bypass.Store.{PanelAdmin, Manager}
use fast_bypass.Auth.{Claims, TokenPair, admin, manager, new_pair}
use fast_bypass.App.{App, World, Code, Handler, LoginResp, error, logged_in, internal, answer}
use fast_bypass.App.Handlers.{
  LoginReq, claims_of, admin_resp, manager_resp, with_pair, admin_login, manager_login, login_as,
  handle_login,
}

logged_in-injective : {r s : LoginResp} → logged_in r ≡ logged_in s → r ≡ s
logged_in-injective h = cc

error_is_no_login : {status : ℕ} {code : Code} {r : LoginResp} → error status code ≡ logged_in r → ⊥
error_is_no_login h = absurd (cc)

module _ (A : App) where
  pub with_pair-ok :
      (c : Claims) (rest : TokenPair → Handler A) (w : World A) (pair : TokenPair)
      → new_pair A.jwt A.auth c A.now A.now ≡ ok pair
      → with_pair A c rest w ≡ rest pair w
  with_pair-ok c rest w pair e = rw e refl

  -- An answer that is no error came after a pair was made.
  with_pair-logged_in :
      (c : Claims) (f : TokenPair → LoginResp) (w w' : World A) (r : LoginResp)
      → with_pair A c (λ pair. answer A (logged_in (f pair))) w ≡ (logged_in r, w')
      → (pair : TokenPair) × (new_pair A.jwt A.auth c A.now A.now ≡ ok pair)
        × (r ≡ f pair)
        × (w' ≡ w)
  with_pair-logged_in c f w w' r h = go (new_pair A.jwt A.auth c A.now A.now) refl
    where
      go :
          (x : Result TokenPair)
          → new_pair A.jwt A.auth c A.now A.now ≡ x
          → (pair : TokenPair) × (new_pair A.jwt A.auth c A.now A.now ≡ ok pair)
            × (r ≡ f pair)
            × (w' ≡ w)
      go (ok pair) e =
          let k : (logged_in (f pair), w) ≡ (logged_in r, w') =
            sym (with_pair-ok c (λ pair. answer A (logged_in (f pair))) w pair e) ∙ h in
          (pair, e, sym (logged_in-injective (ap (λ z. z.0) k)), sym (ap (λ z. z.1) k))
      go (err x) e =
          let k : (error 500 internal, w) ≡ (logged_in r, w') = rw e at h in
          absurd (error_is_no_login (ap (λ z. z.0) k))

  -- An admin of the name, active, with the password; the tokens are made for him.
  abbrev pub ForAdmin : LoginReq → World A → LoginResp → Type 0
  ForAdmin req w r =
      (adm : PanelAdmin) × (pair : TokenPair) × (A.store.find_admin_by_username req.username w.db
        ≡ ok adm)
      × (adm.is_active ≡ true)
      × (check A.bcrypt adm.password_hash req.password ≡ true)
      × (new_pair A.jwt A.auth (claims_of admin 0 [] adm.username) A.now A.now ≡ ok pair)
      × (r ≡ admin_resp pair)

  -- The look for an admin of the name ended in an error, whatever it was, and a manager was found,
  -- active, with the password; the tokens are made for him.
  abbrev pub ForManager : LoginReq → World A → LoginResp → Type 0
  ForManager req w r =
      (e : Error) × (mgr : Manager) × (pair : TokenPair) × (A.store.find_admin_by_username
          req.username w.db
        ≡ err e)
      × (A.store.find_manager_by_username req.username w.db ≡ ok mgr)
      × (mgr.is_active ≡ true)
      × (check A.bcrypt mgr.password_hash req.password ≡ true)
      × (new_pair A.jwt A.auth (claims_of manager mgr.id mgr.slug mgr.username) A.now A.now
          ≡ ok pair)
      × (r ≡ manager_resp A.cfg.username_prefix_sep mgr pair)

  admin_login-logged_in :
      (req : LoginReq) (adm : PanelAdmin) (w w' : World A) (r : LoginResp)
      → A.store.find_admin_by_username req.username w.db ≡ ok adm
      → admin_login A req adm w ≡ (logged_in r, w')
      → (w' ≡ w) × ForAdmin req w r
  unfolding admin_login
  admin_login-logged_in req adm w w' r found h = elim (Bool-cases adm.is_active) [
    | inl a ↦ elim (Bool-cases (check A.bcrypt adm.password_hash req.password)) [
      | inl p ↦
          let (pair, e, k, s) =
            with_pair-logged_in (claims_of admin 0 [] adm.username) admin_resp w w' r
              (rw (a, p) at h) in
          (s, (adm, pair, found, a, p, e, k))
      | inr p ↦ absurd (error_is_no_login (ap (λ z. z.0) (rw (a, p) at h)))
    ]
    | inr a ↦ absurd (error_is_no_login (ap (λ z. z.0) (rw a at h)))
  ]

  manager_login-logged_in :
      (req : LoginReq) (x : Error) (found : Result Manager) (w w' : World A) (r : LoginResp)
      → A.store.find_admin_by_username req.username w.db ≡ err x
      → A.store.find_manager_by_username req.username w.db ≡ found
      → manager_login A req found w ≡ (logged_in r, w')
      → (w' ≡ w) × ForManager req w r
  unfolding manager_login
  manager_login-logged_in req x (err no_rows) w w' r e0 e1 h =
      absurd (error_is_no_login (ap (λ z. z.0) h))
  manager_login-logged_in req x (err other) w w' r e0 e1 h =
      absurd (error_is_no_login (ap (λ z. z.0) h))
  manager_login-logged_in req x (ok mgr) w w' r e0 e1 h = elim (Bool-cases mgr.is_active) [
    | inl a ↦ elim (Bool-cases (check A.bcrypt mgr.password_hash req.password)) [
      | inl p ↦
          let (pair, e, k, s) =
            with_pair-logged_in (claims_of manager mgr.id mgr.slug mgr.username)
              (manager_resp A.cfg.username_prefix_sep mgr) w w' r (rw (a, p) at h) in
          (s, (x, mgr, pair, e0, e1, a, p, e, k))
      | inr p ↦ absurd (error_is_no_login (ap (λ z. z.0) (rw (a, p) at h)))
    ]
    | inr a ↦ absurd (error_is_no_login (ap (λ z. z.0) (rw a at h)))
  ]

  -- A login that succeeds changes nothing, and is one of an active admin with this name and
  -- password; or the look for an admin of the name has ended in an error, be it that there is none
  -- or any other, and it is one of an active manager with this name and password. The tokens are a
  -- pair for that account.
  pub handle_login-logged_in :
      (req : LoginReq) (w w' : World A) (r : LoginResp)
      → handle_login A (some req) w ≡ (logged_in r, w')
      → (w' ≡ w) × (ForAdmin req w r ⊎ ForManager req w r)
  unfolding handle_login
  handle_login-logged_in req w w' r h = go (A.store.find_admin_by_username req.username w.db) refl h
    where
      go :
          (found : Result PanelAdmin)
          → A.store.find_admin_by_username req.username w.db ≡ found
          → login_as A req found w ≡ (logged_in r, w')
          → (w' ≡ w) × (ForAdmin req w r ⊎ ForManager req w r)
      go (ok adm) e k = let (same, l) = admin_login-logged_in req adm w w' r e k in (same, inl l)
      go (err x) e k =
          let (same, l) =
            manager_login-logged_in req x (A.store.find_manager_by_username req.username w.db) w w'
              r e refl k in
          (same, inr l)
