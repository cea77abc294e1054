-- ===== src/Server/Session.antt =====
-- From a login or a refresh to the requests that the tokens open.
use fast_bypass.Base.{ℕ, ◌≡◌, ◌<◌, ◌+◌, refl, codes, ◌++◌, Bool, true, some}
use fast_bypass.Result.{Error, ok, err}
use fast_bypass.Password.{check}
use fast_bypass.Store.{Manager}
use fast_bypass.Auth.{Claims, TokenPair, JwtLaws, Encodable, stamped, manager, new_pair}
use fast_bypass.Auth.Tokens.{new_pair_lem, ltb_of_lt}
use fast_bypass.App.{App, World, logged_in, tokens, error, forbidden}
use fast_bypass.App.Handlers.{
  LoginReq, claims_of, manager_resp, manager_login, handle_login, handle_refresh,
}
use fast_bypass.Server.{
  Private, Restricted, Route, Request, private, restricted, private_handler, restricted_handler,
  middleware, require_admin, serve,
}

-- The application at another time.
abbrev pub at_time : App → ℕ → App
at_time A t = record A { now = t }

-- A request with an access token.
abbrev pub with_token : TokenPair → Route → Request
with_token pair r = record { authorization = codes "Bearer " ++ pair.access_token; route = r }

module _ (A : App) where
  -- A request, while the token lives, with the access token of a pair that was made now.
  bearer-served :
      (L : JwtLaws A.jwt) (c : Claims) (pair : TokenPair) (t : ℕ)
      → Encodable A.jwt (record c { subject = c.username })
      → new_pair A.jwt A.auth c A.now A.now ≡ ok pair
      → t < A.jwt.numeric_date (A.now + A.auth.access_ttl)
      → (b : Bool) (r : Private) (s : Restricted) (v : World (at_time A t))
      → (serve (at_time A t) b (with_token pair (private r)) v
          ≡ private_handler
              (at_time A t)
              r
              (some (stamped A.jwt c A.auth.access_ttl (codes "access") A.now))
              v)
        × (serve (at_time A t) b (with_token pair (restricted s)) v
            ≡ require_admin
                (at_time A t)
                (some (stamped A.jwt c A.auth.access_ttl (codes "access") A.now))
                (restricted_handler (at_time A t) s)
                v)
  unfolding serve middleware
  bearer-served L c pair t plain made h b r s v =
      let (access, _, _, _) = new_pair_lem A.jwt L A.auth c plain A.now A.now pair made t in
      (rw (access, ltb_of_lt t _ h) refl, rw (access, ltb_of_lt t _ h) refl)

  -- A manager whose account is active and who sends its name and password is signed in, where the
  -- look for an admin of the name fails and a pair can be signed. At any time before the access
  -- token that he is sent expires, a request with it to a route behind the middleware that is not
  -- below /admin is what the handler makes of claims with his id and his role, and one to a route
  -- below /admin is answered 403, with nothing changed.
  pub login_then_request :
      (L : JwtLaws A.jwt) (req : LoginReq) (w : World A) (x : Error) (mgr : Manager)
      (pair : TokenPair) (t : ℕ)
      → A.store.find_admin_by_username req.username w.db ≡ err x
      → A.store.find_manager_by_username req.username w.db ≡ ok mgr
      → mgr.is_active ≡ true
      → check A.bcrypt mgr.password_hash req.password ≡ true
      → new_pair A.jwt A.auth (claims_of manager mgr.id mgr.slug mgr.username) A.now A.now ≡ ok pair
      → Encodable A.jwt
          (record (claims_of manager mgr.id mgr.slug mgr.username) { subject = mgr.username })
      → t < A.jwt.numeric_date (A.now + A.auth.access_ttl)
      → (handle_login A (some req) w
          ≡ (logged_in (manager_resp A.cfg.username_prefix_sep mgr pair), w))
        × ((b : Bool) (r : Private) (s : Restricted) (v : World (at_time A t))
            → (c : Claims) × (c.role ≡ manager)
              × (c.manager_id ≡ mgr.id)
              × (serve (at_time A t) b (with_token pair (private r)) v
                  ≡ private_handler (at_time A t) r (some c) v)
              × (serve (at_time A t) b (with_token pair (restricted s)) v
                  ≡ (error 403 forbidden, v)))
  unfolding handle_login manager_login require_admin
  login_then_request L req w x mgr pair t e0 e1 active right made plain h =
      let c = claims_of manager mgr.id mgr.slug mgr.username in
      (
        rw (e0, e1, active, right, made) refl,
        λ b r s v.
            let (p, q) = bearer-served L c pair t plain made h b r s v in
            (stamped A.jwt c A.auth.access_ttl (codes "access") A.now, refl, refl, p, q),
      )

  -- A refresh token that was made for some claims is good for a new pair as long as it lives,
  -- whatever is in the database: an account that was disabled or is gone is not asked for. At any
  -- time before the new access token expires, a request with it gets past the middleware: a
  -- route that is not below /admin is what the handler makes of the claims, and one below /admin
  -- is what the test for admins makes of them.
  pub refresh_then_request :
      (L : JwtLaws A.jwt) (c : Claims) (start later t : ℕ) (old new : TokenPair)
      → Encodable A.jwt (record c { subject = c.username })
      → new_pair A.jwt A.auth c start later ≡ ok old
      → A.now < A.jwt.numeric_date (later + A.auth.refresh_ttl)
      → let c' = stamped A.jwt c A.auth.refresh_ttl (codes "refresh") later in
        new_pair A.jwt A.auth c' A.now A.now ≡ ok new
        → t < A.jwt.numeric_date (A.now + A.auth.access_ttl)
        → (w : World A) (b : Bool) (r : Private) (s : Restricted) (v : World (at_time A t))
        → (handle_refresh A (some old.refresh_token) w ≡ (tokens new, w))
          × (serve (at_time A t) b (with_token new (private r)) v
              ≡ private_handler
                  (at_time A t)
                  r
                  (some (stamped A.jwt c A.auth.access_ttl (codes "access") A.now))
                  v)
          × (serve (at_time A t) b (with_token new (restricted s)) v
              ≡ require_admin
                  (at_time A t)
                  (some (stamped A.jwt c A.auth.access_ttl (codes "access") A.now))
                  (restricted_handler (at_time A t) s)
                  v)
  unfolding handle_refresh
  refresh_then_request L c start later t old new plain made lives again fresh w b r s v =
      let c' = stamped A.jwt c A.auth.refresh_ttl (codes "refresh") later in
      let (_, _, refresh, _) = new_pair_lem A.jwt L A.auth c plain start later old made A.now in
      let (p, q) = bearer-served L c' new t plain again fresh b r s v in
      (rw (refresh, ltb_of_lt A.now _ lives, again) refl, p, q)
