-- ===== src/Server/Guards.antt =====
-- What a request has passed when its handler runs.
use fast_bypass.Base.{◌≡◌, refl, ◌∙◌, Text, Bool, Option, none, some, ◌⊎◌, inl, inr}
use fast_bypass.Auth.{Role, Claims, admin, manager, bearer_claims}
use fast_bypass.App.{App, World, Response, Handler, error, unauthorized, forbidden}
use fast_bypass.Server.{
  Private, Restricted, private, restricted, private_handler, restricted_handler, let_through,
  role_passes, middleware, require_admin, serve,
}

module _ (A : App) where
  -- The request was answered 401, and nothing has changed.
  abbrev pub Rejected : Response × World A → World A → Type 0
  Rejected r w = r ≡ (error 401 unauthorized, w)

  let_through-cases :
      (o : Option Claims) (next : Option Claims → Handler A) (w : World A)
      → ((o ≡ none) × Rejected (let_through A o next w) w)
        ⊎ ((c : Claims) × (o ≡ some c) × (let_through A o next w ≡ next (some c) w))
  let_through-cases none next w = inl (refl, refl)
  let_through-cases (some c) next w = inr (c, refl, refl)

  role_passes-cases :
      (r : Role) (c : Claims) (next : Option Claims → Handler A) (w : World A)
      → ((r ≡ manager) × (role_passes A r c next w ≡ (error 403 forbidden, w)))
        ⊎ ((r ≡ admin) × (role_passes A r c next w ≡ next (some c) w))
  role_passes-cases manager c next w = inl (refl, refl)
  role_passes-cases admin c next w = inr (refl, refl)

  -- What becomes of a request to a route behind the middleware: without a valid access token it
  -- is rejected; with one it is what the handler makes of the claims in it.
  abbrev pub IsGuarded : Text → (Option Claims → Handler A) → Response × World A → World A → Type 0
  IsGuarded h next done w =
      ((bearer_claims A.jwt A.auth h A.now ≡ none) × Rejected done w)
      ⊎ ((c : Claims) × (bearer_claims A.jwt A.auth h A.now ≡ some c) × (done ≡ next (some c) w))

  -- And of a request to a route of admins: a manager's is answered 403, with nothing changed.
  abbrev pub IsAdminGuarded :
      Text → (Option Claims → Handler A) → Response × World A → World A → Type 0
  IsAdminGuarded h next done w =
      ((bearer_claims A.jwt A.auth h A.now ≡ none) × Rejected done w)
      ⊎ (((c : Claims) × (bearer_claims A.jwt A.auth h A.now ≡ some c)
            × (c.role ≡ manager)
            × (done ≡ (error 403 forbidden, w)))
          ⊎ ((c : Claims) × (bearer_claims A.jwt A.auth h A.now ≡ some c)
              × (c.role ≡ admin)
              × (done ≡ next (some c) w)))

  -- A request to a route behind the middleware either holds no valid access token, and is answered
  -- 401 with nothing changed, or it holds one, and is what the handler makes of the claims in it.
  -- A request to a route of admins is so too, but with a manager's token it is answered 403 with
  -- nothing changed: its handler runs for the token of an admin only.
  pub serve-IsGuarded :
      (ping_db : Bool) (h : Text) (r : Private) (s : Restricted) (w : World A)
      → IsGuarded h
          (private_handler A r)
          (serve A ping_db (record { authorization = h; route = private r }) w)
          w
        × IsAdminGuarded h
            (restricted_handler A s)
            (serve A ping_db (record { authorization = h; route = restricted s }) w)
            w
  unfolding serve middleware require_admin
  serve-IsGuarded ping_db h r s w = (
    let_through-cases (bearer_claims A.jwt A.auth h A.now) (private_handler A r) w,
    elim (let_through-cases (bearer_claims A.jwt A.auth h A.now)
        (λ c. require_admin A c (restricted_handler A s)) w) [
          | inl e ↦ inl e
          | inr (c, e, k) ↦ elim (role_passes-cases c.role c (restricted_handler A s) w) [
            | inl (q, j) ↦ inr (inl (c, e, q, k ∙ j))
            | inr (q, j) ↦ inr (inr (c, e, q, k ∙ j))
          ]
        ],
  )
