-- ===== src/Server/Accounts.antt =====
-- What requests without the token of an admin leave alone.
use fast_bypass.Base.{◌≡◌, refl, Text, Bool, true, false, Option, none, some, List, [], ◌∷◌}
use fast_bypass.Auth.{Role, Claims, admin, manager, bearer_claims}
use fast_bypass.Store.{Db}
use fast_bypass.App.{App, on_tables, World, Handler}
use fast_bypass.App.Keeps.{KeptByManagers, Keeps}
use fast_bypass.App.Keeps.Accounting.{
  HasSameAccounts, KeepsAccounts, IsKeyed, fixed_rows, accounts-Kept,
}
use fast_bypass.Server.{
  Private, Restricted, Route, public, private, restricted, Request, private_handler,
  restricted_handler, let_through, role_passes, middleware, require_admin, routed, serve,
}
use fast_bypass.Server.Links.{serve_all, public_handler-Keeps, private_handler-Keeps}

abbrev is_admin : Role → Bool
is_admin admin = true
is_admin manager = false

abbrev admits_admin : Option Claims → Bool
admits_admin none = false
admits_admin (some c) = is_admin c.role

-- None of the requests has an access token of an admin in its header.
abbrev pub HasNoAdmin : App → List (Bool × Request) → Type 0
HasNoAdmin A [] = Unit
HasNoAdmin A ((b, req) ∷ reqs) =
    (admits_admin (bearer_claims A.jwt A.auth req.authorization A.now) ≡ false) × HasNoAdmin A reqs

module _ {A : App} {Q : A.store.State → Type 0} (M : KeptByManagers A.store Q) where
  let_through-private :
      (o : Option Claims) (r : Private) → Keeps A Q (let_through A o (private_handler A r))
  let_through-private none r = record { at = λ w h. h }
  let_through-private (some c) r = private_handler-Keeps M r (some c)

  role_passes-managers :
      (r : Role) (c : Claims) (next : Option Claims → Handler A)
      → is_admin r ≡ false
      → Keeps A Q (role_passes A r c next)
  role_passes-managers admin c next h = cc
  role_passes-managers manager c next h = record { at = λ w k. k }

  let_through-restricted :
      (o : Option Claims) (r : Restricted)
      → admits_admin o ≡ false
      → Keeps A Q (let_through A o (λ c. require_admin A c (restricted_handler A r)))
  unfolding require_admin
  let_through-restricted none r h = record { at = λ w k. k }
  let_through-restricted (some c) r h = role_passes-managers c.role c (restricted_handler A r) h

  routed-managers :
      (b : Bool) (t : Text) (r : Route)
      → admits_admin (bearer_claims A.jwt A.auth t A.now) ≡ false
      → Keeps A Q (routed A b t r)
  unfolding middleware
  routed-managers b t (public r) h = public_handler-Keeps M b r
  routed-managers b t (private r) h = let_through-private (bearer_claims A.jwt A.auth t A.now) r
  routed-managers b t (restricted r) h =
      let_through-restricted (bearer_claims A.jwt A.auth t A.now) r h

serve_all-KeepsAccounts :
    (A : App) (d : Db) (reqs : List (Bool × Request)) (w : World (on_tables A))
    → HasNoAdmin A reqs
    → KeepsAccounts d w.db
    → KeepsAccounts d (serve_all (on_tables A) reqs w).db
unfolding serve
serve_all-KeepsAccounts A d [] w n h = h
serve_all-KeepsAccounts A d ((b, req) ∷ reqs) w n h =
    serve_all-KeepsAccounts A d reqs (serve (on_tables A) b req w).1 n.1 (
      (routed-managers {A = on_tables A} {Q = KeepsAccounts d} (accounts-Kept d) b req.authorization
          req.route n.0).at
        w h)

-- Over the tables, where no two managers have one id, requests of which none has the access token
-- of an admin, in whatever order and however they are answered, leave the accounts alone: no
-- manager and no admin is new or gone, and none has another id, user name, slug, quota or
-- certificate, or is switched on or off.
pub serve_all-HasSameAccounts :
    (A : App) (reqs : List (Bool × Request)) (w : World (on_tables A))
    → IsKeyed (fixed_rows w.db.managers)
    → HasNoAdmin A reqs
    → HasSameAccounts w.db (serve_all (on_tables A) reqs w).db
serve_all-HasSameAccounts A reqs w k n =
    (serve_all-KeepsAccounts A w.db reqs w n ((refl, refl), k)).0
