-- ===== src/App/State.antt =====
-- What a request works with (backend/internal/app/app.go): the configuration, the
-- store, the router, and the state of both with the random source.
use fast_bypass.Base.{ℕ, Text, List}
use fast_bypass.Result.{Exec, Result, ⊤, ok, err, ◌>>=◌, pure}
use fast_bypass.Mikrotik.{User, Client}
use fast_bypass.Config.{Config}
use fast_bypass.Store.{Store, sql_store}
use fast_bypass.Owner.{Registry, build_registry}
use fast_bypass.Quota.{TimeFormats}
use fast_bypass.Password.{Unicode, Bcrypt}
use fast_bypass.Auth.{Jwt, Issuer}

-- `refresh_list_users` is that of the cached client; `ovpn_template` is what `readOvpnTemplate`
-- finds; `now` is the time of the request.
pub record App : Type 1 where
  pub cfg : Config
  pub store : Store
  pub mt : Client
  pub refresh_list_users : Exec mt.State (List User)
  pub times : TimeFormats
  pub now : ℕ
  pub ovpn_template : Result Text
  pub unicode : Unicode
  pub bcrypt : Bcrypt
  pub jwt : Jwt
  pub auth : Issuer

-- The application over the tables of schema.sql.
abbrev pub on_tables : App → App
on_tables A = record A { store = sql_store }

module _ (A : App) where
  pub record World : Type 0 where
    pub db : A.store.State
    pub router : A.mt.State
    pub random : List ℕ

  -- A read of the store, a statement on it, a call of the router, a draw.
  abbrev pub query : {X : Type 0} → (A.store.State → Result X) → Exec World X
  query f w = (f w.db, w)

  abbrev pub on_db : {X : Type 0} → Exec A.store.State X → Exec World X
  on_db m w = let (r, d) = m w.db in (r, record w { db = d })

  abbrev pub on_router : {X : Type 0} → Exec A.mt.State X → Exec World X
  on_router m w = let (r, s) = m w.router in (r, record w { router = s })

  abbrev pub on_random : {X : Type 0} → Exec (List ℕ) X → Exec World X
  on_random m w = let (r, s) = m w.random in (r, record w { random = s })

  abbrev pub undone : {X : Type 0} → Result X → Exec World ⊤ → Exec World X
  undone (ok x) undo w = (ok x, w)
  undone (err e) undo w = (err e, (undo w).1)

  -- Where the call fails, the second one is made, and the error is kept.
  abbrev pub or_rollback : {X : Type 0} → Exec World X → Exec World ⊤ → Exec World X
  or_rollback m undo w = let (r, w') = m w in undone r undo w'

  unfoldable pub registry : Exec World Registry
  registry = do
    managers ← query A.store.list_managers
    pure (build_registry managers A.cfg.username_prefix_sep)
