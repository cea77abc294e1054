-- ===== src/Lib.antt =====
-- A model of the backend of the Sabalan panel, and what is proved about it.
--
-- The panel keeps VPN users on a MikroTik router. An admin sees all of them; a manager sees and
-- changes his own, which are those whose name begins with his slug or whose comment on the router
-- carries his token. Each manager has a quota of concurrent connections. A database of the panel
-- keeps admins, managers, a row of data for a user, and the profile activations, the renewals,
-- that an admin settles later.
--
-- Which file models which part:
--   Result          errors as values and the state monad of a call that may fail
--   Owner           backend/internal/owner/owner.go: Registry.Resolve is resolve,
--                   Registry.OwnerMismatch is owner_mismatch, SlugOverlaps is slug_overlaps
--   Quota           backend/internal/quota/quota.go
--   Password        backend/internal/password/password.go and cert.go
--   Mikrotik        backend/internal/mikrotik: the interface Client (Types); CachedClient (Cache);
--                   FakeClient (Fake); the quoting of GenerateCertificate (Script). Calls has the
--                   calls as data, and IsSteady, what the panel relies on of a router.
--   Auth            backend/internal/auth: Issuer.NewPair and Issuer.Parse of jwt.go are new_pair
--                   and parse; what Middleware and HandleRefresh make of a token are
--                   bearer_claims and refresh_claims
--   Config          backend/internal/config/config.go: Load is load, over the environment
--   Store           backend/internal/store: Rows and Tables are the schema, Managers, Metas,
--                   Activations and Renewals the statements. Interface is the record Store that
--                   the application takes; sql_store, the tables, is one such store.
--   App             backend/internal/app: State (app.go), Ovpn and Cert (cert.go), Sync
--                   (shared_users_sync.go), Service and Lists (vpn_service.go), ByName
--                   (vpn_by_name.go), Renewals (shared_users_sync.go, for the live sums), Dtos and
--                   Http (the answers), Handlers (the handlers of vpn_by_name.go, vpn_handlers.go,
--                   vpn_more_handlers.go, admin_handlers.go, auth_handlers.go and
--                   renewals_handlers.go, and BootstrapAdmin of bootstrap.go), Pages
--                   (renewals_handlers.go). Keeps has the rules by which an invariant of the
--                   database is carried through every handler.
--   Server          backend/internal/server/server.go: a route is a constructor of Public, Private
--                   or Restricted, serve is what New builds, middleware and require_admin are
--                   Middleware and RequireAdmin of backend/internal/auth/middleware.go
--   Tests           runs on small inputs
--
-- A call with state takes the state and returns a Result beside the new state, so what was written
-- before an error stays written. The application's state World has the database, the router and
-- the random source. The services and handlers are written over any Store and any Client; the
-- theorems about them hold for all of both, where they do not name the tables. A handler returns
-- its answer beside the new state. The time of a request, now, is a field of the application.
--
-- Numbers: an int or int64 is its 64-bit pattern, and add_int, sub_int, lt_int and le_int are its
-- sum, difference and signed order with the wrap-around. Texts are byte sequences; times in the
-- database are texts, as SQLite keeps them, and the clock of the cache and of the tokens is a
-- number. Rows of one time, which SQLite may list in any order, come in the order of their ids.
-- The tables can always be read; a database whose statements fail is another Store.
--
-- Bounds: strings.TrimSpace runs on fuel, the length of the text, and each round takes at least
-- one byte off; the generators of passwords make eight attempts, as in the code.
--
-- Parameters: the environment and time.ParseDuration (of Config), time.Parse (TimeFormats), the
-- classes of package unicode (Unicode), bcrypt (Bcrypt, with BcryptLaws), golang-jwt (Jwt, with
-- JwtLaws), the writing of numbers and dates in the client in memory, the template file (a field
-- of App), and the driver of the database (the interface Store).
--
-- Not modelled: the network client and the file calls of RouterOS, the matching of paths by chi
-- and the reading of ids in them, CORS, the reading of the file .env, the JSON of requests and
-- answers, the log, the migrations, the start-up in main.go, and the frontend.
-- strings.ToLower is that of the ASCII letters. A Go map has no order; the client in memory lists
-- in the order of insertion. The role of a request is one of the two that the program issues. A
-- slice out of range and a pointer that is nil are the answer panicked.
pub mod Base
pub mod Result
pub mod Owner
pub mod Mikrotik
pub mod Quota
pub mod Password
pub mod Store
pub mod Auth
pub mod Config
pub mod App
pub mod Server
pub mod Tests
