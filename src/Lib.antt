-- ===== src/Lib.antt =====
-- The authentication service: accounts, sessions under refresh tokens, access tokens, password
-- resets, and the limits on wrong logins.
--
-- The handlers of internal/service/auth/auth.go work on stores and caches behind the interfaces of
-- internal/domain/ports. They are modelled as actions: functions from a state to a reply or a gRPC
-- status, and the state after it.
--
-- * Auth/Monad has the service's dependencies (Deps, with AuthService), its state and the actions;
--   Auth/Helpers the helpers at the end of auth.go; Auth/Account has Register, ValidateToken and
--   ChangePassword, Auth/Login Login, Auth/Refresh RefreshToken, Auth/Logout Logout, LogoutAll and
--   RevokeSession, Auth/Listing ListSessions, Auth/Reset the three steps of a password reset.
--   Auth/Service runs requests one after another; Auth/Rules and Auth/Quiet are the rules for what
--   an action does to the sessions.
-- * Models and Ports have internal/domain; Ports/Laws says what a SessionStore keeps, in terms of the
--   user to whom the session of a token hash belongs.
-- * Memory has the in-memory backends: internal/adapters/storage/memory (Users, Sessions) and
--   internal/adapters/cache/memory (Cache, Resets). Maps of pointers are maps to addresses of a heap.
-- * Postgres has internal/adapters/storage/postgres: Users, Sessions and Audit are the three
--   repositories, each SQL statement a function on the tables of migrations; Rows has the rows of a
--   table, Connection what is assumed of the pool, whose calls may fail before or after the server
--   did its part. Postgres/Sessions/Statements, Deletion and Rotation lead up to
--   Postgres/Sessions/Implements, the laws of SessionStore.
-- * Redis has the commands of the client and internal/adapters/cache/redis: Cache and Resets, with
--   the Lua script of IncrOTPAttempts; Redis/Laws says what is assumed of the server.
-- * Bruteforce, Ratelimit, Token, Password and Validate have the packages of internal/lib, with
--   internal/lib/otp in Token; Interceptor and Context have internal/interceptor and the reading of
--   a call's metadata; Jwt has internal/adapters/token/jwt, and App the choice of a token manager
--   and the loading of its key in internal/app/app.go.
-- * Strings and Encoding have what the program uses of Go's strings, regexp, encoding/hex,
--   encoding/base64 and strconv (regular expressions are in Validate); Prelude has the shared
--   helpers.
--
-- Texts are lists of bytes, times are nanoseconds as natural numbers. What a call reads of the clock,
-- of crypto/rand and of uuid comes as a Stamp, one for each call. SHA-256, Argon2, the JWT library,
-- files, PEM and x509, JSON, the Redis client, the PostgreSQL pool and the Unicode tables are
-- parameters. Goroutines of logAudit and fireHook are recorded as tasks in the state. The handlers
-- run one after another: interleavings of two handlers are not modelled.
-- The token manager's library reads ASCII back as it was written and cuts times to whole seconds, and
-- cjson keeps whole numbers of fourteen digits: the theorems on tokens and on attempts in Redis are
-- about such values. An ID that a request names counts as a UUID in the form in which PostgreSQL
-- writes UUIDs. A stored hash with no passes or no threads, on which argon2.IDKey panics, is not
-- told apart: Hash writes no such hash.
-- Fuel is the length of the text where white space is trimmed, each step of which shortens it
-- (Strings/Trim).
--
-- Not modelled: start-up and serving, the reading of the configuration, connecting to the servers,
-- the HTTP gateway, log output, the migrator, test helpers and generated code: they call libraries
-- and keep no state of their own.
pub mod Prelude
pub mod Models
pub mod Ports
pub mod Memory
pub mod Strings
pub mod Encoding
pub mod Token
pub mod Password
pub mod Redis
pub mod Bruteforce
pub mod Validate
pub mod Ratelimit
pub mod Context
pub mod Interceptor
pub mod Auth
pub mod Jwt
pub mod Postgres
pub mod App
