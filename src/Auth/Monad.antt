-- ===== src/Auth/Monad.antt =====
-- internal/service/auth/auth.go: the service's dependencies and state, and handlers as actions
-- that change the state and return a reply or a gRPC status.
use auth_service.Prelude.{ℕ, suc, Text, String, Option, List, ◌∷◌, Bool, true, false}
use auth_service.Models.{Stamp}
use auth_service.Ports.{
  Error, Result, ok, err, UserStore, SessionStore, SessionCache, PasswordResetStore,
  AccessTokenManager, AuditEvent, HookEvent,
}
use auth_service.Redis.{Client}
use auth_service.Bruteforce.{Limits, GuardState}

-- The fields of AuthService, the backends behind them, and what the libraries below it take from
-- outside the program. `stamp n` is what the call that comes n-th reads of the clock and of chance.
pub record Deps : Type 1 where
  pub Users : Type 0
  pub Sessions : Type 0
  pub Cache : Type 0
  pub Resets : Type 0
  pub Server : Type 0
  pub user_store : UserStore Users
  pub session_store : SessionStore Sessions
  pub session_cache : SessionCache Cache
  pub reset_store : PasswordResetStore Resets
  pub token_mgr : AccessTokenManager
  pub redis : Client Server
  -- auditStore and hook are set, bruteGuard with its settings
  pub has_audit : Bool
  pub has_hook : Bool
  pub brute_guard : Option Limits
  pub refresh_ttl : ℕ
  pub sha256 : List ℕ → List ℕ
  pub id_key : Text → List ℕ → ℕ → ℕ → ℕ → ℕ → List ℕ
  pub is_letter : ℕ → Bool
  pub is_digit : ℕ → Bool
  pub stamp : ℕ → Stamp

-- A goroutine that a handler started: logAudit's, or fireHook's.
pub data Task : Type 0 where
  audit : AuditEvent → Task
  hook : HookEvent → Task

-- The state behind a service; `calls` counts the stamps that were read, the latest task is first.
pub record State (d : Deps) : Type 0 where
  pub users : d.Users
  pub sessions : d.Sessions
  pub cache : d.Cache
  pub resets : d.Resets
  pub guard : GuardState d.Server
  pub calls : ℕ
  pub tasks : List Task

-- The gRPC codes that the service returns.
pub data Code : Type 0 where
  invalid_argument already_exists internal unauthenticated resource_exhausted not_found : Code

pub record Status : Type 0 where
  pub code : Code
  pub message : String

abbrev pub Action : Type 0 → Type 0 → Type 0
Action S A = S → Result Status A × S

module _ {S : Type 0} where
  abbrev pub pure : {A : Type 0} → A → Action S A
  pure a s = (ok a, s)

  -- return nil, status.Error(code, message)
  abbrev pub fail : {A : Type 0} → Code → String → Action S A
  fail c m s = (err (record { code = c; message = m }), s)

  abbrev pub continue : {A B : Type 0} → Result Status A → (A → Action S B) → Action S B
  continue (ok a) f s = f a s
  continue (err e) f s = (err e, s)

  infixl 5 ◌>>=◌ ◌>>◌
  unfoldable pub ◌>>=◌ : {A B : Type 0} → Action S A → (A → Action S B) → Action S B
  ◌>>=◌ m f s = let r = m s in continue r.0 f r.1

  abbrev pub ◌>>◌ : {A B : Type 0} → Action S A → Action S B → Action S B
  m >> k = m >>= λ _. k

  -- What follows a call whose error is handled on the spot.
  abbrev pub case :
      {A B : Type 0} → Result Error A → (Error → Action S B) → (A → Action S B) → Action S B
  case (ok a) on_error on_value = on_value a
  case (err e) on_error on_value = on_error e

  abbrev pub when : Bool → Action S (Unit {0}) → Action S (Unit {0})
  when true m = m
  when false m = pure tt

module _ {d : Deps} where
  -- The next stamp.
  unfoldable pub read : Action (State d) Stamp
  read s = (ok (d.stamp s.calls), record s { calls = suc s.calls })

  -- One call of a store, whose result is handed on whatever it is.
  unfoldable pub on_users : {A : Type 0} → (d.Users → A × d.Users) → Action (State d) A
  on_users f s = let r = f s.users in (ok r.0, record s { users = r.1 })

  unfoldable pub on_sessions : {A : Type 0} → (d.Sessions → A × d.Sessions) → Action (State d) A
  on_sessions f s = let r = f s.sessions in (ok r.0, record s { sessions = r.1 })

  unfoldable pub on_cache : {A : Type 0} → (d.Cache → A × d.Cache) → Action (State d) A
  on_cache f s = let r = f s.cache in (ok r.0, record s { cache = r.1 })

  unfoldable pub on_resets : {A : Type 0} → (d.Resets → A × d.Resets) → Action (State d) A
  on_resets f s = let r = f s.resets in (ok r.0, record s { resets = r.1 })

  unfoldable pub on_guard :
      {A : Type 0} → (GuardState d.Server → A × GuardState d.Server) → Action (State d) A
  on_guard f s = let r = f s.guard in (ok r.0, record s { guard = r.1 })

  unfoldable pub spawn : Task → Action (State d) (Unit {0})
  spawn t s = (ok tt, record s { tasks = t ∷ s.tasks })
