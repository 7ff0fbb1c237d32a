-- ===== src/Services/Auth.antt =====
-- src/services/AuthService.h and AuthService.cpp.
pub mod Login
use bank_managment_system.Prelude.{ℕ, Bool, true, false, not, if◌then◌else◌, Option, none, some}
use bank_managment_system.Prelude.Int.{ℤ}
use bank_managment_system.Prelude.Text.{Bytes, text}
use bank_managment_system.Prelude.Exec.{Exec, Throws, ok, throw, pure, ◌>>=◌, ◌>>◌}
use bank_managment_system.Core.{Result, success, failure, VoidResult, void_success, void_failure}
use bank_managment_system.Domain.Types.{CustomerId}
use bank_managment_system.Domain.Session.{Session}
use bank_managment_system.Domain.Customer.{Customer}
use bank_managment_system.Domain.PasswordHasher
use bank_managment_system.Domain.PasswordHasher.{PasswordHash}
use bank_managment_system.Persistence.Repository.{AuditRepository, CustomerRepository}
use bank_managment_system.Services.Audit
use bank_managment_system.Services.Audit.{Trail}
use bank_managment_system.Services.Sessions
use bank_managment_system.Services.Sessions.{SessionManager}

-- What the service and the parts below it are given: the repositories, OpenSSL, the random draws of
-- the tokens, the clocks of the sessions and of the audit trail, and the time a session lasts.
pub record Surroundings : Type 1 where
  pub customers : CustomerRepository
  pub audit : AuditRepository
  pub pbkdf2 : Bytes → Bytes → ℕ → ℕ → Option Bytes
  pub random : ℕ → Option Bytes
  pub byte_at : ℕ → ℕ
  pub session_time_at : ℕ → ℤ
  pub audit_time_at : ℕ → ℤ
  pub ttl : ℤ

-- The state behind the references, and the static local hash of login, which is made at its first
-- use.
pub record AuthService (s : Surroundings) : Type 0 where
  pub customers : s.customers.State
  pub sessions : SessionManager
  pub trail : Trail s.audit
  pub dummy : Option PasswordHash

module _ (s : Surroundings) where
  abbrev pub on_customers : {A : Type 0} → Exec s.customers.State A → Exec (AuthService s) A
  on_customers m a = let (r, state) = m a.customers in (r, record a { customers = state })

  abbrev pub on_sessions :
      {A : Type 0} → (SessionManager → A × SessionManager) → Exec (AuthService s) A
  on_sessions f a = let (r, state) = f a.sessions in (ok r, record a { sessions = state })

  abbrev pub on_trail : {A : Type 0} → Exec (Trail s.audit) A → Exec (AuthService s) A
  on_trail m a = let (r, state) = m a.trail in (r, record a { trail = state })

  abbrev pub keep_dummy : Throws PasswordHash → Exec (AuthService s) (Unit {0})
  keep_dummy (throw ex) a = (throw ex, a)
  keep_dummy (ok hash) a = (ok tt, record a { dummy = some hash })

  -- static const PasswordHash dummy
  abbrev pub make_dummy : Option PasswordHash → Exec (AuthService s) (Unit {0})
  make_dummy (some hash) = pure tt
  make_dummy none =
      keep_dummy (PasswordHasher.create s.pbkdf2 s.random (text "dummy-pin-do-not-use"))

  -- Who is logged in, if the pin is right. The answer of verify for the dummy hash is dropped.
  unfoldable pub checked : Bytes → Option Customer → Exec (AuthService s) (Option Customer)
  checked pin none a = (make_dummy a.dummy >> pure none) a
  checked pin (some customer) a =
      (ok (if PasswordHasher.verify s.pbkdf2 pin customer.pin_hash then some customer else none), a)

  -- After the session has been made; without one, the attempts at a token are used up.
  abbrev pub logged_in : Customer → Option Session → Exec (AuthService s) (Option (Result Session))
  logged_in customer none = pure none
  logged_in customer (some session) = do
    ignored ←
        on_trail
          (Audit.append s.audit s.audit_time_at customer.id (text "auth.login") (text "success"))
    pure (some (success session))

  -- After the check of the pin.
  unfoldable pub login_checked :
      ℕ → CustomerId → Option Customer → Exec (AuthService s) (Option (Result Session))
  login_checked attempts id none = do
    ignored ← on_trail (
        Audit.append s.audit s.audit_time_at id (text "auth.login_failed")
          (text "invalid credentials"))
    pure (some (failure (text "invalid credentials")))
  login_checked attempts id (some customer) = do
    session ←
        on_sessions
          (Sessions.create s.byte_at s.session_time_at s.ttl attempts customer.id customer.role)
    logged_in customer session

  -- `attempts` bounds the loop that looks for an unused token; `none` is a loop that goes on.
  unfoldable pub login : ℕ → CustomerId → Bytes → Exec (AuthService s) (Option (Result Session))
  login attempts id pin = do
    customer ← on_customers (s.customers.find_by_id id)
    found ← checked pin customer
    login_checked attempts id found

  unfoldable pub logout_revoked : Option Session → Exec (AuthService s) VoidResult
  logout_revoked none = pure (void_failure (text "invalid session"))
  logout_revoked (some session) = do
    ignored ← on_trail (
        Audit.append s.audit s.audit_time_at session.customer_id (text "auth.logout")
          (text "success"))
    pure void_success

  unfoldable pub logout : Bytes → Exec (AuthService s) VoidResult
  logout token = do session ← on_sessions (Sessions.revoke token); logout_revoked session
