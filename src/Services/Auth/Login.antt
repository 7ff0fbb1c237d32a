-- ===== src/Services/Auth/Login.antt =====
-- src/services/AuthService.cpp: who is logged in.
use bank_managment_system.Prelude.{
  ℕ, suc, ◌≡◌, ◌++◌, refl, subst, Bool, true, false, Option, none, some,
}
use bank_managment_system.Prelude.Int.{ℤ}
use bank_managment_system.Prelude.Text.{Bytes, text}
use bank_managment_system.Prelude.Exec.{Exception, Throws, ok, throw, what, recover, pure}
use bank_managment_system.Core.{success, failure, VoidResult, void_failure}
use bank_managment_system.Domain.Types.{CustomerId}
use bank_managment_system.Domain.Session.{Session}
use bank_managment_system.Domain.Customer.{Customer}
use bank_managment_system.Domain.PasswordHasher
use bank_managment_system.Domain.PasswordHasher.{PasswordHash}
use bank_managment_system.Persistence.Repository.{AuditRepository}
use bank_managment_system.Services.Audit
use bank_managment_system.Services.Audit.{Trail}
use bank_managment_system.Services.Sessions.{SessionManager, find}
use bank_managment_system.Services.Sessions.Create.{Created, attempt_token, create-Created}
use bank_managment_system.Services.Auth.{
  Surroundings, AuthService, checked, login, login_checked, logged_in,
}

-- A handler that returns makes the whole call return.
returns_always :
    {S A : Type 0} (f : Exception → A) (r : Throws A) (t : S)
    → (a : A) × ((recover (λ ex. pure (f ex)) r t).0 ≡ ok a)
returns_always f (ok a) t = (a, refl)
returns_always f (throw ex) t = (f ex, refl)

-- The audit service never throws, whatever the repository does.
append_returns :
    (repository : AuditRepository) (time_at : ℕ → ℤ) (actor : CustomerId) (action details : Bytes)
    (t : Trail repository)
    → (v : VoidResult) × ((Audit.append repository time_at actor action details t).0 ≡ ok v)
unfolding Audit.append
append_returns repository time_at actor action details t =
    returns_always (λ ex. void_failure (text "audit append failed: " ++ what ex)) _ _

-- Whether the pin is the customer's.
abbrev pub right_pin : Surroundings → Bytes → Option Customer → Bool
right_pin s pin none = false
right_pin s pin (some c) = PasswordHasher.verify s.pbkdf2 pin c.pin_hash

module _ (s : Surroundings) where
  refused_answer :
      (attempts : ℕ) (id : CustomerId) (a : AuthService s)
      → ((login_checked s attempts id none a).0 ≡ ok (some (failure (text "invalid credentials"))))
        × ((login_checked s attempts id none a).1.sessions ≡ a.sessions)
  unfolding login_checked
  refused_answer attempts id a =
      let (v, e) =
        append_returns s.audit s.audit_time_at id (text "auth.login_failed")
          (text "invalid credentials") a.trail in
      rw e (refl, refl)

  checked_wrong :
      (pin : Bytes) (o : Option Customer) (h : PasswordHash) (a : AuthService s)
      → a.dummy ≡ some h
      → right_pin s pin o ≡ false
      → checked s pin o a ≡ (ok none, a)
  unfolding checked
  checked_wrong pin none h a made wrong = rw made refl
  checked_wrong pin (some c) h a made wrong = rw wrong refl

  checked_right :
      (pin : Bytes) (c : Customer) (a : AuthService s)
      → PasswordHasher.verify s.pbkdf2 pin c.pin_hash ≡ true
      → checked s pin (some c) a ≡ (ok (some c), a)
  unfolding checked
  checked_right pin c a right = rw right refl

  -- The state after the customer has been looked for.
  abbrev looked_up : CustomerId → AuthService s → AuthService s
  looked_up id a = record a { customers = (s.customers.find_by_id id a.customers).1 }

  login_lem :
      (attempts : ℕ) (id : CustomerId) (pin : Bytes) (a : AuthService s) (o found : Option Customer)
      → (s.customers.find_by_id id a.customers).0 ≡ ok o
      → checked s pin o (looked_up id a) ≡ (ok found, looked_up id a)
      → login s attempts id pin a ≡ login_checked s attempts id found (looked_up id a)
  unfolding login
  login_lem attempts id pin a o found looked check = rw looked (rw check refl)

  -- Once the dummy hash has been made, a login with the id of no customer and one with a wrong pin
  -- get the same answer, and no session is made.
  pub login_refused :
      (attempts : ℕ) (id : CustomerId) (pin : Bytes) (a : AuthService s) (o : Option Customer)
      (h : PasswordHash)
      → (s.customers.find_by_id id a.customers).0 ≡ ok o
      → a.dummy ≡ some h
      → right_pin s pin o ≡ false
      → let (r, a') = login s attempts id pin a in
        (r ≡ ok (some (failure (text "invalid credentials")))) × (a'.sessions ≡ a.sessions)
  login_refused attempts id pin a o h looked made wrong =
      rw
        (login_lem attempts id pin a o none looked
          (checked_wrong pin o h (looked_up id a) made wrong))
        (refused_answer attempts id (looked_up id a))

  made_answer :
      (c : Customer) (m : SessionManager) (a : AuthService s)
      (out : Option Session × SessionManager)
      → Created s.byte_at s.session_time_at s.ttl c.id c.role m out
      → let (r, a') = logged_in s c out.0 (record a { sessions = out.1 }) in
        (session : Session) × (r ≡ ok (some (success session)))
        × Created s.byte_at s.session_time_at s.ttl c.id c.role m (some session, a'.sessions)
  made_answer c m a out h =
      let (v, e) =
        append_returns s.audit s.audit_time_at c.id (text "auth.login") (text "success") a.trail in
      rw h.returned (
        rw e (
          h.session,
          refl,
          subst (λ o. Created s.byte_at s.session_time_at s.ttl c.id c.role m (o, out.1)) h.returned
              h,
        ))

  -- A login of a customer with the right pin returns, if one of the next attempts draws a token that
  -- is not in use: its answer is a new authenticated session of that customer with the customer's
  -- role, which the session manager holds as create leaves it.
  pub login-Created :
      (k : ℕ) (id : CustomerId) (pin : Bytes) (a : AuthService s) (c : Customer)
      → (s.customers.find_by_id id a.customers).0 ≡ ok (some c)
      → PasswordHasher.verify s.pbkdf2 pin c.pin_hash ≡ true
      → find (attempt_token s.byte_at k a.sessions) a.sessions.sessions ≡ none
      → let (r, a') = login s (suc k) id pin a in
        (session : Session) × (r ≡ ok (some (success session)))
        × Created s.byte_at s.session_time_at s.ttl c.id c.role a.sessions
            (some session, a'.sessions)
  unfolding login_checked
  login-Created k id pin a c looked right free =
      rw
        (login_lem (suc k) id pin a (some c) (some c) looked
          (checked_right pin c (looked_up id a) right))
        (made_answer c a.sessions (looked_up id a) _
          (create-Created s.byte_at s.session_time_at s.ttl k c.id c.role a.sessions free))
