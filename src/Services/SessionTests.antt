-- ===== src/Services/SessionTests.antt =====
-- src/services/SessionManager.cpp and AuthService.cpp: runs with one session and one customer.
use bank_managment_system.Prelude.{ℕ, ◌*◌, ◌≡◌, ◌≢◌, refl, true, none, some, [], ◌∷◌}
use bank_managment_system.Prelude.Int.{ℤ, pos}
use bank_managment_system.Prelude.Text.{Bytes, text, text_eq}
use bank_managment_system.Prelude.Exec.{ok}
use bank_managment_system.Prelude.OrderedMap.{lookup}
use bank_managment_system.Core.{success, failure}
use bank_managment_system.Domain.Types.{Role, SessionState}
use bank_managment_system.Domain.Session.{Session}
use bank_managment_system.Domain.Customer.{Customer}
use bank_managment_system.Domain.PasswordHasher
use bank_managment_system.Domain.PasswordHasher.{PasswordHash, algorithm_name, bytes_to_hex}
use bank_managment_system.Domain.Tests.{pbkdf2, random, pin}
use bank_managment_system.Persistence.InMemory.{in_memory_customers, in_memory_audit}
use bank_managment_system.Services.Audit.{first_audit_id}
use bank_managment_system.Services.Sessions.{
  SessionManager, token_from, find, validate, revoke, create,
}
use bank_managment_system.Services.Sessions.Create.{Created, attempt_token, create-Created}
use bank_managment_system.Services.Sessions.Laws.{validate-revoke}
use bank_managment_system.Services.Auth.{Surroundings, AuthService, login}
use bank_managment_system.Services.Auth.Login.{login_refused, login-Created}

abbrev clock : ℕ → ℤ
clock n = pos (1_000_000 * n)

abbrev old_session : Session
old_session = record {
  token = text "t";
  customer_id = 1;
  role = Role.customer;
  state = SessionState.authenticated;
  expires_at = pos 5;
}

abbrev manager : SessionManager
manager = record { sessions = (text "t", old_session) ∷ []; draws = 0; clock_calls = 1 }

validate-revoke_example :
    ((validate clock (text "t") (revoke (text "t") manager).1).0 ≡ none)
    × ((u : Bytes)
        → text "t" ≢ u
        → (validate clock u (revoke (text "t") manager).1).0 ≡ (validate clock u manager).0)
validate-revoke_example = validate-revoke clock (text "t") manager

abbrev draws : ℕ → ℕ
draws n = 171

unused : find (attempt_token draws 0 manager) manager.sessions ≡ none
unfolding find token_from text text_eq
unused = refl

create-Created_example :
    Created draws clock
      (pos 100)
      1
      Role.teller
      manager
      (create draws clock (pos 100) 1 1 Role.teller manager)
create-Created_example = create-Created draws clock (pos 100) 0 1 Role.teller manager unused

abbrev surroundings : Surroundings
surroundings = record {
  customers = in_memory_customers;
  audit = in_memory_audit;
  pbkdf2 = pbkdf2;
  random = random;
  byte_at = draws;
  session_time_at = clock;
  audit_time_at = clock;
  ttl = pos 100;
}

abbrev hash : PasswordHash
hash = record {
  algorithm = algorithm_name;
  salt = bytes_to_hex (1 ∷ []);
  digest = bytes_to_hex (4 ∷ []);
}

abbrev customer : Customer
customer = record { id = 1; name = text "Ada"; pin_hash = hash; role = Role.customer }

abbrev service : AuthService surroundings
service = record {
  customers = (1, customer) ∷ [];
  sessions = manager;
  trail = record { entries = []; next_audit_id = first_audit_id; clock_calls = 0 };
  dummy = some hash;
}

customer_found : (in_memory_customers.find_by_id 1 service.customers).0 ≡ ok (some customer)
unfolding lookup
customer_found = refl

nobody_found : (in_memory_customers.find_by_id 9 service.customers).0 ≡ ok none
unfolding lookup
nobody_found = refl

pin_right : PasswordHasher.verify pbkdf2 pin hash ≡ true
unfolding PasswordHasher.verify PasswordHasher.create_with_salt PasswordHasher.hex_to_bytes
    PasswordHasher.derive bytes_to_hex algorithm_name text text_eq
pin_right = refl

login_refused_example :
    let (r, a') = login surroundings 1 9 pin service in
    (r ≡ ok (some (failure (text "invalid credentials")))) × (a'.sessions ≡ manager)
login_refused_example = login_refused surroundings 1 9 pin service none hash nobody_found refl refl

login-Created_example :
    let (r, a') = login surroundings 1 1 pin service in
    (session : Session) × (r ≡ ok (some (success session)))
    × Created draws clock (pos 100) 1 Role.customer manager (some session, a'.sessions)
login-Created_example =
    login-Created surroundings 0 1 pin service customer customer_found pin_right unused
