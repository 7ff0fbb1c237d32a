-- ===== src/Services/Sessions.antt =====
-- src/services/SessionManager.h and SessionManager.cpp: each call is one step under its mutex.
pub mod Laws
pub mod Create
use bank_managment_system.Prelude.{
  ℕ, zero, suc, ◌+◌, ◌/◌, ◌%◌, Bool, true, false, not, if◌then◌else◌, Option, none, some, is_some,
  List, [], ◌∷◌, length,
}
use bank_managment_system.Prelude.Int.{ℤ, ltb_ℤ, ◌+ℤ◌}
use bank_managment_system.Prelude.Text.{Bytes, text_eq}
use bank_managment_system.Domain.Types.{CustomerId, Role, SessionState}
use bank_managment_system.Domain.Session.{Session}
use bank_managment_system.Persistence.Json.{hex_digit}

-- std::unordered_map<std::string, Session>: a token stands at most once.
abbrev pub Sessions : Type 0
Sessions = List (Bytes × Session)

unfoldable pub find : Bytes → Sessions → Option Session
find token [] = none
find token ((key, s) ∷ rest) = if text_eq key token then some s else find token rest

unfoldable pub erase : Bytes → Sessions → Sessions
erase token [] = []
erase token ((key, s) ∷ rest) =
    let later = erase token rest in if text_eq key token then later else (key, s) ∷ later

-- The members: the numbers of the next draw from the random device and of the next call of the clock
-- stand for the state of what they draw on.
pub record SessionManager : Type 0 where
  pub sessions : Sessions
  pub draws : ℕ
  pub clock_calls : ℕ

abbrev pub token_bytes : ℕ
token_bytes = 32

-- `byte_at` is the byte that each draw gives.
module _ (byte_at : ℕ → ℕ) where
  -- The loop of generate_token, from a draw on.
  unfoldable pub token_from : ℕ → ℕ → Bytes
  token_from zero draw = []
  token_from (suc bytes) draw =
      hex_digit (byte_at draw / 16) ∷ hex_digit (byte_at draw % 16) ∷ token_from bytes (draw + 1)

  unfoldable pub generate_token : SessionManager → Bytes × SessionManager
  unfolding token_from
  generate_token m = (token_from token_bytes m.draws, record m { draws = m.draws + token_bytes })

  -- The loop that draws tokens until one is not in use; `none` after so many attempts.
  unfoldable pub unused_token : ℕ → SessionManager → Option Bytes × SessionManager
  unused_token zero m = (none, m)
  unused_token (suc attempts) m =
      let (token, m') = generate_token m in
      let again = unused_token attempts m' in
      if is_some (find token m'.sessions) then again else (some token, m')

-- `time_at` is the time of each call of now_, `ttl` the duration ttl_.
module _ (time_at : ℕ → ℤ) (ttl : ℤ) where
  abbrev pub new_session : CustomerId → Role → Bytes → SessionManager → Session
  new_session customer role token m = record {
    token = token;
    customer_id = customer;
    role = role;
    state = SessionState.authenticated;
    expires_at = time_at m.clock_calls +ℤ ttl;
  }

  -- What follows the loop.
  unfoldable pub emplace :
      CustomerId → Role → Option Bytes → SessionManager → Option Session × SessionManager
  emplace customer role none m = (none, m)
  emplace customer role (some token) m =
      let s = new_session customer role token m in
      (some s, record m { sessions = (token, s) ∷ m.sessions; clock_calls = m.clock_calls + 1 })

module _ (byte_at : ℕ → ℕ) (time_at : ℕ → ℤ) (ttl : ℤ) where
  unfoldable pub create : ℕ → CustomerId → Role → SessionManager → Option Session × SessionManager
  unfolding unused_token emplace
  create attempts customer role m =
      let (token, m') = unused_token byte_at attempts m in
      emplace time_at ttl customer role token m'

module _ (time_at : ℕ → ℤ) where
  unfoldable pub validate_found :
      Bytes → Option Session → SessionManager → Option Session × SessionManager
  validate_found token none m = (none, m)
  validate_found token (some s) m =
      let ticked = record m { clock_calls = m.clock_calls + 1 } in
      if not (ltb_ℤ (time_at m.clock_calls) s.expires_at)
      then (none, record ticked { sessions = erase token m.sessions })
      else (some s, ticked)

  unfoldable pub validate : Bytes → SessionManager → Option Session × SessionManager
  unfolding validate_found
  validate token m = validate_found token (find token m.sessions) m

unfoldable pub revoke_found :
    Bytes → Option Session → SessionManager → Option Session × SessionManager
revoke_found token none m = (none, m)
revoke_found token (some s) m = (
  some (record s { state = SessionState.revoked }),
  record m { sessions = erase token m.sessions },
)

unfoldable pub revoke : Bytes → SessionManager → Option Session × SessionManager
unfolding revoke_found
revoke token m = revoke_found token (find token m.sessions) m

abbrev pub size : SessionManager → ℕ
size m = length m.sessions
