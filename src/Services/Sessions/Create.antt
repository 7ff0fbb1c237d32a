-- ===== src/Services/Sessions/Create.antt =====
-- src/services/SessionManager.cpp: create, and the loop that draws a token.
use bank_managment_system.Prelude.{
  ℕ, zero, suc, ◌+◌, ◌*◌, ◌≡◌, ◌≢◌, refl, ap, subst, ◌∙◌, Option, none, some, Option-cases, inl,
  inr, arith,
}
use bank_managment_system.Prelude.Int.{ℤ, ◌+ℤ◌}
use bank_managment_system.Prelude.Text.{Bytes, text_eq_refl}
use bank_managment_system.Domain.Types.{CustomerId, Role, SessionState}
use bank_managment_system.Domain.Session.{Session}
use bank_managment_system.Services.Sessions.{
  SessionManager, find, token_from, token_bytes, generate_token, unused_token, new_session, emplace,
  create, validate,
}
use bank_managment_system.Services.Sessions.Laws.{live, validated, text_eq_ne}

module _ (byte_at : ℕ → ℕ) where
  -- The token of each attempt.
  abbrev pub attempt_token : ℕ → SessionManager → Bytes
  attempt_token k m = token_from byte_at token_bytes (m.draws + k * token_bytes)

  abbrev drawn_after : SessionManager → SessionManager
  drawn_after m = record m { draws = m.draws + token_bytes }

  unused_token_free :
      (k : ℕ) (m : SessionManager)
      → find (token_from byte_at token_bytes m.draws) m.sessions ≡ none
      → unused_token byte_at (suc k) m
        ≡ (some (token_from byte_at token_bytes m.draws), drawn_after m)
  unfolding unused_token generate_token
  unused_token_free k m e = rw e refl

  unused_token_taken :
      (k : ℕ) (m : SessionManager) (s : Session)
      → find (token_from byte_at token_bytes m.draws) m.sessions ≡ some s
      → unused_token byte_at (suc k) m ≡ unused_token byte_at k (drawn_after m)
  unfolding unused_token generate_token
  unused_token_taken k m s e = rw e refl

  record Stops (m : SessionManager) (out : Option Bytes × SessionManager) : Type 0 where
    token : Bytes
    drawn : out.0 ≡ some token
    unused : find token m.sessions ≡ none
    same_sessions : out.1.sessions ≡ m.sessions
    same_calls : out.1.clock_calls ≡ m.clock_calls

  at_once :
      (k : ℕ) (m : SessionManager)
      → find (token_from byte_at token_bytes m.draws) m.sessions ≡ none
      → Stops m (unused_token byte_at (suc k) m)
  at_once k m e = rw (unused_token_free k m e) (record {
    token = token_from byte_at token_bytes m.draws;
    drawn = refl;
    unused = e;
    same_sessions = refl;
    same_calls = refl;
  })

  -- The loop stops at an attempt whose token is not in use, at the latest.
  unused_token-Stops :
      (k : ℕ) (m : SessionManager)
      → find (attempt_token k m) m.sessions ≡ none
      → Stops m (unused_token byte_at (suc k) m)
  unused_token-Stops zero m free =
      let here : m.draws + 0 * token_bytes ≡ m.draws = omega arith in
      at_once 0 m (subst (λ d. find (token_from byte_at token_bytes d) m.sessions ≡ none) here free)
  unused_token-Stops (suc k) m free =
      let shift : m.draws + suc k * token_bytes ≡ m.draws + token_bytes + k * token_bytes =
        omega arith in
      let rest =
        unused_token-Stops k (drawn_after m)
          (subst (λ d. find (token_from byte_at token_bytes d) m.sessions ≡ none) shift free) in
      elim (Option-cases (find (token_from byte_at token_bytes m.draws) m.sessions)) [
        | inl e ↦ at_once (suc k) m e
        | inr (s, e) ↦ rw (unused_token_taken (suc k) m s e) (record {
          token = rest.token;
          drawn = rest.drawn;
          unused = rest.unused;
          same_sessions = rest.same_sessions;
          same_calls = rest.same_calls;
        })
      ]

module _ (byte_at : ℕ → ℕ) (time_at : ℕ → ℤ) (ttl : ℤ) where
  -- What create leaves: a new authenticated session under a token that was not in use.
  pub record Created (customer : CustomerId) (role : Role) (m : SessionManager)
      (out : Option Session × SessionManager) : Type 0 where
    pub session : Session
    pub returned : out.0 ≡ some session
    pub unused : find session.token m.sessions ≡ none
    pub its_customer : session.customer_id ≡ customer
    pub its_role : session.role ≡ role
    pub its_state : session.state ≡ SessionState.authenticated
    pub its_end : session.expires_at ≡ time_at m.clock_calls +ℤ ttl
    pub valid :
        (validate time_at session.token out.1).0 ≡ live time_at (some session) (m.clock_calls + 1)
    pub others : (u : Bytes) → session.token ≢ u → find u out.1.sessions ≡ find u m.sessions

  emplaced :
      (customer : CustomerId) (role : Role) (m m' : SessionManager) (token : Bytes)
      → find token m.sessions ≡ none
      → m'.sessions ≡ m.sessions
      → m'.clock_calls ≡ m.clock_calls
      → Created customer role m (emplace time_at ttl customer role (some token) m')
  unfolding emplace find
  emplaced customer role m m' token unused same_sessions same_calls =
      let s = new_session time_at ttl customer role token m' in
      let after = (emplace time_at ttl customer role (some token) m').1 in
      let stored : find token after.sessions ≡ some s = rw (text_eq_refl token) refl in
      record {
        session = s;
        returned = refl;
        unused = unused;
        its_customer = refl;
        its_role = refl;
        its_state = refl;
        its_end = ap (λ n. time_at n +ℤ ttl) same_calls;
        valid =
            validated time_at token after
            ∙ ap (λ o. live time_at o (m'.clock_calls + 1)) stored
            ∙ ap (λ n. live time_at (some s) (n + 1)) same_calls;
        others = λ u other. rw (text_eq_ne token u other, same_sessions) refl;
      }

  -- If one of the next attempts draws a token that is not in use, that many attempts are enough:
  -- create returns an authenticated session of the customer and the role, under a token that was
  -- not in use, which ends a ttl after the call; validate then returns it at the next call exactly
  -- while its time is not over, and every other token stands for what it did before.
  pub create-Created :
      (k : ℕ) (customer : CustomerId) (role : Role) (m : SessionManager)
      → find (attempt_token byte_at k m) m.sessions ≡ none
      → Created customer role m (create byte_at time_at ttl (suc k) customer role m)
  unfolding create
  create-Created k customer role m free =
      let s = unused_token-Stops byte_at k m free in
      rw s.drawn (
        emplaced customer role m (unused_token byte_at (suc k) m).1 s.token s.unused s.same_sessions
          s.same_calls)
