-- ===== src/Services/Sessions/Laws.antt =====
-- src/services/SessionManager.cpp: the life of a session.
use bank_managment_system.Prelude.{
  ℕ, ◌≡◌, ◌≢◌, refl, sym, ap, ◌∙◌, false, if◌then◌else◌, Option, none, some, [], ◌∷◌, Bool-cases,
  inl, inr, arith,
}
use bank_managment_system.Prelude.Int.{ℤ, ltb_ℤ}
use bank_managment_system.Prelude.Text.{Bytes, text_eq, text_eq_sound}
use bank_managment_system.Domain.Session.{Session}
use bank_managment_system.Services.Sessions.{
  Sessions, SessionManager, find, erase, validate, validate_found, revoke, revoke_found,
}

find-erase_self : (t : Bytes) (l : Sessions) → find t (erase t l) ≡ none
unfolding find erase
find-erase_self t [] = refl
find-erase_self t ((k, s) ∷ l) = ground (arith, find-erase_self t l)

pub text_eq_ne : (s t : Bytes) → s ≢ t → text_eq s t ≡ false
text_eq_ne s t h = elim (Bool-cases (text_eq s t)) [
  | inl same ↦ absurd (h (text_eq_sound s t same))
  | inr other ↦ other
]

find-erase_ne : (t u : Bytes) (l : Sessions) → t ≢ u → find u (erase t l) ≡ find u l
unfolding find erase
find-erase_ne t u [] h = refl
find-erase_ne t u ((k, s) ∷ l) h = elim (Bool-cases (text_eq k t)) [
  | inl same ↦
      let apart : text_eq k u ≡ false =
        text_eq_ne k u (λ e. h (sym (text_eq_sound k t same) ∙ e)) in
      ground (arith, find-erase_ne t u l h)
  | inr other ↦ ground (arith, find-erase_ne t u l h)
]

module _ (time_at : ℕ → ℤ) where
  -- What validate makes of what the map holds.
  abbrev pub live : Option Session → ℕ → Option Session
  live none n = none
  live (some s) n = if ltb_ℤ (time_at n) s.expires_at then some s else none

  validated_found :
      (token : Bytes) (o : Option Session) (m : SessionManager)
      → (validate_found time_at token o m).0 ≡ live o m.clock_calls
  unfolding validate_found
  validated_found token none m = refl
  validated_found token (some s) m = ground arith

  pub validated :
      (token : Bytes) (m : SessionManager)
      → (validate time_at token m).0 ≡ live (find token m.sessions) m.clock_calls
  unfolding validate
  validated token m = validated_found token (find token m.sessions) m

  revoked_sessions :
      (token : Bytes) (o : Option Session) (m : SessionManager)
      → find token m.sessions ≡ o
      → (find token (revoke_found token o m).1.sessions ≡ none)
        × ((u : Bytes) → token ≢ u → find u (revoke_found token o m).1.sessions ≡ find u m.sessions)
        × ((revoke_found token o m).1.clock_calls ≡ m.clock_calls)
  unfolding revoke_found
  revoked_sessions token none m e = (e, λ u h. refl, refl)
  revoked_sessions token (some s) m e =
      (find-erase_self token m.sessions, λ u h. find-erase_ne token u m.sessions h, refl)

  -- Right after revoke, validate returns nothing for the token, and for any other token what it
  -- would have returned without the call of revoke.
  pub validate-revoke :
      (token : Bytes) (m : SessionManager)
      → ((validate time_at token (revoke token m).1).0 ≡ none)
        × ((u : Bytes)
            → token ≢ u
            → (validate time_at u (revoke token m).1).0 ≡ (validate time_at u m).0)
  unfolding revoke
  validate-revoke token m =
      let after = revoked_sessions token (find token m.sessions) m refl in
      (
        validated token _
            ∙ ap (λ o. live o (revoke_found token (find token m.sessions) m).1.clock_calls) after.0,
        λ u other. validated u _ ∙ rw (after.1 u other, after.2) refl ∙ sym (validated u m),
      )

  ended_found :
      (token : Bytes) (o : Option Session) (m : SessionManager)
      → find token m.sessions ≡ o
      → (validate_found time_at token o m).0 ≡ none
      → find token (validate_found time_at token o m).1.sessions ≡ none
  unfolding validate_found
  ended_found token none m e h = e
  ended_found token (some s) m e h = ground (arith, find-erase_self token m.sessions)

  ended :
      (token : Bytes) (m : SessionManager)
      → (validate time_at token m).0 ≡ none
      → find token (validate time_at token m).1.sessions ≡ none
  unfolding validate
  ended token m h = ended_found token (find token m.sessions) m refl h

  -- A session that was found to be over stays over, even if the clock is set back.
  pub validate-validate :
      (token : Bytes) (m : SessionManager)
      → (validate time_at token m).0 ≡ none
      → (validate time_at token (validate time_at token m).1).0 ≡ none
  validate-validate token m h =
      validated token (validate time_at token m).1
      ∙ ap (λ o. live o (validate time_at token m).1.clock_calls) (ended token m h)
