-- ===== src/Domain/PasswordHasher/RoundTrip.antt =====
-- src/domain/PasswordHasher.cpp: which pins a stored hash accepts.
use bank_managment_system.Prelude.{
  ℕ, ◌+◌, ◌*◌, ◌/◌, ◌%◌, ◌<◌, ◌==◌, ◌≡◌, refl, ap, sym, ◌∙◌, true, false, Option, none, some, [],
  ◌∷◌, All, length, is_empty, ◌↔◌, arith,
}
use bank_managment_system.Prelude.Text.{Bytes, text_eq_sound, text_eq_refl}
use bank_managment_system.Prelude.Exec.{ok}
use bank_managment_system.Domain.PasswordHasher.{
  PasswordHash, iterations, digest_len_bytes, hex_char, bytes_to_hex, hex_nibble, read_pairs,
  hex_to_bytes, algorithm_name, salt_len_bytes, derived, derive, create, create_with_salt,
  digest_matches, verify,
}

abbrev pub AreBytes : Bytes → Type 0
AreBytes s = All (λ (b : ℕ). b < 256) s

hex_nibble-hex_char : (d : ℕ) → d < 16 → hex_nibble (hex_char d) ≡ some d
unfolding hex_nibble
hex_nibble-hex_char d h = ground arith

read_pairs-bytes_to_hex : (s : Bytes) → AreBytes s → read_pairs (bytes_to_hex s) ≡ ok s
unfolding read_pairs bytes_to_hex
read_pairs-bytes_to_hex [] h = refl
read_pairs-bytes_to_hex (b ∷ s) h =
    let whole : b / 16 * 16 + b % 16 ≡ b = omega arith in
    rw
      (
        hex_nibble-hex_char (b / 16) (omega (arith, h.0)),
        hex_nibble-hex_char (b % 16) (omega arith),
        read_pairs-bytes_to_hex s h.1,
      )
      (ap (λ c. ok (c ∷ s)) whole)

even : (s : Bytes) → length (bytes_to_hex s) ≡ 2 * length s
unfolding bytes_to_hex
even [] = refl
even (b ∷ s) = omega (arith, even s)

hex_to_bytes-bytes_to_hex : (s : Bytes) → AreBytes s → hex_to_bytes (bytes_to_hex s) ≡ ok s
unfolding hex_to_bytes
hex_to_bytes-bytes_to_hex s h =
    let pairs : (length (bytes_to_hex s) % 2 == 0) ≡ true = ground (arith, even s) in
    rw pairs (read_pairs-bytes_to_hex s h)

bytes_to_hex-injective :
    (s t : Bytes) → AreBytes s → AreBytes t → bytes_to_hex s ≡ bytes_to_hex t → s ≡ t
bytes_to_hex-injective s t hs ht e =
    let same : ok s ≡ ok t =
      sym (hex_to_bytes-bytes_to_hex s hs) ∙ ap hex_to_bytes e ∙ hex_to_bytes-bytes_to_hex t ht in
    cc same

abbrev pub GivesBytes : (Bytes → Bytes → ℕ → ℕ → Option Bytes) → Type 0
GivesBytes pbkdf2 =
    (pin salt : Bytes) (n size : ℕ) (digest : Bytes)
    → pbkdf2 pin salt n size ≡ some digest
    → AreBytes digest

module _ (pbkdf2 : Bytes → Bytes → ℕ → ℕ → Option Bytes) (gives : GivesBytes pbkdf2) where
  abbrev stored_hash : Bytes → Bytes → PasswordHash
  stored_hash salt digest = record {
    algorithm = algorithm_name;
    salt = bytes_to_hex salt;
    digest = bytes_to_hex digest;
  }

  verify_stored :
      (salt digest pin : Bytes)
      → AreBytes salt
      → is_empty digest ≡ false
      → verify pbkdf2 pin (stored_hash salt digest)
        ≡ digest_matches pbkdf2 (bytes_to_hex digest) (derive pbkdf2 pin salt)
  unfolding verify create_with_salt bytes_to_hex
  verify_stored salt [] pin bytes some_digest = cc
  verify_stored salt (b ∷ digest) pin bytes some_digest =
      rw (text_eq_refl algorithm_name, hex_to_bytes-bytes_to_hex salt bytes) refl

  matches :
      (salt digest : Bytes) (o : Option Bytes)
      → AreBytes digest
      → ((d : Bytes) → o ≡ some d → AreBytes d)
      → (digest_matches pbkdf2 (bytes_to_hex digest) (derived pbkdf2 salt o) ≡ true)
        ↔ (o ≡ some digest)
  matches salt digest none bytes gives_d = (λ h. cc, λ h. cc)
  matches salt digest (some d) bytes gives_d = (
    λ h. ap some (
        bytes_to_hex-injective d digest (gives_d d refl) bytes
          (text_eq_sound (bytes_to_hex d) (bytes_to_hex digest) h)),
    λ h. let same : d ≡ digest = cc h in rw same (text_eq_refl (bytes_to_hex digest)),
  )

  -- If the random bytes and the derivation succeed with a digest that is not empty, create returns a
  -- hash, and verify accepts a pin with it exactly if the derivation gives the same digest for that
  -- pin under the same salt: in particular the pin that the hash was made of.
  pub verify-create :
      (random : ℕ → Option Bytes) (salt digest pin other : Bytes)
      → random salt_len_bytes ≡ some salt
      → AreBytes salt
      → pbkdf2 pin salt iterations digest_len_bytes ≡ some digest
      → is_empty digest ≡ false
      → (h : PasswordHash) × (create pbkdf2 random pin ≡ ok h)
        × ((verify pbkdf2 other h ≡ true)
            ↔ (pbkdf2 other salt iterations digest_len_bytes ≡ some digest))
  unfolding create derive
  verify-create random salt digest pin other drawn bytes derived_now some_digest = (
    stored_hash salt digest,
    rw (drawn, derived_now) refl,
    rw (verify_stored salt digest other bytes some_digest) (
        matches salt digest (pbkdf2 other salt iterations digest_len_bytes)
          (gives pin salt iterations digest_len_bytes digest derived_now)
          (gives other salt iterations digest_len_bytes)),
  )
