-- ===== src/Domain/PasswordHasher.antt =====
-- src/domain/PasswordHash.h, PasswordHasher.h and PasswordHasher.cpp. The calls of OpenSSL are
-- parameters: PKCS5_PBKDF2_HMAC with SHA-256 and RAND_bytes, each with `none` for a failure.
pub mod RoundTrip
use bank_managment_system.Prelude.{
  ℕ, ◌+◌, ◌-◌, ◌*◌, ◌/◌, ◌%◌, ◌==◌, ltb, leb, Bool, true, false, not, ◌&&◌, ◌||◌, if◌then◌else◌,
  Option, none, some, [], ◌∷◌, length, is_empty,
}
use bank_managment_system.Prelude.Text.{Bytes, text, text_eq}
use bank_managment_system.Prelude.Exec.{Throws, ok, throw, invalid_argument, runtime_error}

pub record PasswordHash : Type 0 where
  pub algorithm : Bytes
  pub salt : Bytes
  pub digest : Bytes

abbrev pub iterations : ℕ
iterations = 120_000

abbrev pub salt_len_bytes : ℕ
salt_len_bytes = 16

abbrev pub digest_len_bytes : ℕ
digest_len_bytes = 32

-- kHex[d]
abbrev pub hex_char : ℕ → ℕ
hex_char d = if ltb d 10 then b'0' + d else b'a' + d - 10

unfoldable pub bytes_to_hex : Bytes → Bytes
bytes_to_hex [] = []
bytes_to_hex (byte ∷ rest) = hex_char (byte / 16) ∷ hex_char (byte % 16) ∷ bytes_to_hex rest

-- The lambda nibble; `none` is its exception.
unfoldable pub hex_nibble : ℕ → Option ℕ
hex_nibble c =
    if leb b'0' c && leb c b'9'
    then some (c - b'0')
    else if leb b'a' c && leb c b'f'
    then some (c - b'a' + 10)
    else if leb b'A' c && leb c b'F'
    then some (c - b'A' + 10)
    else none

abbrev pub join_byte : Option ℕ → Option ℕ → Throws Bytes → Throws Bytes
join_byte (some high) (some low) (ok rest) = ok ((high * 16 + low) ∷ rest)
join_byte (some high) (some low) (throw ex) = throw ex
join_byte _ _ _ = throw (invalid_argument (text "PasswordHash: salt contains a non-hex digit"))

-- The loop of hex_to_bytes, over a text of even length.
unfoldable pub read_pairs : Bytes → Throws Bytes
unfolding hex_nibble
read_pairs [] = ok []
read_pairs (c ∷ []) = throw (invalid_argument (text "PasswordHash: salt is not valid hex"))
read_pairs (c ∷ d ∷ rest) = join_byte (hex_nibble c) (hex_nibble d) (read_pairs rest)

unfoldable pub hex_to_bytes : Bytes → Throws Bytes
unfolding read_pairs
hex_to_bytes hex =
    if not (length hex % 2 == 0)
    then throw (invalid_argument (text "PasswordHash: salt is not valid hex"))
    else read_pairs hex

-- PasswordHasher::algorithm_name
unfoldable pub algorithm_name : Bytes
algorithm_name = text "pbkdf2-sha256"

-- `pbkdf2` takes the pin, the salt, the iterations and the length of the digest.
module _ (pbkdf2 : Bytes → Bytes → ℕ → ℕ → Option Bytes) where
  abbrev pub derived : Bytes → Option Bytes → Throws PasswordHash
  derived salt none = throw (runtime_error (text "PasswordHasher: PBKDF2 derivation failed"))
  derived salt (some digest) = ok (record {
    algorithm = algorithm_name;
    salt = bytes_to_hex salt;
    digest = bytes_to_hex digest;
  })

  unfoldable pub derive : Bytes → Bytes → Throws PasswordHash
  derive pin salt = derived salt (pbkdf2 pin salt iterations digest_len_bytes)

  abbrev pub derive_random : Bytes → Option Bytes → Throws PasswordHash
  derive_random pin none = throw (runtime_error (text "PasswordHasher: CSPRNG failure"))
  derive_random pin (some salt) = derive pin salt

  -- `random` is RAND_bytes, by the number of bytes.
  unfoldable pub create : (ℕ → Option Bytes) → Bytes → Throws PasswordHash
  create random pin = derive_random pin (random salt_len_bytes)

  abbrev pub derive_with : Bytes → Throws Bytes → Throws PasswordHash
  derive_with pin (throw ex) = throw ex
  derive_with pin (ok salt) = derive pin salt

  unfoldable pub create_with_salt : Bytes → Bytes → Throws PasswordHash
  create_with_salt pin salt_hex = derive_with pin (hex_to_bytes salt_hex)

  -- The try block of verify, with its catch block.
  abbrev pub digest_matches : Bytes → Throws PasswordHash → Bool
  digest_matches digest (throw ex) = false
  digest_matches digest (ok hash) = text_eq hash.digest digest

  unfoldable pub verify : Bytes → PasswordHash → Bool
  unfolding create_with_salt
  verify pin stored =
      if not (text_eq stored.algorithm algorithm_name) || is_empty stored.digest
      then false
      else digest_matches stored.digest (create_with_salt pin stored.salt)
