-- ===== src/Crypto.antt =====
-- internal/crypto/aes.go: the framing of AES-GCM. The cipher of a key and the source of random
-- bytes are arguments. Texts are their bytes.
pub mod Octets
mod Digits
mod Hex
pub mod Framing
use mrmfactorytest.Crypto.Octets.{Bytes}
use mrmfactorytest.Crypto.Digits.{hex_decode}
use mrmfactorytest.Crypto.Hex.{hex_encode}
use mrmfactorytest.Prelude.{
  ℕ, zero, suc, String, Option, none, some, List, [], ◌∷◌, ◌++◌, length, Bool, true, false, not,
  eqb, ltb, if◌then◌else◌,
}

-- What cipher.NewGCM makes of a key.
pub record Aead : Type 0 where
  pub nonce_size : ℕ
  pub seal : Bytes → Bytes → Bytes
  pub unseal : Bytes → Bytes → Option Bytes

abbrev pub take : ℕ → Bytes → Bytes
take zero bs = []
take (suc n) [] = []
take (suc n) (b ∷ bs) = b ∷ take n bs

abbrev pub drop : ℕ → Bytes → Bytes
drop zero bs = bs
drop (suc n) [] = []
drop (suc n) (b ∷ bs) = drop n bs

abbrev checked_key : Option Bytes → Option Bytes
checked_key none = none
checked_key (some key) = if not (eqb (length key) 32) then none else some key

unfoldable pub new_service : String → Option Bytes
new_service hex_key = checked_key (hex_decode hex_key)

module _ (cipher : Bytes → Option Aead) where
  abbrev sealed : Aead → Bytes → Option Bytes → Option String
  sealed a plaintext none = none
  sealed a plaintext (some nonce) = some (hex_encode (nonce ++ a.seal nonce plaintext))

  -- `random n` is io.ReadFull of n bytes.
  abbrev encrypt_with : (ℕ → Option Bytes) → Bytes → Option Aead → Option String
  encrypt_with random plaintext none = none
  encrypt_with random plaintext (some a) = sealed a plaintext (random a.nonce_size)

  unfoldable pub encrypt : (ℕ → Option Bytes) → Bytes → Bytes → Option String
  encrypt random key plaintext = encrypt_with random plaintext (cipher key)

  abbrev opened : Bytes → Option Aead → Option Bytes
  opened ciphertext none = none
  opened ciphertext (some a) =
      if ltb (length ciphertext) a.nonce_size
      then none
      else a.unseal (take a.nonce_size ciphertext) (drop a.nonce_size ciphertext)

  abbrev decrypt_bytes : Bytes → Option Bytes → Option Bytes
  decrypt_bytes key none = none
  decrypt_bytes key (some ciphertext) = opened ciphertext (cipher key)

  unfoldable pub decrypt : Bytes → String → Option Bytes
  decrypt key ciphertext_hex = decrypt_bytes key (hex_decode ciphertext_hex)
