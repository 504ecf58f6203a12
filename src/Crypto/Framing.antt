-- ===== src/Crypto/Framing.antt =====
-- What was encrypted is decrypted again.
use mrmfactorytest.Prelude.{
  ℕ, String, Option, some, [], ◌∷◌, ◌++◌, length, length-append, All, All-append, false, ltb, ◌≡◌,
  refl, ap, arith,
}
use mrmfactorytest.Crypto.{Aead, take, drop, encrypt, decrypt}
use mrmfactorytest.Crypto.Octets.{Bytes, IsByte}
use mrmfactorytest.Crypto.Hex.{hex_encode, hex_decode-hex_encode}

-- AES-GCM opens what it sealed with the same nonce, and makes bytes of bytes.
pub record IsAead (a : Aead) : Type 0 where
  pub unseal_seal :
      (nonce plaintext : Bytes)
      → length nonce ≡ a.nonce_size
      → a.unseal nonce (a.seal nonce plaintext) ≡ some plaintext
  pub seal_bytes :
      (nonce plaintext : Bytes) → All IsByte plaintext → All IsByte (a.seal nonce plaintext)

take-append : (front back : Bytes) → take (length front) (front ++ back) ≡ front
take-append [] back = refl
take-append (b ∷ front) back = ap (λ (bs : Bytes). b ∷ bs) (take-append front back)

drop-append : (front back : Bytes) → drop (length front) (front ++ back) ≡ back
drop-append [] back = refl
drop-append (b ∷ front) back = drop-append front back

module _ (cipher : Bytes → Option Aead) (key : Bytes) (a : Aead) (law : IsAead a) where
  -- With a cipher for the key and a nonce of its size, encryption gives a text, and decryption with
  -- the same key gives the plaintext back.
  pub decrypt-encrypt :
      (random : ℕ → Option Bytes) (nonce plaintext : Bytes)
      → cipher key ≡ some a
      → random a.nonce_size ≡ some nonce
      → length nonce ≡ a.nonce_size
      → All IsByte nonce
      → All IsByte plaintext
      → (text : String) × (encrypt cipher random key plaintext ≡ some text)
        × (decrypt cipher key text ≡ some plaintext)
  unfolding encrypt decrypt
  decrypt-encrypt random nonce plaintext known drawn size bytes letters = (
    hex_encode (nonce ++ a.seal nonce plaintext),
    rw (known, drawn) refl,
    rw
        (
          hex_decode-hex_encode (nonce ++ a.seal nonce plaintext) (
              All-append IsByte nonce (a.seal nonce plaintext) bytes
                (law.seal_bytes nonce plaintext letters)),
          known,
          enough,
          ← size,
          take-append nonce (a.seal nonce plaintext),
          drop-append nonce (a.seal nonce plaintext),
        )
        (law.unseal_seal nonce plaintext size),
  )
    where
      enough : ltb (length (nonce ++ a.seal nonce plaintext)) a.nonce_size ≡ false
      enough = ground (arith, length-append nonce (a.seal nonce plaintext), size)
