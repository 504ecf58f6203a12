-- ===== src/Crypto/Hex.antt =====
-- encoding/hex: bytes as a text of two digits each, and back.
use mrmfactorytest.Prelude.{
  ℕ, ◌+◌, ◌*◌, ◌/◌, ◌%◌, String, some, [], ◌∷◌, All, ◌≡◌, refl, ap, arith, ◌∙◌,
}
use mrmfactorytest.Crypto.Octets.{Bytes, IsByte}
use mrmfactorytest.Crypto.Digits.{two, hex_decode, hex_decode-two}

unfoldable pub hex_encode : Bytes → String
hex_encode [] = ""
hex_encode (b ∷ bs) = two (b / 16) (b % 16) (hex_encode bs)

-- Bytes are read back as they were written.
pub hex_decode-hex_encode : (bs : Bytes) → All IsByte bs → hex_decode (hex_encode bs) ≡ some bs
unfolding hex_encode
hex_decode-hex_encode [] h = unfold hex_decode in refl
hex_decode-hex_encode (b ∷ bs) h =
    hex_decode-two (b / 16) (b % 16) (hex_encode bs) (omega (arith, h.0)) (omega arith)
    ∙ rw (hex_decode-hex_encode bs h.1) (ap (λ (n : ℕ). some (n ∷ bs)) (whole b))
  where
    whole : (n : ℕ) → n / 16 * 16 + n % 16 ≡ n
    whole n = omega arith
