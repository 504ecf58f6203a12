-- ===== src/Crypto/Octets.antt =====
-- Bytes as numbers below 256.
use mrmfactorytest.Prelude.{ℕ, ◌+◌, ◌*◌, ◌<◌, Option, none, some, List, [], ◌∷◌}

abbrev pub Bytes : Type 0
Bytes = List ℕ

abbrev pub IsByte : ℕ → Type 0
IsByte n = n < 256

abbrev pub no_bytes : Option Bytes
no_bytes = some []

-- A byte from its two digits, before the rest.
abbrev pub pair : Option ℕ → Option ℕ → Option Bytes → Option Bytes
pair (some high) (some low) (some rest) = some ((high * 16 + low) ∷ rest)
pair _ _ _ = none
