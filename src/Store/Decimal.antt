-- ===== src/Store/Decimal.antt =====
-- `fmt.Sprintf("%d", n)` and the value of `strconv.Atoi` where its error is dropped, on Go's 64-bit
-- `int`: the decimal text of the batch counter in _archive/store/store.go.
use Prim.Native.Char.{Char, code}
use Prim.Native.String.{[], ◌∷◌}
use mrmfactorytest.Prelude.{
  Option, none, some, ℕ, zero, suc, ◌+◌, ◌-◌, ◌*◌, ◌/◌, ◌%◌, ◌^◌, ◌<◌, String, Bool, ◌&&◌, ◌≡◌,
  true, false, refl, sym, ap, arith, ltb, leb, eqb, if◌then◌else◌, ◌∙◌, Bool-cases, inl, inr,
}

-- `negsuc n` is -(n + 1).
pub data ℤ : Type 0 where
  pos : ℕ → ℤ
  negsuc : ℕ → ℤ

abbrev pub max_int : ℕ
max_int = 2 ^ 63 - 1

-- n + 1 in 64 bits
unfoldable pub increment : ℤ → ℤ
increment (pos n) = if eqb n max_int then negsuc max_int else pos (suc n)
increment (negsuc zero) = pos 0
increment (negsuc (suc n)) = negsuc n

digit_char : ℕ → Char
digit_char zero = "0"
digit_char (suc zero) = "1"
digit_char (suc (suc zero)) = "2"
digit_char (suc (suc (suc zero))) = "3"
digit_char (suc (suc (suc (suc zero)))) = "4"
digit_char (suc (suc (suc (suc (suc zero))))) = "5"
digit_char (suc (suc (suc (suc (suc (suc zero)))))) = "6"
digit_char (suc (suc (suc (suc (suc (suc (suc zero))))))) = "7"
digit_char (suc (suc (suc (suc (suc (suc (suc (suc zero)))))))) = "8"
digit_char _ = "9"

-- The digits of `n` before a text; the fuel is above `n`.
digits : ℕ → ℕ → String → String
digits zero n out = out
digits (suc fuel) n out =
    let more = digits fuel (n / 10) (digit_char (n % 10) ∷ out) in
    if ltb n 10 then digit_char n ∷ out else more

unfoldable pub show : ℤ → String
unfolding digits digit_char
show (pos n) = digits (suc n) n []
show (negsuc n) = "-" ∷ digits (suc (suc n)) (suc n) []

pub data Scan : Type 0 where
  number : ℕ → Scan
  syntax range : Scan

is_digit : Char → Bool
is_digit c = leb 48 (code c) && leb (code c) 57

-- The loop of `ParseUint` in base 10 and 64 bits.
pub scan : String → ℕ → Scan
scan [] n = number n
scan (c ∷ s) n =
    let n1 = n * 10 + (code c - 48) in
    let rest = scan s n1 in if is_digit c then (if leb (2 ^ 64) n1 then range else rest) else syntax

scan_nonempty : String → Scan
unfolding scan
scan_nonempty [] = syntax
scan_nonempty (c ∷ s) = scan (c ∷ s) 0

positive : Scan → ℤ
positive (number n) = if leb (2 ^ 63) n then pos max_int else pos n
positive syntax = pos 0
positive range = pos max_int

negate : ℕ → ℤ
negate zero = pos 0
negate (suc n) = negsuc n

negative : Scan → ℤ
unfolding negate
negative (number n) = if ltb (2 ^ 63) n then negsuc max_int else negate n
negative syntax = pos 0
negative range = negsuc max_int

unfoldable pub atoi : String → ℤ
unfolding scan_nonempty positive negative is_digit
atoi [] = pos 0
atoi (c ∷ s) =
    if eqb (code c) b'-'
    then negative (scan_nonempty s)
    else if eqb (code c) b'+'
    then positive (scan_nonempty s)
    else positive (scan_nonempty (c ∷ s))

-- The value of `strconv.Atoi` where its error is looked at.
within : Bool → Scan → Option ℤ
unfolding negate
within below (number n) =
    if below
    then (if ltb (2 ^ 63) n then none else some (negate n))
    else if leb (2 ^ 63) n
    then none
    else some (pos n)
within below syntax = none
within below range = none

unfoldable pub parse_int : String → Option ℤ
unfolding scan_nonempty is_digit within
parse_int [] = none
parse_int (c ∷ s) =
    if eqb (code c) b'-'
    then within true (scan_nonempty s)
    else if eqb (code c) b'+'
    then within false (scan_nonempty s)
    else within false (scan_nonempty (c ∷ s))

-- n - 1 in 64 bits
unfoldable pub decrement : ℤ → ℤ
decrement (pos zero) = negsuc 0
decrement (pos (suc n)) = pos n
decrement (negsuc n) = if eqb n max_int then pos max_int else negsuc (suc n)

code-digit_char : (d : ℕ) → d < 10 → code (digit_char d) ≡ 48 + d
unfolding digit_char
code-digit_char zero h = refl
code-digit_char (suc zero) h = refl
code-digit_char (suc (suc zero)) h = refl
code-digit_char (suc (suc (suc zero))) h = refl
code-digit_char (suc (suc (suc (suc zero)))) h = refl
code-digit_char (suc (suc (suc (suc (suc zero))))) h = refl
code-digit_char (suc (suc (suc (suc (suc (suc zero)))))) h = refl
code-digit_char (suc (suc (suc (suc (suc (suc (suc zero))))))) h = refl
code-digit_char (suc (suc (suc (suc (suc (suc (suc (suc zero)))))))) h = refl
code-digit_char (suc (suc (suc (suc (suc (suc (suc (suc (suc zero))))))))) h = refl
code-digit_char (suc (suc (suc (suc (suc (suc (suc (suc (suc (suc d)))))))))) h =
    absurd (omega arith)

scan-digit :
    (d n : ℕ) (s : String)
    → d < 10
    → n * 10 + d < 2 ^ 64
    → scan (digit_char d ∷ s) n ≡ scan s (n * 10 + d)
unfolding scan is_digit
scan-digit d n s h k =
    rw (code-digit_char d h) (let e : 48 + d - 48 ≡ d = omega arith in rw (e, in_range, small) refl)
  where
    in_range : (leb 48 (48 + d) && leb (48 + d) 57) ≡ true
    in_range = ground arith

    small : leb (2 ^ 64) (n * 10 + d) ≡ false
    small = ground arith

-- Reading what was written gives the number back.
scan-digits :
    (fuel n : ℕ) (out : String) → n < fuel → n < 2 ^ 64 → scan (digits fuel n out) 0 ≡ scan out n
unfolding digits
scan-digits zero n out h k = elim h [ ]
scan-digits (suc fuel) n out h k = elim (Bool-cases (ltb n 10)) [
  | inl small ↦
      rw small (scan-digit n 0 out (ground arith) (omega arith) ∙ ap (scan out) (omega arith))
  | inr large ↦ rw large (
      scan-digits fuel (n / 10) (digit_char (n % 10) ∷ out) (ground arith) (omega arith)
      ∙ scan-digit (n % 10) (n / 10) out (omega arith) (omega arith)
      ∙ ap (scan out) (omega arith))
]

digits_head :
    (fuel n : ℕ) (out : String)
    → (d : ℕ) × (rest : String) × (d < 10) × (digits (suc fuel) n out ≡ digit_char d ∷ rest)
unfolding digits
digits_head zero n out = elim (Bool-cases (ltb n 10)) [
  | inl small ↦ (n, out, ground arith, rw small)
  | inr large ↦ (n % 10, out, omega arith, rw large)
]
digits_head (suc fuel) n out = elim (Bool-cases (ltb n 10)) [
  | inl small ↦ (n, out, ground arith, rw small)
  | inr large ↦
      let (d, rest, h, e) = digits_head fuel (n / 10) (digit_char (n % 10) ∷ out) in
      (d, rest, h, rw large e)
]

atoi_of_digit :
    (d : ℕ) (rest : String)
    → d < 10
    → atoi (digit_char d ∷ rest) ≡ positive (scan (digit_char d ∷ rest) 0)
unfolding atoi scan_nonempty
atoi_of_digit d rest h =
    let minus : eqb (48 + d) b'-' ≡ false = ground arith in
    let plus : eqb (48 + d) b'+' ≡ false = ground arith in rw (code-digit_char d h, minus, plus)

positive-number : (n : ℕ) → n < 2 ^ 63 → positive (number n) ≡ pos n
unfolding positive
positive-number n h = ground arith

show-pos : (n : ℕ) → show (pos n) ≡ digits (suc n) n []
unfolding show
show-pos n = refl

scan-empty : (n : ℕ) → scan [] n ≡ number n
unfolding scan
scan-empty n = refl

-- A number that fits an `int` is read back as it was written.
pub atoi-show : (n : ℕ) → n < 2 ^ 63 → atoi (show (pos n)) ≡ pos n
atoi-show n h =
    let (d, rest, small, e) = digits_head n n [] in
    ap atoi (show-pos n ∙ e)
    ∙ atoi_of_digit d rest small
    ∙ ap (λ s. positive (scan s 0)) (sym e)
    ∙ ap positive (scan-digits (suc n) n [] (omega arith) (omega arith) ∙ scan-empty n)
    ∙ positive-number n h
