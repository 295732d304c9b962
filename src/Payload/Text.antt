-- ===== src/Payload/Text.antt =====
-- What a guest prints, and the text of a hexadecimal number.
use app_guestaspace.Base.{
  ℕ, zero, suc, ◌+◌, ◌-◌, ◌*◌, ◌/◌, ◌%◌, ◌^◌, ◌<◌, ◌≡◌, refl, ap, Option, none, some, List, [], ◌∷◌,
  ◌++◌, ◌&&◌, arith, bit_and, leb, if◌then◌else◌,
}
use app_guestaspace.Base.Bits.{bit_and_low}
use app_guestaspace.Base.Bytes.{u8}
use app_guestaspace.Payload.{
  Program, putchar, load, exit, print_str, hex_char, hex_loop, print_hex32, as_bytes,
}

-- The characters that a program prints, if a load of `a` gives `memory a`.
abbrev pub transcript : (ℕ → ℕ) → Program → List ℕ
transcript memory (putchar c k) = c ∷ transcript memory k
transcript memory (load a k) = transcript memory (k (memory a))
transcript memory exit = []

module _ (memory : ℕ → ℕ) where
  pub transcript-print_str :
      (bs : List ℕ) (k : Program) → transcript memory (print_str bs k) ≡ bs ++ transcript memory k
  unfolding print_str
  transcript-print_str [] k = refl
  transcript-print_str (b ∷ bs) k = ap (◌∷◌ b) (transcript-print_str bs k)

-- The value of a hexadecimal digit.
unfoldable pub digit_value : ℕ → Option ℕ
digit_value c =
    if leb b'0' c && leb c b'9'
    then some (c - b'0')
    else if leb b'a' c && leb c b'f'
    then some (c - b'a' + 10)
    else none

-- The number that a row of digits stands for, the highest first, behind the value read so far.
unfoldable pub read_digits : ℕ → List ℕ → Option ℕ
read_digits acc [] = some acc
read_digits acc (c ∷ cs) = elim (digit_value c) [
  | none ↦ none
  | some d ↦ read_digits (acc * 16 + d) cs
]

-- The digits that the loop prints.
abbrev digits_below : ℕ → ℕ → List ℕ
digits_below zero val = []
digits_below (suc i) val = hex_char (val / 2 ^ (i * 4) % 16) ∷ digits_below i val

digit_value-hex_char : (n : ℕ) → n < 16 → digit_value (hex_char n) ≡ some n
unfolding hex_char digit_value
digit_value-hex_char n h = ground arith

hex_nibble : (x : ℕ) → u8 (bit_and x 0xF) ≡ x % 16
hex_nibble x = omega (arith, bit_and_low 4 x)

module _ (memory : ℕ → ℕ) where
  transcript-hex_loop :
      (i val : ℕ) (k : Program)
      → transcript memory (hex_loop i val k) ≡ digits_below i val ++ transcript memory k
  unfolding hex_loop
  transcript-hex_loop zero val k = refl
  transcript-hex_loop (suc i) val k =
      rw (hex_nibble (val / 2 ^ (i * 4)))
        (ap (◌∷◌ (hex_char (val / 2 ^ (i * 4) % 16))) (transcript-hex_loop i val k))

read_digits-hex_char :
    (acc x : ℕ) (cs : List ℕ)
    → read_digits acc (hex_char (x % 16) ∷ cs) ≡ read_digits (acc * 16 + x % 16) cs
unfolding read_digits
read_digits-hex_char acc x cs = rw (digit_value-hex_char (x % 16) (omega arith), read_digits)

read_digits-digits_below : (val : ℕ) → val < 2 ^ 32 → read_digits 0 (digits_below 8 val) ≡ some val
unfolding read_digits
read_digits-digits_below val h = simp read_digits-hex_char (ap some (omega arith))

-- `print_hex32` of a 32-bit word prints "0x" and digits that stand for the word.
pub print_hex32_lem :
    (memory : ℕ → ℕ) (val : ℕ) (k : Program)
    → val < 2 ^ 32
    → (cs : List ℕ) × (transcript memory (print_hex32 val k)
        ≡ as_bytes "0x" ++ cs ++ transcript memory k)
      × (read_digits 0 cs ≡ some val)
unfolding print_hex32 print_str
print_hex32_lem memory val k h = (
  digits_below 8 val,
  ap (λ (cs : List ℕ). as_bytes "0x" ++ cs) (transcript-hex_loop memory 8 val k),
  read_digits-digits_below val h,
)
