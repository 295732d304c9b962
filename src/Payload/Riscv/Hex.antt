-- ===== src/Payload/Riscv/Hex.antt =====
-- The text of `{:#X}` reads back as its number.
use app_guestaspace.Base.{
  ℕ, zero, suc, ◌+◌, ◌-◌, ◌*◌, ◌/◌, ◌%◌, ◌^◌, ◌<◌, ◌≡◌, refl, ap, sym, ◌∙◌, Option, none, some,
  List, [], ◌∷◌, ◌++◌, ◌&&◌, arith, leb, ltb, lt→ltb, ◌≤◌, false, if◌then◌else◌,
}
use mathlib.Core.List.{append_assoc, append-nil}
use native.Mathlib.Decide.{dec_lt}
use app_guestaspace.Payload.{as_bytes}
use app_guestaspace.Payload.Riscv.{upper_char, upper_digits, upper_hex}

-- The value of a digit in upper case.
unfoldable pub upper_value : ℕ → Option ℕ
upper_value c =
    if leb b'0' c && leb c b'9'
    then some (c - b'0')
    else if leb b'A' c && leb c b'F'
    then some (c - b'A' + 10)
    else none

-- The number that a row of digits stands for, the highest first, behind the value read so far.
unfoldable pub read_upper : ℕ → List ℕ → Option ℕ
read_upper acc [] = some acc
read_upper acc (c ∷ cs) = elim (upper_value c) [
  | none ↦ none
  | some d ↦ read_upper (acc * 16 + d) cs
]

read_upper_nil : (acc : ℕ) → read_upper acc [] ≡ some acc
unfolding read_upper
read_upper_nil acc = refl

upper_value-upper_char : (n : ℕ) → n < 16 → upper_value (upper_char n) ≡ some n
unfolding upper_char upper_value
upper_value-upper_char n h = ground arith

read_upper-upper_char :
    (acc n : ℕ) (cs : List ℕ)
    → n < 16
    → read_upper acc (upper_char n ∷ cs) ≡ read_upper (acc * 16 + n) cs
unfolding read_upper
read_upper-upper_char acc n cs h = rw (upper_value-upper_char n h, read_upper)

module _ (i val : ℕ) where
  digits_low : val < 16 → upper_digits (suc i) val ≡ upper_char val ∷ []
  unfolding upper_digits
  digits_low h = rw (lt→ltb val 16 h)

  digits_high :
      16 ≤ val
      → upper_digits (suc i) val ≡ upper_digits i (val / 16) ++ (upper_char (val % 16) ∷ [])
  unfolding upper_digits
  digits_high h = let long : ltb val 16 ≡ false = ground arith in rw long

-- The digits of a number below 16 ^ i, read in front of `cs`.
read_upper-upper_digits :
    (i val : ℕ) (cs : List ℕ)
    → val < 16 ^ i
    → read_upper 0 (upper_digits i val ++ cs) ≡ read_upper val cs
unfolding upper_digits
read_upper-upper_digits zero val cs h = rw (small h)
  where
    small : val < 1 → val ≡ 0
    small p = omega arith
read_upper-upper_digits (suc i) val cs h = elim (dec_lt val 16) [
  | yes low ↦
      rw (digits_low i val low)
        (read_upper-upper_char 0 val cs low ∙ ap (λ (k : ℕ). read_upper k cs) (omega arith))
  | no high ↦ rw (digits_high i val (omega arith)) (
      ap (read_upper 0) (append_assoc (upper_digits i (val / 16)) _ cs)
      ∙ read_upper-upper_digits i (val / 16) (upper_char (val % 16) ∷ cs) (less (omega arith))
      ∙ read_upper-upper_char (val / 16) (val % 16) cs (omega arith)
      ∙ ap (λ (k : ℕ). read_upper k cs) (omega arith))
]
  where
    less : val < 16 * 16 ^ i → val / 16 < 16 ^ i
    less p = omega arith

-- `{:#X}` of a word of 64 bits prints "0x" and digits that stand for the word.
pub upper_hex_lem :
    (val : ℕ)
    → val < 2 ^ 64
    → (cs : List ℕ) × (upper_hex val ≡ as_bytes "0x" ++ cs) × (read_upper 0 cs ≡ some val)
unfolding upper_hex
upper_hex_lem val h = (
  upper_digits 16 val,
  refl,
  ap (read_upper 0) (sym (append-nil (upper_digits 16 val)))
      ∙ read_upper-upper_digits 16 val [] (omega arith)
      ∙ read_upper_nil val,
)
