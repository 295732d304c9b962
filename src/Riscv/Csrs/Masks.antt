-- ===== src/Riscv/Csrs/Masks.antt =====
-- Setting and clearing bits of a control and status register, seen bit by bit.
use app_guestaspace.Base.{
  ℕ, zero, suc, ◌-◌, ◌/◌, ◌^◌, ◌<◌, ◌≡◌, ◌≢◌, ◌∙◌, refl, ap, arith, ◌==◌, if◌then◌else◌, ==_refl,
  ==_ne,
}
use Prim.Native.Nat.{min, max}
use native.Mathlib.Nat.{pow-suc}
use app_guestaspace.Base.Bits.{bit, bit_not, bit-bit_or, bit-bit_and, bit-bit_not}
use app_guestaspace.Riscv.Csrs.{
  Csrs, get_value, write_value, read_and_set_bits, read_and_clear_bits,
}

bit_zero : (k : ℕ) → bit k 0 ≡ 0
bit_zero zero = refl
bit_zero (suc k) = bit_zero k

-- A word with one bit set.
pub bit-pow : (j k : ℕ) → bit k (2 ^ j) ≡ (if k == j then 1 else 0)
bit-pow zero zero = refl
bit-pow zero (suc k) = bit_zero k ∙ ground arith
bit-pow (suc j) zero = ground (arith, pow-suc 2 j)
bit-pow (suc j) (suc k) = rw half (bit-pow j k ∙ ground arith)
  where
    half : 2 ^ suc j / 2 ≡ 2 ^ j
    half = omega (arith, pow-suc 2 j)

pub get_value-write_value : (csr v : ℕ) (f : Csrs) → get_value csr (write_value csr v f) ≡ v
unfolding get_value write_value
get_value-write_value csr v f = rw (==_refl csr)

pub get_value-write_value_ne :
    (csr c v : ℕ) (f : Csrs) → c ≢ csr → get_value c (write_value csr v f) ≡ get_value c f
unfolding get_value write_value
get_value-write_value_ne csr c v f h = rw (==_ne c csr h)

module _ (csr m : ℕ) (f : Csrs) where
  -- `csrrs` sets the bits of the mask, keeps the others, and no other register changes.
  pub bit-read_and_set_bits :
      (k : ℕ)
      → bit k (get_value csr (read_and_set_bits csr m f).1)
        ≡ max (bit k (get_value csr f)) (bit k m)
  unfolding read_and_set_bits
  bit-read_and_set_bits k =
      ap (bit k) (get_value-write_value csr _ f) ∙ bit-bit_or k (get_value csr f) m

  pub read_and_set_bits-ne :
      (c : ℕ) → c ≢ csr → get_value c (read_and_set_bits csr m f).1 ≡ get_value c f
  unfolding read_and_set_bits
  read_and_set_bits-ne c h = get_value-write_value_ne csr c _ f h

  -- `csrrc` clears the bits of the mask, keeps the others, and no other register changes.
  pub bit-read_and_clear_bits :
      (k : ℕ)
      → k < 64
      → m < 2 ^ 64
      → bit k (get_value csr (read_and_clear_bits csr m f).1)
        ≡ min (bit k (get_value csr f)) (1 - bit k m)
  unfolding read_and_clear_bits
  bit-read_and_clear_bits k h p =
      ap (bit k) (get_value-write_value csr _ f)
      ∙ bit-bit_and k (get_value csr f) (bit_not 64 m)
      ∙ ap (min (bit k (get_value csr f))) (bit-bit_not 64 k m h p)

  pub read_and_clear_bits-ne :
      (c : ℕ) → c ≢ csr → get_value c (read_and_clear_bits csr m f).1 ≡ get_value c f
  unfolding read_and_clear_bits
  read_and_clear_bits-ne c h = get_value-write_value_ne csr c _ f h
