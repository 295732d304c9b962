-- ===== src/X86/Vmcb/Fields.antt =====
-- Fields of the VMCB are independent cells: what is written is read back, and a write changes no
-- field that lies apart from it.
use app_guestaspace.Base.{
  ℕ, ◌+◌, ◌^◌, ◌≤◌, ◌<◌, ◌≡◌, refl, ◌∙◌, ap, ◌⊎◌, ok, arith, le→leb, length, splice, slice, take,
  replicate, zero, suc, length-splice, length-replicate, slice-splice_of_length, slice-splice_apart,
}
use app_guestaspace.Base.Bytes.{
  to_le_bytes, from_le_bytes, length-to_le_bytes, from_le_bytes-to_le_bytes,
}
use app_guestaspace.X86.Vmcb.{Vmcb, new, read_field, write_field}

-- The buffer has its 4096 bytes.
abbrev pub IsVmcb : Vmcb → Type 0
IsVmcb vm = length vm.data_bytes ≡ 4096

-- Two fields that do not overlap.
abbrev pub Apart : ℕ → ℕ → ℕ → ℕ → Type 0
Apart n off m at = (at + m ≤ off) ⊎ (off + n ≤ at)

pub new-IsVmcb : IsVmcb new
unfolding new
new-IsVmcb = length-replicate {A = ℕ} 4096 0

-- The buffer after a write in range.
abbrev pub put : ℕ → ℕ → ℕ → Vmcb → Vmcb
put n off v vm = record { data_bytes = splice off (to_le_bytes n v) vm.data_bytes }

module _ (n off v : ℕ) (vm : Vmcb) (valid : IsVmcb vm) (fits : off + n ≤ 4096) where
  pub write_field-eq-put : write_field n off v vm ≡ ok (put n off v vm)
  unfolding write_field
  write_field-eq-put = rw (valid, le→leb _ _ fits)

  pub put-IsVmcb : IsVmcb (put n off v vm)
  put-IsVmcb = length-splice off (to_le_bytes n v) vm.data_bytes ∙ valid

  pub read_field-put_self : v < 256 ^ n → read_field n off (put n off v vm) ≡ ok v
  unfolding read_field
  read_field-put_self h = rw (put-IsVmcb, le→leb _ _ fits) (ap ok back)
    where
      back : from_le_bytes (slice off n (splice off (to_le_bytes n v) vm.data_bytes)) ≡ v
      back = ap from_le_bytes cut ∙ from_le_bytes-to_le_bytes n v h
        where
          cut : slice off n (splice off (to_le_bytes n v) vm.data_bytes) ≡ to_le_bytes n v
          cut =
              slice-splice_of_length off n (to_le_bytes n v) vm.data_bytes (length-to_le_bytes n v)
                (rw valid fits)

  pub read_field-put-Apart :
      (m at : ℕ) → Apart n off m at → read_field m at (put n off v vm) ≡ read_field m at vm
  unfolding read_field
  read_field-put-Apart m at h = rw (
    put-IsVmcb,
    valid,
    slice-splice_apart off (to_le_bytes n v) at m vm.data_bytes (rw length-to_le_bytes h),
  )

take_zeros : (m k : ℕ) → from_le_bytes (take m (replicate k 0)) ≡ 0
take_zeros zero k = refl
take_zeros (suc m) zero = refl
take_zeros (suc m) (suc k) = omega (arith, take_zeros m k)

slice_zeros : (m at k : ℕ) → from_le_bytes (slice at m (replicate k 0)) ≡ 0
slice_zeros m zero k = take_zeros m k
slice_zeros zero (suc at) zero = refl
slice_zeros (suc m) (suc at) zero = refl
slice_zeros m (suc at) (suc k) = slice_zeros m at k

read_field-zeros :
    (m at k : ℕ) → at + m ≤ k → read_field m at (record { data_bytes = replicate k 0 }) ≡ ok 0
unfolding read_field
read_field-zeros m at k h =
    rw (length-replicate {A = ℕ} k 0, le→leb _ _ h) (ap ok (slice_zeros m at k))

-- A fresh block reads as zero everywhere.
pub read_field-new : (m at : ℕ) → at + m ≤ 4096 → read_field m at new ≡ ok 0
unfolding new
read_field-new m at h = read_field-zeros m at 4096 h
