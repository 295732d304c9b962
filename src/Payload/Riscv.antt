-- ===== src/Payload/Riscv.antt =====
-- payload/gkernel/src/main.rs for riscv64: the guest is an application of ArceOS, and `println!` and
-- paging are those of its runtime, which stands in the crate axstd.
pub mod Hex
pub mod Shown
use app_guestaspace.Base.{ℕ, zero, suc, ◌+◌, ◌-◌, ◌/◌, ◌%◌, List, [], ◌∷◌, ◌++◌, ltb, if◌then◌else◌}
use app_guestaspace.Base.Bytes.{to_le_bytes}
use app_guestaspace.Base.Utf8.{is_utf8}
use app_guestaspace.Payload.{Program, load, as_bytes, print_str}

-- The runtime: the bytes that it sends to the console for one byte of a text, the virtual address of
-- a physical one, and what the guest does when `main` has returned and when it panicked.
pub record Runtime : Type 0 where
  pub console : ℕ → List ℕ
  pub phys_to_virt : ℕ → ℕ
  pub returned : Program
  pub panicked : Program

-- The character of a digit in upper case.
unfoldable pub upper_char : ℕ → ℕ
upper_char nibble = if ltb nibble 10 then b'0' + nibble else b'A' + (nibble - 10)

-- The digits of a number, without leading zeros, for at most so many of them.
unfoldable pub upper_digits : ℕ → ℕ → List ℕ
upper_digits zero val = []
upper_digits (suc i) val =
    let high = upper_digits i (val / 16) in
    if ltb val 16 then upper_char val ∷ [] else high ++ (upper_char (val % 16) ∷ [])

-- The text of `{:#X}` for a word of 64 bits or less.
unfoldable pub upper_hex : ℕ → List ℕ
upper_hex val = as_bytes "0x" ++ upper_digits 16 val

abbrev pub riscv64_pflash_start : ℕ
riscv64_pflash_start = 0x2200_0000

module _ (R : Runtime) where
  -- The bytes of a text on the console.
  unfoldable pub on_console : List ℕ → List ℕ
  on_console [] = []
  on_console (b ∷ bs) = R.console b ++ on_console bs

  -- `print!`, and then `k`.
  unfoldable pub print : List ℕ → Program → Program
  print text k = print_str (on_console text) k

  -- `core::str::from_utf8(&magic).unwrap()` in the last `println!`.
  unfoldable pub print_magic : ℕ → Program
  print_magic word =
      let magic = to_le_bytes 4 word in
      if is_utf8 magic
      then print (as_bytes "Got pflash magic: ") (print magic (print (as_bytes "\n") R.returned))
      else R.panicked

  -- `main`, from its first `println!` to its return. The word is read where it is printed, and once
  -- more for the magic text.
  unfoldable pub riscv64_guest_main : Program
  riscv64_guest_main =
      let va = R.phys_to_virt riscv64_pflash_start in
      print (as_bytes "Reading PFlash at physical address ") (
        print (upper_hex riscv64_pflash_start) (
          print (as_bytes "...\n") (
            print (as_bytes "Try to access pflash dev region [") (
              print (upper_hex va) (
                print (as_bytes "], got ") (
                  load va (λ word.
                    print (upper_hex word) (print (as_bytes "\n") (load va print_magic)))))))))
