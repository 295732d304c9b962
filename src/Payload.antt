-- ===== src/Payload.antt =====
-- payload/gkernel/src/main.rs: the guest. A guest is the tree of what it asks of the hypervisor:
-- print a character, load a 32-bit word, or exit. The aarch64 and the x86_64 guest share the code
-- that is modelled here; how a request is encoded in registers stands with each hypervisor.
pub mod Loads
pub mod Riscv
pub mod Text
use app_guestaspace.Base.{
  ℕ, zero, suc, ◌+◌, ◌-◌, ◌*◌, ◌/◌, ◌^◌, Bool, true, ◌&&◌, ◌||◌, List, [], ◌∷◌, bit_and, ltb, leb,
  ◌==◌, if◌then◌else◌,
}
use app_guestaspace.Base.Bytes.{u8, to_le_bytes}
use app_guestaspace.Base.Utf8.{is_utf8}
use Prim.Native.Char.{code}
use Prim.Native.String
use Prim.Native.String.{String}

pub data Program : Type 0 where
  putchar : ℕ → Program → Program
  load : ℕ → (ℕ → Program) → Program
  exit : Program

-- The bytes of an ASCII text.
abbrev pub as_bytes : String → List ℕ
as_bytes String.[] = []
as_bytes (String.◌∷◌ c s) = code c ∷ as_bytes s

-- `print_str(s)`, and then `k`.
unfoldable pub print_str : List ℕ → Program → Program
print_str [] k = k
print_str (b ∷ bs) k = putchar b (print_str bs k)

-- The character of one hexadecimal digit.
unfoldable pub hex_char : ℕ → ℕ
hex_char nibble = if ltb nibble 10 then b'0' + nibble else b'a' + nibble - 10

-- The rounds for the digits below `i`, the highest first.
unfoldable pub hex_loop : ℕ → ℕ → Program → Program
unfolding hex_char
hex_loop zero val k = k
hex_loop (suc i) val k =
    putchar (hex_char (u8 (bit_and (val / 2 ^ (i * 4)) 0xF))) (hex_loop i val k)

-- `print_hex32(val)`
unfoldable pub print_hex32 : ℕ → Program → Program
unfolding print_str hex_loop
print_hex32 val k = print_str (as_bytes "0x") (hex_loop 8 val k)

-- The end of `_start`, from the loaded word on: `print_hex32`, the magic text, and the exit.
unfoldable pub report_word : ℕ → Program
unfolding print_str print_hex32 is_utf8
report_word val = print_hex32 val (
    print_str (as_bytes "\n") (
      print_str (as_bytes "Got pflash magic: ") (
        print_str (if is_utf8 (to_le_bytes 4 val) then to_le_bytes 4 val else as_bytes "???")
          (print_str (as_bytes "\n") exit))))

-- A row of calls of `print_str`.
unfoldable pub print_all : List (List ℕ) → Program → Program
unfolding print_str
print_all [] k = k
print_all (text ∷ texts) k = print_str text (print_all texts k)

-- The first calls of both guests, with the calls that differ behind them.
abbrev pub banner : List (List ℕ) → List (List ℕ)
banner rest =
    as_bytes "\n       d8888                            .d88888b.   .d8888b.\n"
    ∷ as_bytes "      d88888                           d88P\" \"Y88b d88P  Y88b\n"
    ∷ as_bytes "     d88P888                           888     888 Y88b.\n"
    ∷ as_bytes "    d88P 888 888d888  .d8888b  .d88b.  888     888  \"Y888b.\n"
    ∷ as_bytes "   d88P  888 888P\"   d88P\"    d8P  Y8b 888     888     \"Y88b.\n"
    ∷ as_bytes "  d88P   888 888     888      88888888 888     888       \"888\n"
    ∷ as_bytes " d8888888888 888     Y88b.    Y8b.     Y88b. .d88P Y88b  d88P\n"
    ∷ as_bytes "d88P     888 888      \"Y8888P  \"Y8888   \"Y88888P\"   \"Y8888P\"\n\n"
    ∷ rest

abbrev pub aarch64_greeting : List (List ℕ)
aarch64_greeting = banner (
    (as_bytes "arch = aarch64\nplatform = aarch64-qemu-virt\nsmp = 1\n\n")
    ∷ (as_bytes "Reading PFlash at physical address 0x04000000...\n")
    ∷ (as_bytes "Try to access pflash dev region [0x04000000], got ")
    ∷ [])

-- `PFLASH_START` and `_start` of the aarch64 guest.
abbrev pub aarch64_pflash_start : ℕ
aarch64_pflash_start = 0x0400_0000

unfoldable pub aarch64_start : Program
unfolding print_all report_word
aarch64_start = print_all aarch64_greeting (load aarch64_pflash_start report_word)

abbrev pub x86_64_greeting : List (List ℕ)
x86_64_greeting = banner (
    (as_bytes "arch = x86_64\nplatform = x86-pc\nsmp = 1\n\n")
    ∷ (as_bytes "Reading PFlash at physical address 0xFFC00000...\n")
    ∷ (as_bytes "Try to access pflash dev region [0xFFC00000], got ")
    ∷ [])

-- `PFLASH_START` and `_start` of the x86_64 guest.
abbrev pub x86_64_pflash_start : ℕ
x86_64_pflash_start = 0xFFC0_0000

unfoldable pub x86_64_start : Program
unfolding print_all report_word
x86_64_start = print_all x86_64_greeting (load x86_64_pflash_start report_word)
