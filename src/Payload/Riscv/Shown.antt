-- ===== src/Payload/Riscv/Shown.antt =====
-- What the riscv64 guest prints, as its console receives it.
use app_guestaspace.Base.{ℕ, ◌≡◌, refl, ap, sym, ◌∙◌, List, [], ◌∷◌, ◌++◌}
use mathlib.Core.List.{append_assoc}
use app_guestaspace.Base.Utf8.{is_utf8}
use app_guestaspace.Payload.{Program, as_bytes}
use app_guestaspace.Payload.Loads.{AreBytes, AreBytes-append, LoadsFrom, LoadsFrom-print_str}
use app_guestaspace.Payload.Text.{transcript, transcript-print_str}
use app_guestaspace.Payload.Riscv.{
  Runtime, upper_hex, upper_digits, upper_char, on_console, print, print_magic, riscv64_guest_main,
  riscv64_pflash_start,
}

-- The word of pflash that holds "pfld".
abbrev pub pfld : ℕ
pfld = 0x646c_6670

-- The text of `main`, if the device holds "pfld" and pflash is at this virtual address.
abbrev pub guest_text : ℕ → List ℕ
guest_text va =
    as_bytes "Reading PFlash at physical address 0x22000000...\nTry to access pflash dev region ["
    ++ (upper_hex va ++ as_bytes "], got 0x646C6670\nGot pflash magic: pfld\n")

pflash_hex : upper_hex 0x2200_0000 ≡ as_bytes "0x22000000"
unfolding upper_hex upper_digits upper_char
pflash_hex = refl

word_hex : upper_hex 0x646c_6670 ≡ as_bytes "0x646C6670"
unfolding upper_hex upper_digits upper_char
word_hex = refl

module _ (R : Runtime) where
  on_console-append :
      (xs ys : List ℕ) → on_console R (xs ++ ys) ≡ on_console R xs ++ on_console R ys
  unfolding on_console
  on_console-append [] ys = refl
  on_console-append (x ∷ xs) ys =
      ap (λ l. R.console x ++ l) (on_console-append xs ys) ∙ sym (append_assoc (R.console x) _ _)

  -- A text printed in front of a text.
  transcript-print :
      (text shown more : List ℕ) (k : Program) (rest : List ℕ)
      → text ≡ shown
      → transcript (λ a. pfld) k ≡ on_console R more ++ rest
      → transcript (λ a. pfld) (print R text k) ≡ on_console R (shown ++ more) ++ rest
  unfolding print
  transcript-print text shown more k rest same h =
      transcript-print_str (λ a. pfld) (on_console R text) k
      ∙ ap (λ l. on_console R text ++ l) h
      ∙ sym (append_assoc (on_console R text) _ rest)
      ∙ ap (λ l. l ++ rest)
          (sym (on_console-append text more) ∙ ap (λ l. on_console R (l ++ more)) same)

  module _ (bytes : (b : ℕ) → AreBytes (R.console b)) where
    AreBytes-on_console : (text : List ℕ) → AreBytes (on_console R text)
    unfolding on_console
    AreBytes-on_console [] = tt
    AreBytes-on_console (b ∷ bs) =
        AreBytes-append (R.console b) (on_console R bs) (bytes b) (AreBytes-on_console bs)

    LoadsFrom-print :
        (text : List ℕ) (k : Program)
        → LoadsFrom (R.phys_to_virt riscv64_pflash_start) pfld k
        → LoadsFrom (R.phys_to_virt riscv64_pflash_start) pfld (print R text k)
    unfolding print
    LoadsFrom-print text k h =
        LoadsFrom-print_str (R.phys_to_virt riscv64_pflash_start) pfld (on_console R text) k
          (AreBytes-on_console text) h

    -- With a runtime that sends bytes, `main` prints bytes and loads from pflash only.
    pub main-LoadsFrom :
        LoadsFrom (R.phys_to_virt riscv64_pflash_start) pfld R.returned
        → LoadsFrom (R.phys_to_virt riscv64_pflash_start) pfld (riscv64_guest_main R)
    unfolding riscv64_guest_main print_magic is_utf8
    main-LoadsFrom h = LoadsFrom-print _ _ (
        LoadsFrom-print _ _ (
          LoadsFrom-print _ _ (
            LoadsFrom-print _ _ (
              LoadsFrom-print _ _ (
                LoadsFrom-print _ _ (
                  refl,
                  LoadsFrom-print _ _ (
                      LoadsFrom-print _ _
                        (refl, LoadsFrom-print _ _ (LoadsFrom-print _ _ (LoadsFrom-print _ _ h)))),
                ))))))

  no_text : transcript (λ a. pfld) R.returned ≡ on_console R [] ++ transcript (λ a. pfld) R.returned
  unfolding on_console
  no_text = refl

  -- The transcript of `main` is its text and what the runtime prints behind it.
  pub transcript-main :
      transcript (λ a. pfld) (riscv64_guest_main R)
      ≡ on_console R (guest_text (R.phys_to_virt riscv64_pflash_start))
        ++ transcript (λ a. pfld) R.returned
  unfolding riscv64_guest_main print_magic is_utf8
  transcript-main = transcript-print _ _ _ _ _ refl (
      transcript-print _ _ _ _ _ pflash_hex (
        transcript-print _ _ _ _ _ refl (
          transcript-print _ _ _ _ _ refl (
            transcript-print _ _ _ _ _ refl (
              transcript-print _ _ _ _ _ refl (
                transcript-print _ _ _ _ _ word_hex (
                  transcript-print _ _ _ _ _ refl (
                    transcript-print _ _ _ _ _ refl (
                      transcript-print _ _ _ _ _ refl
                        (transcript-print _ _ [] _ _ refl no_text))))))))))
