-- ===== src/Payload/Loads.antt =====
-- Guests that print bytes and load words from one address only, and the exits that they take.
use app_guestaspace.Base.{ℕ, suc, ◌≤◌, ◌<◌, ◌≡◌, List, [], ◌∷◌, ◌++◌, arith}
use app_guestaspace.Payload.{Program, putchar, load, exit, print_str}

-- All of them are bytes.
abbrev pub AreBytes : List ℕ → Type 0
AreBytes [] = Unit
AreBytes (b ∷ bs) = (b < 256) × AreBytes bs

pub AreBytes-append : (bs cs : List ℕ) → AreBytes bs → AreBytes cs → AreBytes (bs ++ cs)
AreBytes-append [] cs h k = k
AreBytes-append (b ∷ bs) cs h k = (h.0, AreBytes-append bs cs h.1 k)

module _ (address word : ℕ) where
  -- The program prints bytes, and loads from this address only, which holds the word.
  abbrev pub LoadsFrom : Program → Type 0
  LoadsFrom (putchar c k) = (c < 256) × LoadsFrom k
  LoadsFrom (load a k) = (a ≡ address) × LoadsFrom (k word)
  LoadsFrom exit = Unit

  pub LoadsFrom-print_str :
      (bs : List ℕ) (k : Program) → AreBytes bs → LoadsFrom k → LoadsFrom (print_str bs k)
  unfolding print_str
  LoadsFrom-print_str [] k h l = l
  LoadsFrom-print_str (b ∷ bs) k h l = (h.0, LoadsFrom-print_str bs k h.1 l)

module _ (word : ℕ) where
  -- The exits of the program, with one for each load.
  abbrev pub exits : Program → ℕ
  exits (putchar c k) = suc (exits k)
  exits (load a k) = suc (exits (k word))
  exits exit = 1

  pub exits_pos : (p : Program) → 1 ≤ exits p
  exits_pos (putchar c k) = omega arith
  exits_pos (load a k) = omega arith
  exits_pos exit = omega arith
