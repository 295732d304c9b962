-- ===== src/Base/Lists.antt =====
-- Lists indexed by native numbers, and a slice written over a range of a list.
use Prim.Native.Nat.{ℕ, zero, suc, ◌+◌, ◌-◌, ◌<◌, ◌≤◌, min}
use mathlib.Core.Path.{◌≡◌, refl, ap, subst, ◌∙◌}
use mathlib.Core.Logic.{◌≢◌, ◌⊎◌}
use mathlib.Core.List.{List, [], ◌∷◌, ◌++◌}
use mathlib.Core.Bool.{Bool, true, ◌&&◌}
use mathlib.Core.Option.{Option, none, some, some-injective}
use native.Mathlib.Omega.{arith}

module _ {ℓ} {A : Type ℓ} where
  abbrev pub length : List A → ℕ
  length [] = 0
  length (x ∷ xs) = suc (length xs)

  abbrev pub get_elem? : List A → ℕ → Option A
  get_elem? [] i = none
  get_elem? (x ∷ xs) zero = some x
  get_elem? (x ∷ xs) (suc i) = get_elem? xs i

  abbrev pub get_or : List A → ℕ → A → A
  get_or [] i d = d
  get_or (x ∷ xs) zero d = x
  get_or (x ∷ xs) (suc i) d = get_or xs i d

  -- A write out of bounds changes nothing.
  abbrev pub set : List A → ℕ → A → List A
  set [] i v = []
  set (x ∷ xs) zero v = v ∷ xs
  set (x ∷ xs) (suc i) v = x ∷ set xs i v

  abbrev pub take : ℕ → List A → List A
  take zero xs = []
  take (suc n) [] = []
  take (suc n) (x ∷ xs) = x ∷ take n xs

  abbrev pub drop : ℕ → List A → List A
  drop zero xs = xs
  drop (suc n) [] = []
  drop (suc n) (x ∷ xs) = drop n xs

  abbrev pub replicate : ℕ → A → List A
  replicate zero a = []
  replicate (suc n) a = a ∷ replicate n a

  -- `xs[off..off + n]`, for a range that lies in the list.
  abbrev pub slice : ℕ → ℕ → List A → List A
  slice off n xs = take n (drop off xs)

  -- `bs` written over `xs` from `off` on; what lies past the end is dropped.
  abbrev pub splice : ℕ → List A → List A → List A
  splice off bs [] = []
  splice zero [] (x ∷ xs) = x ∷ xs
  splice zero (b ∷ bs) (x ∷ xs) = b ∷ splice zero bs xs
  splice (suc off) bs (x ∷ xs) = x ∷ splice off bs xs

  pub length-append : (xs ys : List A) → length (xs ++ ys) ≡ length xs + length ys
  length-append [] ys = omega arith
  length-append (x ∷ xs) ys = omega (arith, length-append xs ys)

  pub length-replicate : (n : ℕ) (a : A) → length (replicate n a) ≡ n
  length-replicate zero a = refl
  length-replicate (suc n) a = ap suc (length-replicate n a)

  pub length-splice : (off : ℕ) (bs xs : List A) → length (splice off bs xs) ≡ length xs
  length-splice zero [] [] = refl
  length-splice zero (b ∷ bs) [] = refl
  length-splice (suc off) bs [] = refl
  length-splice zero [] (x ∷ xs) = refl
  length-splice zero (b ∷ bs) (x ∷ xs) = ap suc (length-splice zero bs xs)
  length-splice (suc off) bs (x ∷ xs) = ap suc (length-splice off bs xs)

  pub length-set : (xs : List A) (i : ℕ) (v : A) → length (set xs i v) ≡ length xs
  length-set [] i v = refl
  length-set (x ∷ xs) zero v = refl
  length-set (x ∷ xs) (suc i) v = ap suc (length-set xs i v)

  pub get_or-set_self :
      (xs : List A) (i : ℕ) (v d : A) → i < length xs → get_or (set xs i v) i d ≡ v
  get_or-set_self [] i v d h = elim h [ ]
  get_or-set_self (x ∷ xs) zero v d h = refl
  get_or-set_self (x ∷ xs) (suc i) v d h = get_or-set_self xs i v d (omega arith)

  pub get_or-set_ne :
      (xs : List A) (i j : ℕ) (v d : A) → i ≢ j → get_or (set xs i v) j d ≡ get_or xs j d
  get_or-set_ne [] i j v d h = refl
  get_or-set_ne (x ∷ xs) zero zero v d h = absurd (h refl)
  get_or-set_ne (x ∷ xs) zero (suc j) v d h = refl
  get_or-set_ne (x ∷ xs) (suc i) zero v d h = refl
  get_or-set_ne (x ∷ xs) (suc i) (suc j) v d h = get_or-set_ne xs i j v d (λ e. h (ap suc e))

  -- Reading back a written range.
  pub slice-splice_self :
      (off : ℕ) (bs xs : List A)
      → off + length bs ≤ length xs
      → slice off (length bs) (splice off bs xs) ≡ bs
  slice-splice_self zero [] xs h = refl
  slice-splice_self zero (b ∷ bs) [] h = absurd (omega arith)
  slice-splice_self (suc off) bs [] h = absurd (omega arith)
  slice-splice_self zero (b ∷ bs) (x ∷ xs) h =
      ap (◌∷◌ b) (slice-splice_self zero bs xs (omega arith))
  slice-splice_self (suc off) bs (x ∷ xs) h = slice-splice_self off bs xs (omega arith)

  -- A range before or behind the written one is as it was.
  pub slice-splice_apart :
      (off : ℕ) (bs : List A) (at n : ℕ) (xs : List A)
      → (at + n ≤ off) ⊎ (off + length bs ≤ at)
      → slice at n (splice off bs xs) ≡ slice at n xs
  slice-splice_apart off bs at n [] h = refl
  slice-splice_apart zero [] at n (x ∷ xs) h = refl
  slice-splice_apart (suc off) bs zero zero (x ∷ xs) h = refl
  slice-splice_apart zero (b ∷ bs) zero zero (x ∷ xs) h = refl
  slice-splice_apart zero (b ∷ bs) zero (suc n) (x ∷ xs) h = absurd (omega arith)
  slice-splice_apart zero (b ∷ bs) (suc at) n (x ∷ xs) h =
      slice-splice_apart zero bs at n xs (omega arith)
  slice-splice_apart (suc off) bs zero (suc n) (x ∷ xs) h =
      ap (◌∷◌ x) (slice-splice_apart off bs zero n xs (omega arith))
  slice-splice_apart (suc off) bs (suc at) n (x ∷ xs) h =
      slice-splice_apart off bs at n xs (omega arith)

  pub slice-splice_of_length :
      (off n : ℕ) (bs xs : List A)
      → length bs ≡ n
      → off + n ≤ length xs
      → slice off n (splice off bs xs) ≡ bs
  slice-splice_of_length off n bs xs e h =
      subst (λ k. slice off k (splice off bs xs) ≡ bs) e (slice-splice_self off bs xs (omega arith))

  pub get_or-take : (n k : ℕ) (xs : List A) (d : A) → k < n → get_or (take n xs) k d ≡ get_or xs k d
  get_or-take zero k xs d h = absurd (omega arith)
  get_or-take (suc n) k [] d h = refl
  get_or-take (suc n) zero (x ∷ xs) d h = refl
  get_or-take (suc n) (suc k) (x ∷ xs) d h = get_or-take n k xs d (omega arith)

  pub get_or-drop :
      (off k : ℕ) (xs : List A) (d : A) → get_or (drop off xs) k d ≡ get_or xs (off + k) d
  get_or-drop zero k xs d = ap (λ (n : ℕ). get_or xs n d) (omega arith)
  get_or-drop (suc off) k [] d = refl
  get_or-drop (suc off) k (x ∷ xs) d =
      let e : suc (off + k) ≡ suc off + k = omega arith in
      get_or-drop off k xs d ∙ ap (λ (n : ℕ). get_or (x ∷ xs) n d) e

  pub length-take : (n : ℕ) (xs : List A) → length (take n xs) ≡ min n (length xs)
  length-take zero xs = omega arith
  length-take (suc n) [] = omega arith
  length-take (suc n) (x ∷ xs) = omega (arith, length-take n xs)

  pub take_all : (n : ℕ) (xs : List A) → length xs ≤ n → take n xs ≡ xs
  take_all zero [] h = refl
  take_all zero (x ∷ xs) h = absurd (omega arith)
  take_all (suc n) [] h = refl
  take_all (suc n) (x ∷ xs) h = ap (◌∷◌ x) (take_all n xs (omega arith))

  pub length-drop : (n : ℕ) (xs : List A) → length (drop n xs) ≡ length xs - n
  length-drop zero xs = omega arith
  length-drop (suc n) [] = omega arith
  length-drop (suc n) (x ∷ xs) = omega (arith, length-drop n xs)

  pub get_or-slice :
      (off n k : ℕ) (xs : List A) (d : A)
      → k < n
      → get_or (slice off n xs) k d ≡ get_or xs (off + k) d
  get_or-slice off n k xs d h = get_or-take n k (drop off xs) d h ∙ get_or-drop off k xs d

  abbrev pub All {κ} : (A → Type κ) → List A → Type κ
  All P [] = Unit {κ}
  All P (x ∷ xs) = P x × All P xs

  abbrev pub all : (A → Bool) → List A → Bool
  all p [] = true
  all p (x ∷ xs) = p x && all p xs

  pub all_sound : (p : A → Bool) (xs : List A) → all p xs ≡ true → All (λ x. p x ≡ true) xs
  all_sound p [] h = tt
  all_sound p (x ∷ xs) h = (ground arith, all_sound p xs (ground arith))

  pub All-map {κ μ} :
      (P : A → Type κ) (Q : A → Type μ) (xs : List A) → ((x : A) → P x → Q x) → All P xs → All Q xs
  All-map P Q [] f h = tt
  All-map P Q (x ∷ xs) f h = (f x h.0, All-map P Q xs f h.1)

  pub All-set {κ} :
      (P : A → Type κ) (xs : List A) (i : ℕ) (v : A) → All P xs → P v → All P (set xs i v)
  All-set P [] i v h p = tt
  All-set P (x ∷ xs) zero v h p = (p, h.1)
  All-set P (x ∷ xs) (suc i) v h p = (h.0, All-set P xs i v h.1 p)

  pub All-append {κ} : (P : A → Type κ) (xs ys : List A) → All P xs → All P ys → All P (xs ++ ys)
  All-append P [] ys h k = k
  All-append P (x ∷ xs) ys h k = (h.0, All-append P xs ys h.1 k)

  pub All_get {κ} :
      (P : A → Type κ) (xs : List A) (i : ℕ) (x : A) → All P xs → get_elem? xs i ≡ some x → P x
  All_get P [] i x h e = cc
  All_get P (y ∷ xs) zero x h e = subst P (some-injective y x e) h.0
  All_get P (y ∷ xs) (suc i) x h e = All_get P xs i x h.1 e
