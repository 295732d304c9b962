-- ===== src/Riscv/Csrs/Fields/Apart.antt =====
-- The declared fields of a register share no bit, except for two of hstatus.
use app_guestaspace.Base.{
  ℕ, zero, suc, ◌+◌, ◌≤◌, ◌<◌, ◌≡◌, ◌⊎◌, inl, inr, refl, ap, sym, some, List, [], ◌∷◌, get_elem?,
  drop, arith,
}
use mathlib.Core.Option.{some-injective}
use mathlib.Core.Path.{subst}
use app_guestaspace.Riscv.Csrs.Fields.{Register, Field, fields, hstatus_fields}

-- Bit `k` belongs to the field.
abbrev pub Covers : Field → ℕ → Type 0
Covers f k = (f.offset ≤ k) × (k < f.offset + f.numbits)

-- Each field ends where the next one begins or before, from bit `lo` on up to bit 64.
abbrev Ordered : ℕ → List Field → Type 0
Ordered lo [] = lo ≤ 64
Ordered lo (f ∷ fs) = (lo ≤ f.offset) × Ordered (f.offset + f.numbits) fs

Ordered-le : (lo : ℕ) (fs : List Field) → Ordered lo fs → lo ≤ 64
Ordered-le lo [] h = h
Ordered-le lo (f ∷ fs) h = omega (arith, h.0, Ordered-le (f.offset + f.numbits) fs h.1)

above :
    (lo : ℕ) (fs : List Field) (i k : ℕ) (f : Field)
    → Ordered lo fs
    → get_elem? fs i ≡ some f
    → Covers f k
    → (lo ≤ k) × (k < 64)
above lo [] i k f h e c = absurd (cc)
above lo (g ∷ fs) zero k f h e c =
    let same : Covers g k = subst (λ x. Covers x k) (sym (some-injective g f e)) c in
    (omega (arith, same.0, h.0), omega (arith, same.1, Ordered-le (g.offset + g.numbits) fs h.1))
above lo (g ∷ fs) (suc i) k f h e c =
    let rest = above (g.offset + g.numbits) fs i k f h.1 e c in (omega (arith, rest.0, h.0), rest.1)

apart :
    (lo : ℕ) (fs : List Field) (i j k : ℕ) (f g : Field)
    → Ordered lo fs
    → get_elem? fs i ≡ some f
    → get_elem? fs j ≡ some g
    → Covers f k
    → Covers g k
    → i ≡ j
apart lo [] i j k f g h e e' c c' = absurd (cc)
apart lo (x ∷ fs) zero zero k f g h e e' c c' = refl
apart lo (x ∷ fs) zero (suc j) k f g h e e' c c' =
    let same : Covers x k = subst (λ y. Covers y k) (sym (some-injective x f e)) c in
    absurd (omega (arith, same.1, (above (x.offset + x.numbits) fs j k g h.1 e' c').0))
apart lo (x ∷ fs) (suc i) zero k f g h e e' c c' =
    let same : Covers x k = subst (λ y. Covers y k) (sym (some-injective x g e')) c' in
    absurd (omega (arith, same.1, (above (x.offset + x.numbits) fs i k f h.1 e c).0))
apart lo (x ∷ fs) (suc i) (suc j) k f g h e e' c c' =
    ap suc (apart (x.offset + x.numbits) fs i j k f g h.1 e e' c c')

module _ (r : Register) (i j k : ℕ) (f g : Field) (c : Covers f k) (c' : Covers g k) where
  -- What the theorem below says of two fields.
  abbrev Same : Type 0
  Same = ((i ≡ j) ⊎ ((r ≡ Register.hstatus) × (k ≡ 6) × (i < 2) × (j < 2))) × (k < 64)

  when_ordered :
      (fs : List Field) → get_elem? fs i ≡ some f → get_elem? fs j ≡ some g → Ordered 0 fs → Same
  when_ordered fs e e' h = (inl (apart 0 fs i j k f g h e e' c c'), (above 0 fs i k f h e c).1)

-- A list whose first field lies on the second one, which is bit 6.
second :
    (x y : Field) (fs : List Field) (j k : ℕ) (g : Field)
    → y.offset + y.numbits ≡ 7
    → Ordered 7 fs
    → get_elem? (y ∷ fs) j ≡ some g
    → k < 7
    → Covers g k
    → j ≡ 0
second x y fs zero k g end h e low c = refl
second x y fs (suc j) k g end h e low c = absurd (omega (arith, (above 7 fs j k g h e c).0))

module _ (x y : Field) (fs : List Field) (x_at : (x.offset ≡ 6) × (x.numbits ≡ 1))
    (y_at : (y.offset ≡ 6) × (y.numbits ≡ 1)) (ordered : Ordered 7 fs) where
  covered_bit : (k : ℕ) (f : Field) → some x ≡ some f → Covers f k → k ≡ 6
  covered_bit k f e c =
      let same : Covers x k = subst (λ y. Covers y k) (sym (some-injective x f e)) c in
      omega (arith, same, x_at)

  rest-Ordered : Ordered 6 (y ∷ fs)
  rest-Ordered = (omega (arith, y_at), subst (λ n. Ordered n fs) (omega (arith, y_at)) ordered)

  two_on_one :
      (i j k : ℕ) (f g : Field) (c : Covers f k) (c' : Covers g k)
      → get_elem? (x ∷ y ∷ fs) i ≡ some f
      → get_elem? (x ∷ y ∷ fs) j ≡ some g
      → Same Register.hstatus i j k f g c c'
  two_on_one zero zero k f g c c' e e' =
      let at = covered_bit k f e c in (inl refl, omega (arith, at))
  two_on_one zero (suc j) k f g c c' e e' =
      let at = covered_bit k f e c in
      let one = second x y fs j k g (omega (arith, y_at)) ordered e' (omega (arith, at)) c' in
      (inr (refl, at, omega arith, omega (arith, one)), omega (arith, at))
  two_on_one (suc i) zero k f g c c' e e' =
      let at = covered_bit k g e' c' in
      let one = second x y fs i k f (omega (arith, y_at)) ordered e (omega (arith, at)) c in
      (inr (refl, at, omega (arith, one), omega arith), omega (arith, at))
  two_on_one (suc i) (suc j) k f g c c' e e' = (
    inl (ap suc (apart 6 (y ∷ fs) i j k f g rest-Ordered e e' c c')),
    (above 6 (y ∷ fs) i k f rest-Ordered e c).1,
  )

abbrev vsbe : Field
vsbe = record { name = "vsbe"; offset = 6; numbits = 1 }

abbrev gva : Field
gva = record { name = "gva"; offset = 6; numbits = 1 }

-- Two declared fields of a register that share a bit are the same field, unless they are the first
-- two of hstatus, which share bit 6; and every bit of a field is one of the 64 of the register.
pub fields_apart :
    (r : Register) (i j k : ℕ) (f g : Field)
    → get_elem? (fields r) i ≡ some f
    → get_elem? (fields r) j ≡ some g
    → Covers f k
    → Covers g k
    → ((i ≡ j) ⊎ ((r ≡ Register.hstatus) × (k ≡ 6) × (i < 2) × (j < 2))) × (k < 64)
fields_apart Register.hstatus i j k f g e e' c c' =
    two_on_one vsbe gva (drop 2 hstatus_fields) (refl, refl) (refl, refl) (omega arith) i j k f g c
      c' e e'
fields_apart Register.hedeleg i j k f g e e' c c' =
    when_ordered Register.hedeleg i j k f g c c' (fields Register.hedeleg) e e' (omega arith)
fields_apart Register.sie i j k f g e e' c c' =
    when_ordered Register.sie i j k f g c c' (fields Register.sie) e e' (omega arith)
fields_apart Register.hideleg i j k f g e e' c c' =
    when_ordered Register.hideleg i j k f g c c' (fields Register.hideleg) e e' (omega arith)
fields_apart Register.hie i j k f g e e' c c' =
    when_ordered Register.hie i j k f g c c' (fields Register.hie) e e' (omega arith)
fields_apart Register.hcounteren i j k f g e e' c c' =
    when_ordered Register.hcounteren i j k f g c c' (fields Register.hcounteren) e e' (omega arith)
fields_apart Register.hvip i j k f g e e' c c' =
    when_ordered Register.hvip i j k f g c c' (fields Register.hvip) e e' (omega arith)
