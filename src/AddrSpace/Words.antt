-- ===== src/AddrSpace/Words.antt =====
-- Words in guest memory: what the guest reads where little-endian bytes were written.
use app_guestaspace.Base.{
  ℕ, zero, suc, ◌+◌, ◌≤◌, ◌<◌, ◌≡◌, ◌⊎◌, refl, ◌∙◌, ap, List, [], ◌∷◌, some, arith, length, get_or,
  ◌^◌,
}
use app_guestaspace.Base.Bytes.{to_le_bytes, from_le_bytes, from_le_bytes-to_le_bytes}
use app_guestaspace.AddrSpace.{AddrSpace, IsLawful}

-- The `k` bytes at `a`.
abbrev pub read_bytes : (A : AddrSpace) → A.Space → ℕ → ℕ → List ℕ
read_bytes A n a zero = []
read_bytes A n a (suc k) = A.byte_at n a ∷ read_bytes A n (a + 1) k

-- The 64-bit word at `a`.
abbrev pub read_u64 : (A : AddrSpace) → A.Space → ℕ → ℕ
read_u64 A n a = from_le_bytes (read_bytes A n a 8)

module _ (A : AddrSpace) where
  read_bytes-eq :
      (s t : A.Space) (a k : ℕ)
      → ((i : ℕ) → i < k → A.byte_at t (a + i) ≡ A.byte_at s (a + i))
      → read_bytes A t a k ≡ read_bytes A s a k
  read_bytes-eq s t a zero h = refl
  read_bytes-eq s t a (suc k) h =
      let first : a + 0 ≡ a = omega arith in
      let head : A.byte_at t a ≡ A.byte_at s a = rw first at (h 0 (omega arith)) in
      cc (
        head,
        read_bytes-eq s t (a + 1) k (λ i p.
            let next : a + suc i ≡ a + 1 + i = omega arith in rw next at (h (suc i) (omega arith))),
      )

  -- Words are equal where their bytes are.
  pub read_u64-eq :
      (s t : A.Space) (a : ℕ)
      → ((i : ℕ) → i < 8 → A.byte_at t (a + i) ≡ A.byte_at s (a + i))
      → read_u64 A t a ≡ read_u64 A s a
  read_u64-eq s t a h = ap from_le_bytes (read_bytes-eq s t a 8 h)

  pub read_bytes_given :
      (t : A.Space) (a : ℕ) (bs : List ℕ)
      → ((i : ℕ) → i < length bs → A.byte_at t (a + i) ≡ get_or bs i 0)
      → read_bytes A t a (length bs) ≡ bs
  read_bytes_given t a [] h = refl
  read_bytes_given t a (b ∷ bs) h =
      let first : a + 0 ≡ a = omega arith in
      let head : A.byte_at t a ≡ b = rw first at (h 0 (omega arith)) in
      cc (
        head,
        read_bytes_given t (a + 1) bs (λ i p.
            let next : a + suc i ≡ a + 1 + i = omega arith in rw next at (h (suc i) (omega arith))),
      )

  module _ (L : IsLawful A) where
    read_bytes-write :
        (a : ℕ) (bs : List ℕ) (s t : A.Space)
        → A.write a bs s ≡ some t
        → read_bytes A t a (length bs) ≡ bs
    read_bytes-write a bs s t w = read_bytes_given t a bs (λ i h.
        L.write_inside a bs s t (a + i) w (ground arith)
        ∙ ap (λ (k : ℕ). get_or bs k 0) (omega arith))

    -- A word that was written is read.
    pub read_u64-write :
        (a v : ℕ) (s t : A.Space)
        → v < 2 ^ 64
        → A.write a (to_le_bytes 8 v) s ≡ some t
        → read_u64 A t a ≡ v
    read_u64-write a v s t h w =
        ap from_le_bytes (read_bytes-write a (to_le_bytes 8 v) s t w)
        ∙ from_le_bytes-to_le_bytes 8 v h

    -- A word that lies apart from a written range is as it was.
    pub read_u64-write_apart :
        (a b : ℕ) (bs : List ℕ) (s t : A.Space)
        → (b + 8 ≤ a) ⊎ (a + length bs ≤ b)
        → A.write a bs s ≡ some t
        → read_u64 A t b ≡ read_u64 A s b
    read_u64-write_apart a b bs s t h w =
        ap from_le_bytes
          (read_bytes-eq s t b 8 (λ i p. L.write_outside a bs s t (b + i) w (ground arith)))
