-- ===== src/X86/Vmcb/Table.antt =====
-- A VMCB that is filled by a sequence of writes: the sequence as a table of fields, and the reading
-- of each field after the last write.
use app_guestaspace.Base.{
  ℕ, ◌+◌, ◌^◌, ◌<◌, ◌≡◌, refl, ◌∙◌, Bool, true, ◌&&◌, ◌||◌, List, [], ◌∷◌, Outcome, ok, ◌>>=◌,
  arith, leb, leb→le, All, all, all_sound, All-map,
}
use app_guestaspace.X86.Vmcb.{Vmcb, read_field, write_field}
use app_guestaspace.X86.Vmcb.Fields.{
  IsVmcb, Apart, put, write_field-eq-put, put-IsVmcb, read_field-put_self, read_field-put-Apart,
}

pub record Field : Type 0 where
  pub width : ℕ
  pub off : ℕ
  pub value : ℕ

abbrev pub field : ℕ → ℕ → ℕ → Field
field width off value = record { width = width; off = off; value = value }

-- The writes of the table, in order.
abbrev pub store_all : List Field → Vmcb → Outcome Vmcb
store_all [] vm = ok vm
store_all (w ∷ ws) vm = do vm1 ← write_field w.width w.off w.value vm; store_all ws vm1

abbrev pub put_all : List Field → Vmcb → Vmcb
put_all [] vm = vm
put_all (w ∷ ws) vm = put_all ws (put w.width w.off w.value vm)

-- The field reads as the table says.
abbrev pub Holds : Vmcb → Field → Type 0
Holds vm w = read_field w.width w.off vm ≡ ok w.value

abbrev pub is_apart : Field → Field → Bool
is_apart w u = leb (u.off + u.width) w.off || leb (w.off + w.width) u.off

abbrev pub is_disjoint : List Field → Bool
is_disjoint [] = true
is_disjoint (w ∷ ws) = all (is_apart w) ws && is_disjoint ws

abbrev pub is_inside : List Field → Bool
is_inside = all (λ w. leb (w.off + w.width) 4096)

abbrev pub FitsWidth : Field → Type 0
FitsWidth w = w.value < 256 ^ w.width

module _ (vm : Vmcb) (valid : IsVmcb vm) (w : Field)
    (inside : leb (w.off + w.width) 4096 ≡ true) where
  write_inside : write_field w.width w.off w.value vm ≡ ok (put w.width w.off w.value vm)
  write_inside = write_field-eq-put w.width w.off w.value vm valid (leb→le _ _ inside)

  put_inside-IsVmcb : IsVmcb (put w.width w.off w.value vm)
  put_inside-IsVmcb = put-IsVmcb w.width w.off w.value vm valid (leb→le _ _ inside)

  put_inside_self : FitsWidth w → Holds (put w.width w.off w.value vm) w
  put_inside_self = read_field-put_self w.width w.off w.value vm valid (leb→le _ _ inside)

  put_inside-Apart :
      (m at : ℕ)
      → Apart w.width w.off m at
      → read_field m at (put w.width w.off w.value vm) ≡ read_field m at vm
  put_inside-Apart = read_field-put-Apart w.width w.off w.value vm valid (leb→le _ _ inside)

pub put_all-IsVmcb :
    (ws : List Field) (vm : Vmcb) → IsVmcb vm → is_inside ws ≡ true → IsVmcb (put_all ws vm)
put_all-IsVmcb [] vm valid h = valid
put_all-IsVmcb (w ∷ ws) vm valid h =
    put_all-IsVmcb ws _ (put_inside-IsVmcb vm valid w (ground arith)) (ground arith)

pub store_all-eq-put_all :
    (ws : List Field) (vm : Vmcb)
    → IsVmcb vm
    → is_inside ws ≡ true
    → store_all ws vm ≡ ok (put_all ws vm)
store_all-eq-put_all [] vm valid h = refl
store_all-eq-put_all (w ∷ ws) vm valid h =
    rw (write_inside vm valid w (ground arith))
      (store_all-eq-put_all ws _ (put_inside-IsVmcb vm valid w (ground arith)) (ground arith))

-- A field that lies apart from the table keeps its value.
pub read_field-put_all-Apart :
    (m at : ℕ) (ws : List Field) (vm : Vmcb)
    → IsVmcb vm
    → is_inside ws ≡ true
    → All (λ w. Apart w.width w.off m at) ws
    → read_field m at (put_all ws vm) ≡ read_field m at vm
read_field-put_all-Apart m at [] vm valid h apart = refl
read_field-put_all-Apart m at (w ∷ ws) vm valid h apart =
    read_field-put_all-Apart m at ws _ (put_inside-IsVmcb vm valid w (ground arith)) (ground arith)
      apart.1
    ∙ put_inside-Apart vm valid w (ground arith) m at apart.0

is_apart→Apart : (w u : Field) → is_apart u w ≡ true → Apart w.width w.off u.width u.off
is_apart→Apart w u h = ground arith

-- Where the fields of a table do not overlap, each reads as the table says after the last write.
pub put_all-Holds :
    (ws : List Field) (vm : Vmcb)
    → IsVmcb vm
    → is_inside ws ≡ true
    → is_disjoint ws ≡ true
    → All FitsWidth ws
    → All (Holds (put_all ws vm)) ws
put_all-Holds [] vm valid h d f = tt
put_all-Holds (w ∷ ws) vm valid h d f = (
  read_field-put_all-Apart w.width w.off ws _ here-IsVmcb (ground arith)
        (All-map _ _ ws (λ u. is_apart→Apart u w) (all_sound (is_apart w) ws (ground arith)))
      ∙ put_inside_self vm valid w (ground arith) f.0,
  put_all-Holds ws _ here-IsVmcb (ground arith) (ground arith) f.1,
)
  where
    here-IsVmcb : IsVmcb (put w.width w.off w.value vm)
    here-IsVmcb = put_inside-IsVmcb vm valid w (ground arith)
