-- ===== src/X86/Svm/Halves.antt =====
-- A model-specific register is read and written in two halves.
use app_guestaspace.Base.{ℕ, ◌%◌, ◌^◌, ◌<◌, ◌≡◌, ◌≢◌, ◌∙◌, arith, ==_refl, ==_ne}
use app_guestaspace.Base.Bits.{bit_or-shift}
use app_guestaspace.X86.Svm.{Msrs, rdmsr, wrmsr}

pub rdmsr_lem : (msr : ℕ) (f : Msrs) → f msr < 2 ^ 64 → rdmsr msr f ≡ f msr
unfolding rdmsr
rdmsr_lem msr f h = bit_or-shift 32 _ (f msr % 2 ^ 32) (omega arith) ∙ omega arith

pub wrmsr_self : (msr val : ℕ) (f : Msrs) → val < 2 ^ 64 → wrmsr msr val f msr ≡ val
unfolding wrmsr
wrmsr_self msr val f h = rw (==_refl msr) (omega arith)

pub wrmsr_ne : (msr val m : ℕ) (f : Msrs) → m ≢ msr → wrmsr msr val f m ≡ f m
unfolding wrmsr
wrmsr_ne msr val m f h = rw (==_ne m msr h)

-- A word that is written to a register is read back from its halves, and no other register changes.
pub rdmsr-wrmsr :
    (msr val m : ℕ) (f : Msrs)
    → val < 2 ^ 64
    → m ≢ msr
    → (rdmsr msr (wrmsr msr val f) ≡ val) × (rdmsr m (wrmsr msr val f) ≡ rdmsr m f)
unfolding rdmsr
rdmsr-wrmsr msr val m f h ne = (
  rdmsr_lem msr (wrmsr msr val f) (omega (arith, wrmsr_self msr val f h)) ∙ wrmsr_self msr val f h,
  rw (wrmsr_ne msr val m f ne),
)
