-- ===== src/Riscv/Csrs/Fields.antt =====
-- src/csrs.rs: the bit fields of the registers, as `register_bitfields!` declares them.
pub mod Apart
use app_guestaspace.Base.{ℕ, List, [], ◌∷◌}
use Prim.Native.String.{String}

-- A register with declared fields.
pub data Register : Type 0 where
  hedeleg sie hstatus hideleg hie hcounteren hvip : Register

-- `name OFFSET(offset) NUMBITS(numbits)`
pub record Field : Type 0 where
  pub name : String
  pub offset : ℕ
  pub numbits : ℕ

abbrev field : String → ℕ → ℕ → Field
field name offset numbits = record { name = name; offset = offset; numbits = numbits }

-- The previous mode of the hart, and its previous privilege.
abbrev pub spv : Field
spv = field "spv" 7 1

abbrev pub spvp : Field
spvp = field "spvp" 8 1

-- The declared values: a virtual machine before, in supervisor mode.
abbrev pub spv_guest : ℕ
spv_guest = 1

abbrev pub spvp_supervisor : ℕ
spvp_supervisor = 1

abbrev pub hedeleg_fields : List Field
hedeleg_fields =
    field "instr_misaligned" 0 1
    ∷ field "instr_fault" 1 1
    ∷ field "illegal_instr" 2 1
    ∷ field "breakpoint" 3 1
    ∷ field "load_misaligned" 4 1
    ∷ field "load_fault" 5 1
    ∷ field "store_misaligned" 6 1
    ∷ field "store_fault" 7 1
    ∷ field "u_ecall" 8 1
    ∷ field "instr_page_fault" 12 1
    ∷ field "load_page_fault" 13 1
    ∷ field "store_page_fault" 15 1
    ∷ []

abbrev pub sie_fields : List Field
sie_fields = field "ssoft" 1 1 ∷ field "stimer" 5 1 ∷ field "sext" 9 1 ∷ []

abbrev pub hstatus_fields : List Field
hstatus_fields =
    field "vsbe" 6 1
    ∷ field "gva" 6 1
    ∷ spv
    ∷ spvp
    ∷ field "hu" 9 1
    ∷ field "vgein" 12 6
    ∷ field "vtvm" 20 1
    ∷ field "vtw" 21 1
    ∷ field "vtsr" 22 1
    ∷ field "vsxl" 32 2
    ∷ []

abbrev pub hideleg_fields : List Field
hideleg_fields = field "vssoft" 2 1 ∷ field "vstimer" 6 1 ∷ field "vsext" 10 1 ∷ []

abbrev pub hie_fields : List Field
hie_fields = field "vssoft" 2 1 ∷ field "vstimer" 6 1 ∷ field "vsext" 10 1 ∷ field "sgext" 12 1 ∷ []

abbrev pub hcounteren_fields : List Field
hcounteren_fields =
    field "cycle" 0 1 ∷ field "time" 1 1 ∷ field "instret" 2 1 ∷ field "hpm" 3 29 ∷ []

abbrev pub hvip_fields : List Field
hvip_fields = field "vssoft" 2 1 ∷ field "vstimer" 6 1 ∷ field "vsext" 10 1 ∷ []

abbrev pub fields : Register → List Field
fields Register.hedeleg = hedeleg_fields
fields Register.sie = sie_fields
fields Register.hstatus = hstatus_fields
fields Register.hideleg = hideleg_fields
fields Register.hie = hie_fields
fields Register.hcounteren = hcounteren_fields
fields Register.hvip = hvip_fields
