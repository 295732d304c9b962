-- ===== src/Xtask.antt =====
-- xtask/src/main.rs, the tool that builds and runs the hypervisor: what its steps act on. The commands
-- that it runs, the host's file system and the crate fatfs are the record `Host` of parameters. A path
-- is text, of a root without a slash at its end. The tool's messages are not modelled.
pub mod Build
pub mod Images
pub mod Qemu
pub mod Main
pub mod Trace
pub mod Refuse
pub mod Finish
use Prim.{Unit, tt}
use app_guestaspace.Base.{
  ℕ, zero, suc, List, [], ◌∷◌, ◌++◌, Bool, true, false, Option, none, some, if◌then◌else◌,
}
pub use Prim.Native.String.{String, ◌++◌ as ◌<>◌}
pub use text.Mathlib.Text.{◌==◌}

-- The bytes of a file.
pub record Content : Type 0 where
  pub len : ℕ
  pub byte : ℕ → ℕ

pub record Command : Type 0 where
  pub program : String
  pub env : List (String × String)
  pub args : List String

-- How a command ended: with a code, or by a signal.
pub data Status : Type 0 where
  exited_with : ℕ → Status
  by_signal : Status

abbrev pub success : Status → Bool
success (exited_with zero) = true
success _ = false

-- `status.code().unwrap_or(1)`
abbrev pub code_or_one : Status → ℕ
code_or_one (exited_with c) = c
code_or_one by_signal = 1

abbrev pub Files : Type 0
Files = String → Option Content

abbrev pub set_file : String → Content → Files → Files
set_file path c files p = if p == path then some c else files p

pub record Host : Type 1 where
  -- Runs a command to its end; `none` if it cannot be started.
  pub spawn : Command → Files → Option Status × Files
  -- May the file be made or written?
  pub writable : String → Files → Bool
  -- `set_len`
  pub resizable : String → ℕ → Files → Bool
  -- `fatfs::FatType`, and its value `Fat32`.
  pub FatType : Type 0
  pub fat32 : FatType
  -- fatfs on the bytes of a volume: success, and the bytes after the call.
  pub format_volume : FatType → Content → Bool × Content
  pub open_volume : Content → Bool × Content
  pub create_dir : String → Content → Bool × Content
  pub create_file : String → Content → Bool × Content
  pub write_all : String → Content → Content → Bool × Content
  pub flush : String → Content → Bool × Content
  -- The end of the scope of the volume.
  pub unmount : Content → Content

-- The files, and the commands so far, each with how it ended.
pub record World : Type 0 where
  pub files : Files
  pub log : List (Command × Option Status)

pub data Result (A : Type 0) : Type 0 where
  done : A → World → Result A
  exited : ℕ → World → Result A
  panicked : World → Result A

abbrev pub Task : Type 0 → Type 0
Task A = World → Result A

infixl 5 ◌>>=◌ ◌>>◌
abbrev pub ◌>>=◌ : {A B : Type 0} → Task A → (A → Task B) → Task B
◌>>=◌ m f w = elim (m w) [
  | done a w' ↦ f a w'
  | exited c w' ↦ exited c w'
  | panicked w' ↦ panicked w'
]

abbrev pub ◌>>◌ : {A B : Type 0} → Task A → Task B → Task B
m >> k = m >>= λ _. k

abbrev pub pure : {A : Type 0} → A → Task A
pure a w = done a w

abbrev pub Done : Type 0
Done = Unit

abbrev pub skip : Task Done
skip = pure tt

-- `process::exit(code)`
abbrev pub exit : {A : Type 0} → ℕ → Task A
exit c w = exited c w

abbrev pub panic : {A : Type 0} → Task A
panic w = panicked w

-- `.unwrap_or_else(|e| { …; process::exit(1) })`
abbrev pub or_exit : {A : Type 0} → Option A → Task A
or_exit none = exit 1
or_exit (some a) = pure a

-- `.expect(…)` and `.unwrap()`
abbrev pub expect : {A : Type 0} → Option A → Task A
expect none = panic
expect (some a) = pure a

-- `if !status.success() { …; process::exit(status.code().unwrap_or(1)) }`
abbrev pub exit_unless_success : Status → Task Done
exit_unless_success s = if success s then skip else exit (code_or_one s)

abbrev pub join : String → String → String
join dir name = dir <> "/" <> name

-- `with_extension`, of a file name that has none.
abbrev pub with_extension : String → String → String
with_extension path ext = path <> "." <> ext

module _ (H : Host) where
  -- `.status()`
  abbrev pub status : Command → Task (Option Status)
  status c w =
      let (s, files) = H.spawn c w.files in
      done s (record { files = files; log = w.log ++ (c, s) ∷ [] })

  -- `fs::write`, and the creation of a file that is empty then.
  abbrev pub write_file : String → Content → Task (Option Done)
  write_file path c w =
      if H.writable path w.files
      then done (some tt) (record w { files = set_file path c w.files })
      else done none w

  -- `fs::read`
  abbrev pub read_file : String → Task (Option Content)
  read_file path w = done (w.files path) w

  -- `fs::copy`, of a file that exists.
  abbrev pub copy_file : String → String → Task (Option Done)
  copy_file src dst w = elim (w.files src) [ none ↦ done none w | some c ↦ write_file dst c w ]
