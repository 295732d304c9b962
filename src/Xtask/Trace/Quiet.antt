-- ===== src/Xtask/Trace/Quiet.antt =====
-- The steps of xtask that run no command.
use Prim.{tt}
use app_guestaspace.Base.{
  ℕ, ◌≡◌, ◌∙◌, sym, refl, [], Bool, true, false, Option, none, some, if◌then◌else◌,
}
use mathlib.Core.Path.{subst}
use mathlib.Core.List.{append-nil}
use app_guestaspace.Xtask.{
  String, Content, Host, World, Result, done, exited, panicked, Task, Done, ◌>>=◌, or_exit, skip,
  set_file, read_file, write_file, copy_file,
}
use app_guestaspace.Xtask.Build.{copy_config}
use app_guestaspace.Xtask.Images.{
  create_fat_disk_image, fat, filled, disk_size, write_volume, set_len, resized, exit_unless,
  panic_unless,
}
use app_guestaspace.Xtask.Trace.{Log, Runs, Runs-quiet, stops, breaks}

abbrev IsQuiet : {A : Type 0} → Log → Result A → Type 0
IsQuiet l (done a w) = w.log ≡ l
IsQuiet l (exited c w) = (w.log ≡ l) × (c ≡ 1)
IsQuiet l (panicked w) = w.log ≡ l

abbrev pub Quiet : {A : Type 0} → Task A → Type 0
Quiet m = (w : World) → IsQuiet w.log (m w)

IsQuiet-result :
    {A B : Type 0} (l : Log) (r : Result A) (f : A → Task B)
    → IsQuiet l r
    → ((a : A) → Quiet (f a))
    → IsQuiet l
        (elim r [ done a' w' ↦ f a' w' | exited c w' ↦ exited c w' | panicked w' ↦ panicked w' ])
IsQuiet-result l (done a w) f x k = subst (λ t. IsQuiet t (f a w)) x (k a w)
IsQuiet-result l (exited c w) f x k = x
IsQuiet-result l (panicked w) f x k = x

Quiet->>= :
    {A B : Type 0} (m : Task A) (f : A → Task B)
    → Quiet m
    → ((a : A) → Quiet (f a))
    → Quiet (m >>= f)
Quiet->>= m f x k w = IsQuiet-result w.log (m w) f (x w) k

IsQuiet-if :
    {A : Type 0} (l : Log) (b : Bool) (r s : Result A)
    → IsQuiet l r
    → IsQuiet l s
    → IsQuiet l (if b then r else s)
IsQuiet-if l true r s x y = x
IsQuiet-if l false r s x y = y

Quiet-or_exit : {A : Type 0} (o : Option A) → Quiet (or_exit o)
Quiet-or_exit none w = (refl, refl)
Quiet-or_exit (some a) w = refl

Quiet-exit_unless : (b : Bool) → Quiet (exit_unless b)
Quiet-exit_unless true w = refl
Quiet-exit_unless false w = (refl, refl)

Quiet-panic_unless : (b : Bool) → Quiet (panic_unless b)
Quiet-panic_unless true w = refl
Quiet-panic_unless false w = refl

Quiet-fat : (path : String) (op : Content → Bool × Content) → Quiet (fat path op)
unfolding fat
Quiet-fat path op w =
    elim (w.files path)
      as (λ o. IsQuiet w.log (elim o [
        | none ↦ done false w
        | some c ↦
            let (succeeds, c') = op c in
            done succeeds (record w { files = set_file path c' w.files })
      ])) [ none ↦ refl | some c ↦ refl ]

pub Runs-Quiet : (m : Task Done) → Quiet m → (w : World) → Runs [] tt w (m w)
Runs-Quiet m q w = of_result w (m w) (q w)
  where
    of_result : (w : World) (r : Result Done) → IsQuiet w.log r → Runs [] tt w r
    of_result w (done a w1) x = Runs-quiet tt w w1 x
    of_result w (exited c w1) x = rw x.1 ([], x.0 ∙ sym (append-nil w.log), stops, tt)
    of_result w (panicked w1) x = ([], x ∙ sym (append-nil w.log), breaks, tt)

module _ (H : Host) where
  Quiet-write_file : (path : String) (c : Content) → Quiet (write_file H path c)
  Quiet-write_file path c w = IsQuiet-if w.log (H.writable path w.files) _ _ refl refl

  Quiet-copy_file : (src dst : String) → Quiet (copy_file H src dst)
  Quiet-copy_file src dst w =
      elim (w.files src)
        as (λ o. IsQuiet w.log (elim o [ none ↦ done none w | some c ↦ write_file H dst c w ])) [
          | none ↦ refl
          | some c ↦ Quiet-write_file dst c w
        ]

  Quiet-set_len : (path : String) (size : ℕ) → Quiet (set_len H path size)
  unfolding set_len
  Quiet-set_len path size w =
      IsQuiet-if w.log (H.resizable path size w.files) _ _
        (elim (w.files path)
          as (λ o. IsQuiet {A = Done} w.log (elim o [
            | none ↦ panicked w
            | some c ↦ done tt (record w { files = set_file path (resized size c) w.files })
          ])) [ none ↦ refl | some c ↦ refl ])
        refl

  pub Quiet-copy_config : (src dst : String) → Quiet (copy_config H src dst)
  unfolding copy_config
  Quiet-copy_config src dst =
      Quiet->>= (read_file H src) _ (λ w. refl)
        (λ found.
          Quiet->>= (or_exit found) _ (Quiet-or_exit found)
            (λ c. Quiet->>= (copy_file H src dst) _ (Quiet-copy_file src dst) Quiet-or_exit))

  -- A call of fatfs, and what is done if it fails.
  Quiet-fat_then :
      (path : String) (op : Content → Bool × Content) (unless : Bool → Task Done) (k : Task Done)
      → ((b : Bool) → Quiet (unless b))
      → Quiet k
      → Quiet (fat path op >>= λ b. unless b >>= λ _. k)
  Quiet-fat_then path op unless k u q =
      Quiet->>= (fat path op) _ (Quiet-fat path op) (λ b. Quiet->>= (unless b) _ (u b) (λ x. q))

  Quiet-write_volume : (path : String) (contents : Content) → Quiet (write_volume H path contents)
  unfolding write_volume
  Quiet-write_volume path contents =
      Quiet-fat_then path (H.format_volume H.fat32) exit_unless _ Quiet-exit_unless (
        Quiet-fat_then path H.open_volume exit_unless _ Quiet-exit_unless (
          Quiet-fat_then path (H.create_dir "sbin") exit_unless _ Quiet-exit_unless (
            Quiet-fat_then path (H.create_file "sbin/gkernel") exit_unless _ Quiet-exit_unless (
              Quiet-fat_then path (H.write_all "sbin/gkernel" contents) panic_unless _
                Quiet-panic_unless
                (Quiet-fat_then path (H.flush "sbin/gkernel") panic_unless _ Quiet-panic_unless (
                  Quiet->>= (fat path (λ c. (true, H.unmount c))) (λ b. skip)
                    (Quiet-fat path (λ c. (true, H.unmount c))) (λ b w. refl)))))))

  pub Quiet-create_fat_disk_image :
      (path payload_bin : String) → Quiet (create_fat_disk_image H path payload_bin)
  unfolding create_fat_disk_image
  Quiet-create_fat_disk_image path payload_bin =
      Quiet->>= (read_file H payload_bin) _ (λ w. refl)
        (λ found. Quiet->>= (or_exit found) _ (Quiet-or_exit found) (λ payload_data.
          Quiet->>= (write_file H path (filled 0 0)) _ (Quiet-write_file path (filled 0 0))
            (λ opened. Quiet->>= (or_exit opened) _ (Quiet-or_exit opened) (λ x.
              Quiet->>= (set_len H path disk_size) _ (Quiet-set_len path disk_size)
                (λ x. Quiet-write_volume path payload_data)))))
