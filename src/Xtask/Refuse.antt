-- ===== src/Xtask/Refuse.antt =====
-- An architecture that xtask does not know.
use app_guestaspace.Base.{◌≡◌, false}
use app_guestaspace.Xtask.{String, ◌==◌, Host, World, exited}
use app_guestaspace.Xtask.Build.{arch_info}
use app_guestaspace.Xtask.Main.{Cmd, build, run, main}
use app_guestaspace.Xtask.Trace.Order.{arch_of}

-- For any other architecture both commands exit with 1 before any file is written or any command is
-- run.
pub main-unsupported :
    (H : Host) (root : String) (cmd : Cmd) (w : World)
    → (arch_of cmd == "riscv64") ≡ false
    → (arch_of cmd == "aarch64") ≡ false
    → (arch_of cmd == "x86_64") ≡ false
    → main H root cmd w ≡ exited 1 w
unfolding main arch_info
main-unsupported H root (build arch) w r a x = rw (r, a, x)
main-unsupported H root (run arch) w r a x = rw (r, a, x)
