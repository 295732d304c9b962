-- ===== src/Aarch64/Run/Exits.antt =====
-- What the AArch64 loop does at one exit.
use app_guestaspace.Base.{
  ℕ, suc, ◌/◌, ◌*◌, ◌%◌, ◌^◌, ◌<◌, ◌≡◌, ◌≢◌, ◌↔◌, refl, ◌∙◌, ap, [], ◌∷◌, ◌++◌, some, ok, get_or,
  arith, false,
}
use app_guestaspace.Base.Bits.{bit_and_low, bit_and_high}
use app_guestaspace.Base.Bytes.{u8}
use app_guestaspace.AddrSpace.{AddrSpace, IsLawful, guest_flags, in_range}
use app_guestaspace.Aarch64.Run.{
  State, resume, stop, Ending, shutdown, exception_class, handle_svc, handle_data_abort,
  handle_exit, after_map, page_size_4k, RunGuest, enter, run,
}

pub exception_class-field : (esr : ℕ) → exception_class esr ≡ esr / 0x400_0000 % 64
unfolding exception_class
exception_class-field esr = bit_and_low 6 (esr / 0x400_0000)

module _ (A : AddrSpace) (G : Type 0) (s : State A G) where
  -- After an asynchronous exception the guest goes on as it was, whatever stands in ESR and FAR.
  pub handle_exit-irq : s.trap.is_irq ≢ 0 → handle_exit A G s ≡ resume s
  unfolding handle_exit
  handle_exit-irq h = ground arith

  -- The loop ends by the shutdown exactly at a synchronous SVC with function 2 in x8.
  pub handle_exit-svc_shutdown_iff : (handle_exit A G s ≡ stop shutdown s) ↔ (
      (s.trap.is_irq ≡ 0)
      × (s.trap.esr / 0x400_0000 % 64 ≡ 0x15)
      × (get_or s.guest.gprs.values 8 0 ≡ 2))
  unfolding handle_exit handle_svc
  handle_exit-svc_shutdown_iff = rw (exception_class-field s.trap.esr) (ground arith)

  module _ (synchronous : s.trap.is_irq ≡ 0) where
    pub svc-putchar :
        exception_class s.trap.esr ≡ 0x15
        → get_or s.guest.gprs.values 8 0 ≡ 1
        → handle_exit A G s
          ≡ resume (record s { console = s.console ++ (u8 (get_or s.guest.gprs.values 0 0) ∷ []) })
    unfolding handle_exit handle_svc
    svc-putchar e f = rw (synchronous, e, f)

    pub svc-exit :
        exception_class s.trap.esr ≡ 0x15
        → get_or s.guest.gprs.values 8 0 ≡ 2
        → handle_exit A G s ≡ stop shutdown s
    unfolding handle_exit handle_svc
    svc-exit e f = rw (synchronous, e, f)

    pub data_abort :
        (far : ℕ)
        → exception_class s.trap.esr ≡ 0x24
        → s.trap.far ≡ far
        → far < 2 ^ 64
        → handle_exit A G s
          ≡ resume (
              after_map A G s (
                A.map_linear
                  (far / 4096 * 4096)
                  (far / 4096 * 4096)
                  page_size_4k
                  (guest_flags A)
                  s.uspace))
    unfolding handle_exit handle_data_abort
    data_abort far e f h = rw (synchronous, e, f, bit_and_high 12 52 far h)

    -- A data abort on a page that can be mapped resumes the guest with the faulting address mapped
    -- to itself; every address outside its page, and the guest's registers, are as they were.
    pub handle_exit-data_abort :
        (far : ℕ) (n : A.Space) (b : ℕ)
        → IsLawful A
        → exception_class s.trap.esr ≡ 0x24
        → s.trap.far ≡ far
        → far < 2 ^ 64
        → A.map_linear (far / 4096 * 4096) (far / 4096 * 4096) page_size_4k (guest_flags A) s.uspace
          ≡ some n
        → in_range (far / 4096 * 4096) page_size_4k b ≡ false
        → (t : State A G) × (handle_exit A G s ≡ resume t)
          × (t ≡ record s { uspace = t.uspace })
          × (A.query t.uspace far ≡ some far)
          × (A.query t.uspace b ≡ A.query s.uspace b)
          × (A.byte_at t.uspace b ≡ A.byte_at s.uspace b)
    handle_exit-data_abort far n b L e f h mapped out =
        let apart = L.linear_outside _ _ _ _ s.uspace n b mapped out in
        (
          record s { uspace = n },
          data_abort far e f h ∙ rw mapped,
          refl,
          L.linear_inside _ _ _ _ s.uspace n far mapped (ground arith) ∙ ap some (omega arith),
          apart.0,
          apart.1,
        )

module _ (A : AddrSpace) (G : Type 0) (run_guest : RunGuest A G) where
  pub run-resume :
      (fuel : ℕ) (s t : State A G)
      → handle_exit A G (enter A G run_guest s) ≡ resume t
      → run A G run_guest (suc fuel) s ≡ run A G run_guest fuel t
  unfolding run
  run-resume fuel s t h =
      ap (λ y. elim y [ resume u ↦ run A G run_guest fuel u | stop e u ↦ ok (e, u) ]) h

  pub run-stop :
      (fuel : ℕ) (e : Ending) (s t : State A G)
      → handle_exit A G (enter A G run_guest s) ≡ stop e t
      → run A G run_guest (suc fuel) s ≡ ok (e, t)
  unfolding run
  run-stop fuel e s t h =
      ap (λ y. elim y [ resume u ↦ run A G run_guest fuel u | stop e' u ↦ ok (e', u) ]) h

  pub run-enter :
      (fuel : ℕ) (s t : State A G)
      → enter A G run_guest s ≡ enter A G run_guest t
      → run A G run_guest (suc fuel) s ≡ run A G run_guest (suc fuel) t
  unfolding run
  run-enter fuel s t h =
      ap
        (λ v. elim (handle_exit A G v) [
          | resume u ↦ run A G run_guest fuel u
          | stop e u ↦ ok (e, u)
        ])
        h
