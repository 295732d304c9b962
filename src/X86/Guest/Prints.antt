-- ===== src/X86/Guest/Prints.antt =====
-- Guest and hypervisor together: what the guest prints reaches the console, its load from pflash is
-- served, and its exit ends the loop.
use app_guestaspace.Base.{
  ℕ, zero, suc, ◌+◌, ◌*◌, ◌/◌, ◌%◌, ◌≤◌, ◌<◌, ◌≡◌, ◌⊎◌, inl, inr, refl, ◌∙◌, sym, ap, none, some,
  true, ok, List, [], ◌∷◌, ◌++◌, arith, ==_ne,
}
use mathlib.Core.List.{append_assoc, append-nil}
use mathlib.Core.Path.{subst}
use app_guestaspace.Base.Bytes.{u64}
use app_guestaspace.AddrSpace.{AddrSpace, IsLawful, IsMapped, guest_flags}
use app_guestaspace.Payload.{Program, putchar, load, exit}
use app_guestaspace.Payload.Text.{transcript}
use app_guestaspace.Payload.Loads.{LoadsFrom, exits, exits_pos}
use app_guestaspace.X86.Vmcb.{Vmcb, save_rip}
use app_guestaspace.X86.Vmcb.Fields.{
  IsVmcb, put, put-IsVmcb, read_field-put_self, read_field-put-Apart,
}
use app_guestaspace.X86.Svm.{SvmGuestGprs, Msrs}
use app_guestaspace.X86.Run.{
  State, resume, stop, Ending, Vmrun, shutdown, enter, run, handle_exit, pflash_magic, page_size_4k,
}
use app_guestaspace.X86.Run.Exits.{handle_exit-vmmcall, handle_exit-shutdown_iff}
use app_guestaspace.X86.Run.Faults.{read_u32, after_npf-kept}
use app_guestaspace.X86.Guest.{vmmcall_putchar-sum, IsMoved, IsProcessor}

abbrev pub pflash : ℕ
pflash = 0xFFC0_0000

put-IsMoved : (vm : Vmcb) (rip : ℕ) → IsVmcb vm → IsMoved (u64 rip) vm (put 8 save_rip (u64 rip) vm)
put-IsMoved vm rip valid = record {
  valid = put-IsVmcb 8 save_rip (u64 rip) vm valid (omega arith);
  moved = read_field-put_self 8 save_rip (u64 rip) vm valid (omega arith) (omega arith);
  kept = λ m at apart. read_field-put-Apart 8 save_rip (u64 rip) vm valid (omega arith) m at apart;
}

module _ (A : AddrSpace) (L : IsLawful A) (G : Type 0) (vmrun : Msrs → Vmrun A G) (image : List ℕ)
    (first : G) (P : Msrs → G → Vmcb → SvmGuestGprs → A.Space → Program → Type 0)
    (C : IsProcessor A G vmrun image first P) (msrs : Msrs) where
  -- The loop ends by the guest's exit, and the console has grown by `text`.
  abbrev pub Prints : ℕ → State A G → List ℕ → Type 0
  Prints fuel s text =
      (t : State A G) × (run A G (vmrun msrs) fuel s ≡ ok (shutdown, t))
      × (t.console ≡ s.console ++ text)

  -- The guest, entered from this state, goes on with `p`.
  abbrev pub At : State A G → Program → Type 0
  At s p = P msrs s.guest s.vmcb s.gprs s.npt p

  -- The page of pflash holds the magic number already, or it can be mapped when it is first used.
  abbrev pub Ready : A.Space → Type 0
  Ready n =
      (IsMapped A n pflash × (read_u32 A n pflash ≡ pflash_magic))
      ⊎ ((n1 : A.Space) × (A.query n pflash ≡ none)
          × (A.map_alloc pflash page_size_4k (guest_flags A) true n ≡ some n1))

  run-resume :
      (fuel : ℕ) (s t : State A G)
      → handle_exit A G (enter A G (vmrun msrs) s) ≡ ok (resume t)
      → run A G (vmrun msrs) (suc fuel) s ≡ run A G (vmrun msrs) fuel t
  unfolding run
  run-resume fuel s t h = rw h

  run-stop :
      (fuel : ℕ) (s t : State A G) (e : Ending)
      → handle_exit A G (enter A G (vmrun msrs) s) ≡ ok (stop e t)
      → run A G (vmrun msrs) (suc fuel) s ≡ ok (e, t)
  unfolding run
  run-stop fuel s t e h = rw h

  module _ (s : State A G) where
    serves_putchar :
        (c : ℕ) (k : Program)
        → c < 256
        → At s (putchar c k)
        → (t : State A G) × (handle_exit A G (enter A G (vmrun msrs) s) ≡ ok (resume t))
          × At t k
          × (t.npt ≡ s.npt)
          × (t.console ≡ s.console ++ (c ∷ []))
    unfolding enter
    serves_putchar c k byte at =
        let x = C.on_putchar msrs s.guest c k s.vmcb s.gprs s.npt at byte in
        let called =
          handle_exit-vmmcall A G (enter A G (vmrun msrs) s) x.valid x.site (c * 256 + 1) x.code
            x.rip_value (x.rax_value ∙ ap ok (vmmcall_putchar-sum c)) in
        let low : (c * 256 + 1) % 256 ≡ 1 = omega arith in
        let char : (c * 256 + 1) / 256 % 256 ≡ c = omega arith in
        (
          _,
          called ∙ rw (==_ne (c * 256 + 1) 0x84000008 (omega arith), low),
          x.continues _ (put-IsMoved _ (x.site + 3) x.valid),
          x.same_npt,
          ap (λ (b : ℕ). s.console ++ (b ∷ [])) char,
        )

    -- The exit ends the loop, with the console as it was.
    serves_exit : (fuel : ℕ) → At s exit → Prints (suc fuel) s []
    unfolding enter
    serves_exit fuel at =
        let x = C.on_exit msrs s.guest s.vmcb s.gprs s.npt at in
        (
          enter A G (vmrun msrs) s,
          run-stop fuel s (enter A G (vmrun msrs) s) shutdown (
              (handle_exit-shutdown_iff A G (enter A G (vmrun msrs) s) x.valid x.site 0x84000008
                  x.code x.rip_value x.rax_value).1
                refl),
          sym (append-nil s.console),
        )

    -- A load from an unmapped page of pflash comes back to the same load, with the page mapped.
    serves_fault :
        (k : ℕ → Program) (n1 : A.Space)
        → At s (load pflash k)
        → A.query s.npt pflash ≡ none
        → A.map_alloc pflash page_size_4k (guest_flags A) true s.npt ≡ some n1
        → (t : State A G) × (handle_exit A G (enter A G (vmrun msrs) s) ≡ ok (resume t))
          × At t (load pflash k)
          × (IsMapped A t.npt pflash × (read_u32 A t.npt pflash ≡ pflash_magic))
          × (t.console ≡ s.console)
    unfolding enter
    serves_fault k n1 at free maps =
        let x = C.on_unmapped msrs s.guest pflash k s.vmcb s.gprs s.npt at (omega arith) free in
        let u = enter A G (vmrun msrs) s in
        let again : A.map_alloc pflash page_size_4k (guest_flags A) true u.npt ≡ some n1 =
          rw x.same_npt maps in
        let (t, handled, kept, root, mapped, outside, magic) =
          after_npf-kept A G u pflash x.code x.address (omega arith) L n1 again in
        (
          record u { npt = t.npt },
          handled ∙ ap (λ v. ok (resume v)) kept,
          x.continues t.npt (record { same_root = root; mapped = mapped; outside = outside }),
          (mapped, magic refl),
          refl,
        )

    -- A load from mapped pflash takes no exit.
    serves_load :
        (k : ℕ → Program)
        → At s (load pflash k)
        → IsMapped A s.npt pflash
        → (t : State A G) × ((fuel : ℕ)
            → run A G (vmrun msrs) (suc fuel) s ≡ run A G (vmrun msrs) (suc fuel) t)
          × At t (k (read_u32 A s.npt pflash))
          × (t.npt ≡ s.npt)
          × (t.console ≡ s.console)
    unfolding run enter
    serves_load k at mapped =
        let (y, vm, g, at', same) =
          C.on_mapped msrs s.guest pflash k s.vmcb s.gprs s.npt at refl mapped in
        (record s { guest = y; vmcb = vm; gprs = g }, λ fuel. rw same refl, at', refl, refl)

  print_on :
      (fuel : ℕ) (front text : List ℕ) (s u : State A G)
      → u.console ≡ s.console ++ front
      → handle_exit A G (enter A G (vmrun msrs) s) ≡ ok (resume u)
      → Prints fuel u text
      → Prints (suc fuel) s (front ++ text)
  print_on fuel front text s u shown handled (t, ends, rest) = (
    t,
    run-resume fuel s u handled ∙ ends,
    rest ∙ ap (λ l. l ++ text) shown ∙ append_assoc s.console front text,
  )

  -- A well-formed guest that is entered where it waits runs to its exit within the exits that its
  -- program counts, and the console has then grown by just what the program prints.
  pub run-Prints :
      (p : Program) (fuel : ℕ) (s : State A G)
      → LoadsFrom pflash pflash_magic p
      → At s p
      → Ready s.npt
      → exits pflash_magic p ≤ fuel
      → Prints fuel s (transcript (λ a. pflash_magic) p)
  run-Prints p zero s wf at ready enough = absurd (omega (arith, exits_pos pflash_magic p))
  run-Prints (putchar c k) (suc fuel) s wf at ready enough =
      let (t, handled, at', npt, shown) = serves_putchar s c k wf.0 at in
      print_on fuel (c ∷ []) _ s t shown handled
        (run-Prints k fuel t wf.1 at' (subst Ready (sym npt) ready) (omega arith))
  run-Prints (load a k) (suc fuel) s wf at (inl (mapped, magic)) enough =
      let (t, goes_on, at', npt, shown) =
        serves_load s k (subst (λ b. At s (load b k)) wf.0 at) mapped in
      let (u, ends, rest) =
        run-Prints (k pflash_magic) (suc fuel) t wf.1 (subst (λ v. At t (k v)) magic at')
          (subst Ready (sym npt) (inl (mapped, magic))) (omega arith) in
      (
        u,
        goes_on fuel ∙ ends,
        rest ∙ ap (λ l. l ++ transcript (λ b. pflash_magic) (k pflash_magic)) shown,
      )
  run-Prints (load a k) (suc zero) s wf at (inr free) enough =
      absurd (omega (arith, exits_pos pflash_magic (k pflash_magic)))
  run-Prints (load a k) (suc (suc fuel)) s wf at (inr (n1, free, maps)) enough =
      let (t, handled, at', ready, shown) =
        serves_fault s k n1 (subst (λ b. At s (load b k)) wf.0 at) free maps in
      let (v, goes_on, at'', npt, quiet) = serves_load t k at' ready.0 in
      let (w, ends, rest) =
        run-Prints (k pflash_magic) (suc fuel) v wf.1 (subst (λ m. At v (k m)) ready.1 at'')
          (subst Ready (sym npt) (inl ready)) (omega arith) in
      print_on (suc fuel) [] _ s t (shown ∙ sym (append-nil s.console)) handled (
        w,
        goes_on fuel ∙ ends,
        rest ∙ ap (λ l. l ++ transcript (λ b. pflash_magic) (k pflash_magic)) quiet,
      )
  run-Prints exit (suc fuel) s wf at ready enough = serves_exit s fuel at
