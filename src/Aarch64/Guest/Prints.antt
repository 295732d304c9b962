-- ===== src/Aarch64/Guest/Prints.antt =====
-- Guest and hypervisor together: what the guest prints reaches the console, its load from pflash is
-- passed through to the device, and its exit ends the loop.
use app_guestaspace.Base.{
  ℕ, zero, suc, ◌≤◌, ◌<◌, ◌≡◌, ◌⊎◌, inl, inr, refl, ◌∙◌, sym, ap, none, some, ok, List, [], ◌∷◌,
  ◌++◌, arith, get_or,
}
use mathlib.Core.List.{append_assoc, append-nil, flatten}
use app_guestaspace.Base.Bytes.{u8}
use app_guestaspace.AddrSpace.{AddrSpace, IsLawful, guest_flags}
use app_guestaspace.Payload.{
  Program, putchar, load, exit, aarch64_start, aarch64_greeting, as_bytes,
}
use app_guestaspace.Payload.Loads.{LoadsFrom, exits, exits_pos}
use app_guestaspace.Payload.Text.{transcript}
use app_guestaspace.Aarch64.Regs.{GuestState, TrapState}
use app_guestaspace.Aarch64.Run.{State, shutdown, after_map, page_size_4k, RunGuest, enter, run}
use app_guestaspace.Aarch64.Run.Exits.{
  svc-putchar, svc-exit, data_abort, run-enter, run-resume, run-stop,
}
use app_guestaspace.Aarch64.Guest.{IsCore, IsEntry}
use app_guestaspace.AddrSpace.Passed.{map_linear-IsPassed}
use app_guestaspace.Aarch64.Main.{SystemRegisters}
use mathlib.Core.Path.{subst}

abbrev pub pflash : ℕ
pflash = 0x0400_0000

-- The state in which the loop enters the guest.
abbrev pub waiting :
    (A : AddrSpace) (G : Type 0) → G → GuestState → TrapState → A.Space → List ℕ → State A G
waiting A G x g t n console = record {
  running = x;
  guest = g;
  trap = t;
  uspace = n;
  console = console;
}

module _ (device : ℕ → ℕ) (word : device pflash ≡ 0x646c_6670) where
  start-LoadsFrom : LoadsFrom pflash (device pflash) aarch64_start
  unfolding aarch64_start
  start-LoadsFrom = rw word (omega arith)

  exits-start : exits (device pflash) aarch64_start ≤ 1000
  unfolding aarch64_start
  exits-start = rw word (omega arith)

  start-transcript :
      transcript device aarch64_start
      ≡ flatten aarch64_greeting ++ as_bytes "0x646c6670\nGot pflash magic: pfld\n"
  unfolding aarch64_start flatten
  start-transcript = rw word

module _ (A : AddrSpace) (L : IsLawful A) (G : Type 0) (device : ℕ → ℕ)
    (core : SystemRegisters → RunGuest A G) (image : List ℕ) (first : G)
    (P : G → GuestState → SystemRegisters → A.Space → Program → Type 0)
    (C : IsCore A G device core image first P) (system : SystemRegisters) where
  -- The loop ends by the guest's exit, and the console has grown by `text`.
  abbrev pub Prints : ℕ → State A G → List ℕ → Type 0
  Prints fuel s text =
      (t : State A G) × (run A G (core system) fuel s ≡ ok (shutdown, t))
      × (t.console ≡ s.console ++ text)

  module _ (x : G) (g : GuestState) (tr : TrapState) (n : A.Space) (console : List ℕ) where
    abbrev here : State A G
    here = waiting A G x g tr n console

    serves_putchar :
        (c : ℕ) (k : Program)
        → c < 256
        → P x g system n (putchar c k)
        → (y : G) × (h : GuestState) × (tr' : TrapState) × P y h system n k
          × ((fuel : ℕ)
              → run A G (core system) (suc fuel) here
                ≡ run A G (core system) fuel (waiting A G y h tr' n (console ++ (c ∷ []))))
    unfolding enter
    serves_putchar c k byte at =
        let now = C.on_putchar x c k g system n at byte in
        let low : u8 (get_or (core system x g n).1.gprs.values 0 0) ≡ c = omega (arith, now.2) in
        (
          (core system x g n).0,
          (core system x g n).1,
          (core system x g n).2,
          now.0,
          λ fuel.
              run-resume A G (core system) fuel here _
                (svc-putchar A G (enter A G (core system) here) now.1.0 now.1.1 now.1.2)
              ∙ ap
                  (λ (b : ℕ). run A G (core system) fuel (
                    waiting A G (core system x g n).0 (core system x g n).1 (core system x g n).2 n
                      (console ++ (b ∷ []))))
                  low,
        )

    serves_exit : (fuel : ℕ) → P x g system n exit → Prints (suc fuel) here []
    unfolding enter
    serves_exit fuel at =
        let now = C.on_exit x g system n at in
        (
          enter A G (core system) here,
          run-stop A G (core system) fuel shutdown _ _
              (svc-exit A G (enter A G (core system) here) now.0 now.1 now.2),
          sym (append-nil console),
        )

    serves_load :
        (k : ℕ → Program)
        → P x g system n (load pflash k)
        → A.query n pflash ≡ some pflash
        → (y : G) × (h : GuestState) × P y h system n (k (device pflash))
          × ((fuel : ℕ)
              → run A G (core system) (suc fuel) here
                ≡ run A G (core system) (suc fuel) (waiting A G y h tr n console))
    unfolding enter
    serves_load k at mapped =
        let (y, h, at', same) = C.on_mapped x pflash pflash k g system n at refl mapped in
        (
          y,
          h,
          at',
          λ fuel.
              run-enter A G (core system) fuel _ _
                (ap (λ (z : G × GuestState × TrapState). waiting A G z.0 z.1 z.2 n console) same),
        )

    serves_abort :
        (k : ℕ → Program) (n1 : A.Space)
        → P x g system n (load pflash k)
        → A.query n pflash ≡ none
        → A.map_linear pflash pflash page_size_4k (guest_flags A) n ≡ some n1
        → (y : G) × (h : GuestState) × (tr' : TrapState) × P y h system n1 (load pflash k)
          × ((fuel : ℕ)
              → run A G (core system) (suc fuel) here
                ≡ run A G (core system) fuel (waiting A G y h tr' n1 console))
    unfolding enter
    serves_abort k n1 at free maps =
        let now = C.on_unmapped x pflash k g system n at (omega arith) refl free in
        let y = (core system x g n).0 in
        let h = (core system x g n).1 in
        let tr' = (core system x g n).2 in
        let same : after_map A G (waiting A G y h tr' n console)
              (A.map_linear pflash pflash page_size_4k (guest_flags A) n)
            ≡ waiting A G y h tr' n1 console =
          rw maps refl in
        (
          y,
          h,
          tr',
          now.0 n1 (map_linear-IsPassed A L pflash n n1 maps),
          λ fuel.
              run-resume A G (core system) fuel here _ (
                data_abort A G (enter A G (core system) here) now.1 pflash now.2 now.3
                  (omega arith))
              ∙ ap (run A G (core system) fuel) same,
        )

  print_on :
      (fuel c : ℕ) (s u : State A G) (text : List ℕ)
      → u.console ≡ s.console ++ (c ∷ [])
      → run A G (core system) (suc fuel) s ≡ run A G (core system) fuel u
      → Prints fuel u text
      → Prints (suc fuel) s (c ∷ text)
  print_on fuel c s u text shown goes_on (t, ends, rest) =
      (t, goes_on ∙ ends, rest ∙ ap (λ l. l ++ text) shown ∙ append_assoc s.console (c ∷ []) text)

  -- The page of pflash is passed through, or it is free and can be.
  abbrev Ready : A.Space → Type 0
  Ready n =
      (A.query n pflash ≡ some pflash)
      ⊎ ((n1 : A.Space) × (A.query n pflash ≡ none)
          × (A.map_linear pflash pflash page_size_4k (guest_flags A) n ≡ some n1))

  -- A well-formed guest whose pflash page is passed through already or not mapped yet runs to its
  -- exit within the exits that its program counts, and the console has then grown by just what the
  -- program prints when its load reads the device.
  pub run-Prints :
      (p : Program) (fuel : ℕ) (x : G) (g : GuestState) (tr : TrapState) (n : A.Space)
      (console : List ℕ)
      → LoadsFrom pflash (device pflash) p
      → P x g system n p
      → Ready n
      → exits (device pflash) p ≤ fuel
      → Prints fuel (waiting A G x g tr n console) (transcript device p)
  run-Prints p zero x g tr n console wf at ready enough =
      absurd (omega (arith, exits_pos (device pflash) p))
  run-Prints (putchar c k) (suc fuel) x g tr n console wf at ready enough =
      let (y, h, tr', at', goes_on) = serves_putchar x g tr n console c k wf.0 at in
      print_on fuel c _ _ _ refl (goes_on fuel)
        (run-Prints k fuel y h tr' n _ wf.1 at' ready (omega arith))
  run-Prints (load a k) (suc fuel) x g tr n console wf at (inl mapped) enough =
      let (y, h, at', goes_on) =
        serves_load x g tr n console k (subst (λ b. P x g system n (load b k)) wf.0 at) mapped in
      let (t, ends, shown) =
        run-Prints (k (device pflash)) (suc fuel) y h tr n console wf.1 at' (inl mapped)
          (omega arith) in
      rw wf.0 (t, goes_on fuel ∙ ends, shown)
  run-Prints (load a k) (suc zero) x g tr n console wf at (inr free) enough =
      absurd (omega (arith, exits_pos (device pflash) (k (device pflash))))
  run-Prints (load a k) (suc (suc fuel)) x g tr n console wf at (inr (n1, free, maps)) enough =
      let (y, h, tr', at', faults) =
        serves_abort x g tr n console k n1 (subst (λ b. P x g system n (load b k)) wf.0 at) free
          maps in
      let mapped : A.query n1 pflash ≡ some pflash =
        L.linear_inside pflash pflash page_size_4k (guest_flags A) n n1 pflash maps refl in
      let (z, h', at'', loads) = serves_load y h tr' n1 console k at' mapped in
      let (t, ends, shown) =
        run-Prints (k (device pflash)) (suc fuel) z h' tr' n1 console wf.1 at'' (inl mapped)
          (omega arith) in
      rw wf.0 (t, faults (suc fuel) ∙ loads fuel ∙ ends, shown)
  run-Prints exit (suc fuel) x g tr n console wf at ready enough =
      serves_exit x g tr n console fuel at

  -- The guest of payload/gkernel on AArch64, with a pflash device that holds "pfld", entered as
  -- `IsEntry` asks with its pflash page not mapped, prints its greeting, the word in hexadecimal and
  -- the magic text, and the hypervisor then leaves its loop by the guest's exit; the core takes no
  -- asynchronous exception meanwhile.
  pub run-aarch64_start :
      (fuel : ℕ) (g : GuestState) (tr : TrapState) (n n1 : A.Space)
      → device pflash ≡ 0x646c_6670
      → IsEntry A image g system n
      → A.query n pflash ≡ none
      → A.map_linear pflash pflash page_size_4k (guest_flags A) n ≡ some n1
      → 1000 ≤ fuel
      → (t : State A G) × (run A G (core system) fuel (waiting A G first g tr n [])
          ≡ ok (shutdown, t))
        × (t.console ≡ flatten aarch64_greeting ++ as_bytes "0x646c6670\nGot pflash magic: pfld\n")
  run-aarch64_start fuel g tr n n1 word entry free maps enough =
      let (t, ends, shown) =
        run-Prints aarch64_start fuel first g tr n [] (start-LoadsFrom device word)
          (C.starts g system n entry) (inr (n1, free, maps))
          (omega (arith, exits-start device word)) in
      (t, ends, shown ∙ start-transcript device word)
