-- ===== src/Xtask/Trace.antt =====
-- Which commands a task of xtask runs, in which order, and how they end the task.
pub mod Order
pub mod Quiet
use Prim.{Unit, tt}
use app_guestaspace.Base.{
  ℕ, ◌≡◌, ◌∙◌, ap, sym, refl, List, [], ◌∷◌, ◌++◌, Bool, true, false, Option, none, some,
  if◌then◌else◌,
}
use mathlib.Core.List.{append_assoc, append-nil}
use app_guestaspace.Xtask.{
  Command, Status, exited_with, success, code_or_one, Host, World, Result, done, exited, panicked,
  Task, ◌>>=◌,
}

-- How a task ends.
pub data Ending : Type 0 where
  finished panics : Ending
  exits : ℕ → Ending

abbrev pub Log : Type 0
Log = List (Command × Option Status)

-- `Ran commands log e`: a task that is to run the commands in this order has run those of the log and
-- ended with `e`. Only the last command of the log may have failed: it gives its exit code to the
-- task, or, where it could not be started, the code 1 or a panic.
pub data Ran : List Command → Log → Ending → Type 0 where
  all_run : Ran [] [] finished
  stops : {cs : List Command} → Ran cs [] (exits 1)
  breaks : {cs : List Command} → Ran cs [] panics
  fails :
      {c : Command} {cs : List Command} (s : Status)
      → success s ≡ false
      → Ran (c ∷ cs) ((c, some s) ∷ []) (exits (code_or_one s))
  not_started : {c : Command} {cs : List Command} → Ran (c ∷ cs) ((c, none) ∷ []) (exits 1)
  not_started_panics : {c : Command} {cs : List Command} → Ran (c ∷ cs) ((c, none) ∷ []) panics
  succeeds :
      {c : Command} {cs : List Command} {log : Log} {e : Ending} (s : Status)
      → success s ≡ true
      → Ran cs log e
      → Ran (c ∷ cs) ((c, some s) ∷ log) e

pub Ran-append :
    {cs ds : List Command} {l m : Log} {e : Ending}
    → Ran cs l finished
    → Ran ds m e
    → Ran (cs ++ ds) (l ++ m) e
Ran-append all_run y = y
Ran-append (succeeds s p x) y = succeeds s p (Ran-append x y)

pub Ran-append_exits :
    {cs : List Command} {l : Log} {c : ℕ} (ds : List Command)
    → Ran cs l (exits c)
    → Ran (cs ++ ds) l (exits c)
Ran-append_exits ds stops = stops
Ran-append_exits ds (fails s p) = fails s p
Ran-append_exits ds not_started = not_started
Ran-append_exits ds (succeeds s p x) = succeeds s p (Ran-append_exits ds x)

pub Ran-append_panics :
    {cs : List Command} {l : Log} (ds : List Command) → Ran cs l panics → Ran (cs ++ ds) l panics
Ran-append_panics ds breaks = breaks
Ran-append_panics ds not_started_panics = not_started_panics
Ran-append_panics ds (succeeds s p x) = succeeds s p (Ran-append_panics ds x)

abbrev pub ending_of : {A : Type 0} → Result A → Ending
ending_of (done a w) = finished
ending_of (exited c w) = exits c
ending_of (panicked w) = panics

abbrev pub world_of : {A : Type 0} → Result A → World
world_of (done a w) = w
world_of (exited c w) = w
world_of (panicked w) = w

abbrev pub Gives : {A : Type 0} → A → Result A → Type 0
Gives a (done b w) = b ≡ a
Gives a (exited c w) = Unit
Gives a (panicked w) = Unit

-- From `w` the result `r` has run the commands, and a result that is done gives `a`.
abbrev pub Runs : {A : Type 0} → List Command → A → World → Result A → Type 0
Runs cs a w r =
    (log : Log) × ((world_of r).log ≡ w.log ++ log) × Ran cs log (ending_of r) × Gives a r

Runs-result :
    {A B : Type 0} (cs : List Command) (a : A) (ds : List Command) (b : B) (w : World)
    (r : Result A) (f : A → Task B)
    → Runs cs a w r
    → ((w1 : World) → Runs ds b w1 (f a w1))
    → Runs
        (cs ++ ds)
        b
        w
        (elim r [ done a' w' ↦ f a' w' | exited c w' ↦ exited c w' | panicked w' ↦ panicked w' ])
Runs-result cs a ds b w (done a' w1) f (l, e, x, g) k =
    let (m, e', y, h) = k w1 in
    rw g (l ++ m, e' ∙ ap (λ t. t ++ m) e ∙ append_assoc w.log l m, Ran-append x y, h)
Runs-result cs a ds b w (exited c w1) f (l, e, x, g) k = (l, e, Ran-append_exits ds x, tt)
Runs-result cs a ds b w (panicked w1) f (l, e, x, g) k = (l, e, Ran-append_panics ds x, tt)

-- Two tasks in a row.
pub Runs->>= :
    {A B : Type 0} {cs ds : List Command} (a : A) (b : B) (m : Task A) (f : A → Task B)
    → ((w : World) → Runs cs a w (m w))
    → ((w : World) → Runs ds b w (f a w))
    → (w : World) → Runs (cs ++ ds) b w ((m >>= f) w)
Runs->>= {cs = cs} {ds = ds} a b m f x k w = Runs-result cs a ds b w (m w) f (x w) k

pub Runs-quiet : {A : Type 0} (a : A) (w w1 : World) → w1.log ≡ w.log → Runs [] a w (done a w1)
Runs-quiet a w w1 e = ([], e ∙ sym (append-nil w.log), all_run, refl)
