-- ===== src/Image/Fault.antt =====
-- src/image/fault.rs: the injector of faults at the boundary of the system calls, and the file
-- that the test build of src/image.rs sees through it.
pub mod Laws
use winluks.Base.{ℕ, ◌+◌, ◌≤◌, ◌<◌, ◌≡◌, refl, Bool, true, false, List, [], ◌∷◌, ◌++◌, arith, ltb}
use winluks.Base.{if◌then◌else◌, length, take, take-take, length-take}
use winluks.Base.Contents.{slice, overwrite}
use winluks.Image.Os.{Backend, IsFile, IsPatient, IoResult, done, failed, panicked}

pub data Operation : Type 0 where
  read write sync : Operation

-- The error kinds that the program tells apart.
pub data ErrorKind : Type 0 where
  interrupted other : ErrorKind

pub data Action : Type 0 where
  limit : ℕ → Action
  fail : ErrorKind → Action
  panic : Action

pub record Injector : Type 0 where
  pub plan : List (Operation × Action)
  pub events : List Operation

abbrev pub set : List (Operation × Action) → Injector
set steps = record { plan = steps; events = [] }

abbrev same_operation : Operation → Operation → Bool
same_operation read read = true
same_operation write write = true
same_operation sync sync = true
same_operation _ _ = false

-- `size.min(n)`, an I/O error, or a panic
abbrev act : Action → ℕ → IoResult ℕ
act (limit n) size = done (if ltb n size then n else size)
act (fail ErrorKind.interrupted) size = IoResult.interrupted
act (fail other) size = failed
act panic size = panicked

-- The assertion on the order of the calls panics too.
abbrev next : List (Operation × Action) → Operation → ℕ → IoResult ℕ
next [] op size = done size
next ((expected, action) ∷ plan) op size =
    if same_operation expected op then act action size else panicked

abbrev rest : List (Operation × Action) → List (Operation × Action)
rest [] = []
rest (_ ∷ plan) = plan

unfoldable pub before : Injector → Operation → ℕ → IoResult ℕ × Injector
before inj op size =
    (next inj.plan op size, record { plan = rest inj.plan; events = inj.events ++ op ∷ [] })

module _ (B : Backend) where
  abbrev Faulty : Type 0
  Faulty = B.File × Injector

  -- `write_once`, `read_once` and the flush of `sync` under test.
  unfoldable pub faulty_write : Faulty → ℕ → List ℕ → IoResult ℕ × Faulty
  unfolding before
  faulty_write (f, inj) offset buf =
      let (n, inj') = before inj write (length buf) in
      elim n [
        | done k ↦ let (r, f') = B.write_at f offset (take k buf) in (r, (f', inj'))
        | IoResult.interrupted ↦ (IoResult.interrupted, (f, inj'))
        | failed ↦ (failed, (f, inj'))
        | panicked ↦ (panicked, (f, inj'))
      ]

  unfoldable pub faulty_read : Faulty → ℕ → ℕ → IoResult (List ℕ) × Faulty
  unfolding before
  faulty_read (f, inj) offset size =
      let (n, inj') = before inj read size in
      elim n [
        | done k ↦ let (r, f') = B.read_at f offset k in (r, (f', inj'))
        | IoResult.interrupted ↦ (IoResult.interrupted, (f, inj'))
        | failed ↦ (failed, (f, inj'))
        | panicked ↦ (panicked, (f, inj'))
      ]

  unfoldable pub faulty_sync : Faulty → IoResult (Unit {0}) × Faulty
  unfolding before
  faulty_sync (f, inj) =
      let (n, inj') = before inj sync 0 in
      elim n [
        | done k ↦ let (r, f') = B.sync_all f in (r, (f', inj'))
        | IoResult.interrupted ↦ (IoResult.interrupted, (f, inj'))
        | failed ↦ (failed, (f, inj'))
        | panicked ↦ (panicked, (f, inj'))
      ]

  abbrev pub with_faults : Backend
  with_faults = record {
    File = Faulty;
    interrupts = λ s. B.interrupts s.0 + length s.1.plan;
    file_len = λ s. let (r, f) = B.file_len s.0 in (r, (f, s.1));
    write_at = faulty_write;
    read_at = faulty_read;
    sync_all = faulty_sync;
  }
