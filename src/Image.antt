-- ===== src/Image.antt =====
-- src/image.rs: one fixed-size file handle, its exact reads, complete writes and flushes.
-- The file system is the parameter `Backend`; src/image/fault.rs is the child `Fault`.
pub mod Os
pub mod Loops
pub mod Rounds
pub mod Access
pub mod Fault
pub mod Memory
pub mod Open
pub mod Sharing
use winluks.Base.{ℕ, zero, suc, ◌+◌, ◌-◌, Bool, true, false, List, [], ◌++◌, not, ltb, ◌==◌, ◌!=◌}
use winluks.Base.{◌||◌, if◌then◌else◌, length, drop}
use winluks.Error.{Error, backend_io, invalid_range, Outcome, ok, err, panic, unfinished}
use Os.{Backend, done, interrupted, failed, panicked}

pub data AccessMode : Type 0 where
  read_only read_write : AccessMode

-- `mode == AccessMode::ReadWrite`
abbrev pub is_read_write : AccessMode → Bool
is_read_write AccessMode.read_write = true
is_read_write AccessMode.read_only = false

pub record Image (B : Backend) : Type 0 where
  pub file : B.File
  pub len : ℕ
  pub mode : AccessMode

module _ (B : Backend) where
  -- `while done < buf.len()` of `write_all_at`, with `done` as `count`.
  unfoldable pub write_loop : ℕ → B.File → ℕ → List ℕ → ℕ → Outcome (Unit {0}) × B.File
  write_loop zero f offset buf count = (unfinished, f)
  write_loop (suc fuel) f offset buf count = elim (ltb count (length buf)) [
    | false ↦ (ok tt, f)
    | true ↦
        let (result, g) = B.write_at f (offset + count) (drop count buf) in
        elim result [
          | interrupted ↦ write_loop fuel g offset buf count
          | failed ↦ (err backend_io, g)
          | panicked ↦ (panic, g)
          | done n ↦ elim (n == 0) [
            | true ↦ (err backend_io, g)
            | false ↦ write_loop fuel g offset buf (count + n)
          ]
        ]
  ]

  -- The loop of `read_exact_at` over a buffer of `total` bytes; `buf` holds those read so far.
  unfoldable pub read_loop : ℕ → B.File → ℕ → ℕ → List ℕ → Outcome (List ℕ) × B.File
  read_loop zero f offset total buf = (unfinished, f)
  read_loop (suc fuel) f offset total buf = elim (ltb (length buf) total) [
    | false ↦ (ok buf, f)
    | true ↦
        let (result, g) = B.read_at f (offset + length buf) (total - length buf) in
        elim result [
          | interrupted ↦ read_loop fuel g offset total buf
          | failed ↦ (err backend_io, g)
          | panicked ↦ (panic, g)
          | done bytes ↦ elim (length bytes == 0) [
            | true ↦ (err backend_io, g)
            | false ↦ read_loop fuel g offset total (buf ++ bytes)
          ]
        ]
  ]

  -- `self.file.metadata()?.len() != self.len`, and what follows where the lengths agree.
  abbrev pub with_same_len :
      {A : Type 0} → Image B → (B.File → Outcome A × B.File) → Outcome A × Image B
  with_same_len im body =
      let (result, f) = B.file_len im.file in
      elim result [
        | interrupted ↦ (err backend_io, record im { file = f })
        | failed ↦ (err backend_io, record im { file = f })
        | panicked ↦ (panic, record im { file = f })
        | done n ↦
            if n != im.len
            then (err backend_io, record im { file = f })
            else (let (r, g) = body f in (r, record im { file = g }))
      ]

  -- The fuel of a loop over n bytes: each round moves a byte or is interrupted.
  abbrev pub enough_fuel : B.File → ℕ → ℕ
  enough_fuel f n = suc (n + B.interrupts f)

  unfoldable pub write_all_at : Image B → ℕ → List ℕ → Outcome (Unit {0}) × Image B
  write_all_at im offset buf =
      if not (is_read_write im.mode)
      then (err Error.read_only, im)
      else if ltb im.len offset || ltb (im.len - offset) (length buf)
      then (err invalid_range, im)
      else with_same_len im (λ f. write_loop (enough_fuel f (length buf)) f offset buf 0)

  -- `file.sync_all()?`, in a read-write session only
  abbrev sync_file : Bool → B.File → Outcome (Unit {0}) × B.File
  sync_file false f = (ok tt, f)
  sync_file true f =
      let (result, g) = B.sync_all f in
      elim result [
        | done _ ↦ (ok tt, g)
        | interrupted ↦ (err backend_io, g)
        | failed ↦ (err backend_io, g)
        | panicked ↦ (panic, g)
      ]

  unfoldable pub sync : Image B → Outcome (Unit {0}) × Image B
  sync im = with_same_len im (sync_file (is_read_write im.mode))

  unfoldable pub read_exact_at : Image B → ℕ → ℕ → Outcome (List ℕ) × Image B
  read_exact_at im offset n =
      if ltb im.len offset || ltb (im.len - offset) n
      then (err invalid_range, im)
      else with_same_len im (λ f. read_loop (enough_fuel f n) f offset n [])
