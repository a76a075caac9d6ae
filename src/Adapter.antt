-- ===== src/Adapter.antt =====
-- src/adapter.rs: the block adapter between the callbacks of the virtual disk and the volume.
pub mod Disk
pub mod Lost
pub mod Session
pub mod Commands
pub mod Windows
use winluks.Base.{ℕ, ◌+◌, ◌-◌, ◌*◌, Bool, true, false, List, [], not, ltb, leb, ◌==◌, ◌!=◌, ◌||◌}
use winluks.Base.{Option, none, some, if◌then◌else◌}
use winluks.Base.Words.{checked_mul, fetch_add_one}
use winluks.Error.{Error, invalid_range, stopping, unsupported_operation, fs_gate_unpassed}
use winluks.Error.{fs_driver_unavailable, Outcome, ok, err, panic, unfinished}
use winluks.Image.Os.{Backend}
use winluks.Image.{AccessMode, is_read_write}
use winluks.Crypto.Primitives.{Libraries}
use winluks.Probe.{Filesystem}
use winluks.Volume
use winluks.Volume.{UnlockedVolume, ValidatedVolume}

pub record BlockAdapter (B : Backend) : Type 0 where
  pub volume : ValidatedVolume B
  pub stopped : Bool
  pub reads : ℕ
  pub write_attempts : ℕ
  pub unmap_attempts : ℕ
  pub flushes : ℕ

-- An adapter, and all that its process and its driver hold beside it.
pub record Host (B : Backend) (W : Type 0) : Type 0 where
  pub adapter : BlockAdapter B
  pub outside : W

module _ (B : Backend) where
  abbrev pub new_adapter : ValidatedVolume B → BlockAdapter B
  new_adapter v = record {
    volume = v;
    stopped = false;
    reads = 0;
    write_attempts = 0;
    unmap_attempts = 0;
    flushes = 0;
  }

  -- The unlocked volume below an adapter, and a call on it.
  abbrev pub inner : BlockAdapter B → UnlockedVolume B
  inner a = a.volume.volume

  abbrev pub with_inner : BlockAdapter B → UnlockedVolume B → BlockAdapter B
  with_inner a v = record a { volume = record { volume = v; filesystem = a.volume.filesystem } }

  abbrev pub on_volume :
      {A : Type 0}
      → BlockAdapter B
      → (UnlockedVolume B → Outcome A × UnlockedVolume B)
      → Outcome A × BlockAdapter B
  on_volume a call = let (r, v) = call (inner a) in (r, with_inner a v)

  -- `mark_faulted` of the volume
  abbrev pub mark_faulted : BlockAdapter B → BlockAdapter B
  mark_faulted a = with_inner a (record (inner a) { faulted = true })

  unfoldable pub stop : BlockAdapter B → BlockAdapter B
  stop a = record a { stopped = true }

  unfoldable pub unmap : BlockAdapter B → Outcome (Unit {0}) × BlockAdapter B
  unmap a = (
    err (
        if not (is_read_write (inner a).image.mode)
        then Error.read_only
        else unsupported_operation),
    record a { unmap_attempts = fetch_add_one a.unmap_attempts },
  )

  abbrev pub count_flush : BlockAdapter B → BlockAdapter B
  count_flush a = record a { flushes = fetch_add_one a.flushes }

  unfoldable pub flush : BlockAdapter B → ℕ → ℕ → Outcome (Unit {0}) × BlockAdapter B
  flush a lba count = if a.stopped then (err stopping, a) else (elim (checked_mul lba 512) [
    | none ↦ (err invalid_range, a)
    | some o ↦
        if count == 0
        then if leb o (inner a).len
          then on_volume (count_flush a) (Volume.flush B)
          else (err invalid_range, a)
        else if ltb (inner a).len o || ltb ((inner a).len - o) (count * 512)
        then (err invalid_range, a)
        else on_volume (count_flush a) (Volume.flush B)
  ])

  abbrev pub count_write : BlockAdapter B → BlockAdapter B
  count_write a = record a { write_attempts = fetch_add_one a.write_attempts }

  -- `shutdown`, with what the callbacks and the dispatcher do while the transport drains. A panic in
  -- the final flush leaves it before the drain.
  unfoldable pub shutdown :
      {W : Type 0} → Host B W → (Host B W → ℕ × Host B W) → Outcome Bool × Host B W
  shutdown h drain =
      let (r, b) = flush h.adapter 0 0 in
      let (transport_error, k) = drain (record h { adapter = stop b }) in
      elim r [
        | ok _ ↦ (ok (transport_error != 0 || (inner k.adapter).faulted), k)
        | err e ↦ (ok true, k)
        | panic ↦ (panic, record h { adapter = b })
        | unfinished ↦ (unfinished, record h { adapter = b })
      ]

  module _ (P : Libraries) where
    unfoldable pub read : BlockAdapter B → ℕ → ℕ → Outcome (List ℕ) × BlockAdapter B
    read a lba count = if a.stopped then (err stopping, a) else (elim (checked_mul lba 512) [
      | none ↦ (err invalid_range, a)
      | some o ↦ elim (checked_mul count 512) [
        | none ↦ (err invalid_range, a)
        | some n ↦
            on_volume (record a { reads = fetch_add_one a.reads }) (λ v. Volume.read_at B P v o n)
      ]
    ])

    unfoldable pub write : BlockAdapter B → ℕ → List ℕ → Outcome (Unit {0}) × BlockAdapter B
    write a lba bytes =
        if not (is_read_write (inner a).image.mode)
        then (err Error.read_only, count_write a)
        else if a.stopped
        then (err stopping, count_write a)
        else (elim (checked_mul lba 512) [
          | none ↦ (err invalid_range, count_write a)
          | some offset ↦ on_volume (count_write a) (λ v. Volume.write_at B P v offset bytes)
        ])

-- `check_consumer`: the check of the driver exists in the Windows build only.
unfoldable pub check_consumer :
    Option (Filesystem → AccessMode → Outcome (Unit {0}))
    → Filesystem
    → AccessMode
    → Outcome (Unit {0})
check_consumer windows Filesystem.ext4 mode = err fs_gate_unpassed
check_consumer none Filesystem.btrfs mode = err fs_driver_unavailable
check_consumer (some check) Filesystem.btrfs mode = check Filesystem.btrfs mode
